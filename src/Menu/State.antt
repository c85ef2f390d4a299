-- ===== src/Menu/State.antt =====
-- src/main.rs: the menu's items and states, and `get_menu_items`. A handle of the firmware is a
-- number.
use rignite.Common.{
  ℕ, zero, suc, ◌+◌, ◌-◌, ◌*◌, ◌/◌, ◌%◌, ◌^◌, Option, none, some, List, [], ◌∷◌, ◌++◌, map, Bool,
  ok, err, fault, ◌>>=◌, not, ltb, bytes_eq, if◌then◌else◌,
}
use rignite.Common.Text.{Text, codes}
use rignite.Btrfs.Layout.{M}
use rignite.Btrfs.Volume.{BlockIo, Btrfs, u64}
use rignite.Btrfs.Mount.{get_label}
use rignite.Btrfs.Mount
use rignite.Boot.Scan.{Listing, scan_dir_recursive}

pub data MenuItem : Type 0 where
  runix_os : ℕ → MenuItem
  meta_entry firmware_settings reboot shutdown back : MenuItem
  physical_drive partition : Text → ℕ → MenuItem
  efi_file : Text → Text → MenuItem

pub data MenuState : Type 0 where
  primary drive_list : MenuState
  partition_list file_selection : ℕ → MenuState

-- `UIAction`
pub data UiAction : Type 0 where
  boot_linux : ℕ → Option Text → UiAction
  chainload : ℕ → Text → UiAction
  firmware_settings reboot shutdown : UiAction

-- The `BlockIO` protocol of a handle, with what its media say.
pub record Drive : Type 0 where
  pub media_present : Bool
  pub last_block : ℕ
  pub io : BlockIo

-- What the firmware answers: the block device of a handle, whether a handle has a file system,
-- and the root of its volume where that opens; and the library's conversions of texts.
pub record Firmware : Type 0 where
  pub block_io : ℕ → Option Drive
  pub file_system : ℕ → Bool
  pub volume : ℕ → Option Listing
  pub to_lowercase : Text → Text
  pub from_utf8_lossy : List ℕ → Text

-- `{}` of a number, which has 20 digits at most.
abbrev digits : ℕ → ℕ → Text
digits zero n = []
digits (suc fuel) n =
    let front = digits fuel (n / 10) in (if ltb n 10 then [] else front) ++ ((48 + n % 10) ∷ [])

-- `saturating_mul`, and the sum inside, which wraps.
abbrev pub media_size : Drive → ℕ
media_size d =
    let size = d.io.block_size * u64 (d.last_block + 1) in
    if ltb size (2 ^ 64) then size else 2 ^ 64 - 1

abbrev pub size_text : ℕ → Text
size_text size =
    if ltb size (1024 * 1024 * 1024)
    then digits 20 (size / (1024 * 1024)) ++ codes "MB"
    else digits 20 (size / (1024 * 1024 * 1024)) ++ codes "GB"

abbrev pub in_parens : Text → Text → Text
in_parens name size = name ++ (codes " (" ++ (size ++ codes ")"))

-- The label of the Btrfs on a device: `none` where `Btrfs::new` does not give `Ok(Some(_))`.
abbrev label_of : (List ℕ → Text) → M (Option Btrfs) → M (Option Text)
label_of lossy (ok (some fs)) = ok (some (get_label lossy fs))
label_of lossy (ok none) = ok none
label_of lossy (err e) = ok none
label_of lossy (fault x) = fault x

module _ (fw : Firmware) where
  unfoldable pub probe : Drive → M (Option Text)
  probe d = label_of fw.from_utf8_lossy (Mount.new d.io)

  -- One handle in the loop of the primary menu, with the rounds that follow.
  unfoldable pub runix_item : ℕ → Option Drive → M (List MenuItem) → M (List MenuItem)
  unfolding probe
  runix_item h none rest = rest
  runix_item h (some d) rest = do
    label ← probe d
    items ← rest
    ok (elim label [
      | none ↦ items
      | some l ↦ if bytes_eq l (codes "RunixOS") then runix_os h ∷ items else items
    ])

  unfoldable pub runix_items : List ℕ → M (List MenuItem)
  unfolding runix_item
  runix_items [] = ok []
  runix_items (h ∷ hs) = runix_item h (fw.block_io h) (runix_items hs)

  -- The name of a drive in the list.
  abbrev pub drive_name : ℕ → Option Text → Text → Text
  drive_name h (some []) size = in_parens (codes "Drive") size
  drive_name h (some (c ∷ cs)) size = in_parens (c ∷ cs) size
  drive_name h none size = in_parens (codes (if fw.file_system h then "EFI/FAT" else "Drive")) size

  -- One handle in the loop of the list of drives, with the rounds that follow.
  unfoldable pub drive_item : ℕ → Option Drive → M (List MenuItem) → M (List MenuItem)
  unfolding probe
  drive_item h none rest = rest
  drive_item h (some d) rest =
      if not d.media_present then rest else if ltb (media_size d) (1024 * 1024) then rest else do
        label ← probe d
        items ← rest
        ok (physical_drive (drive_name h label (size_text (media_size d))) h ∷ items)

  unfoldable pub drive_items : List ℕ → M (List MenuItem)
  unfolding drive_item
  drive_items [] = ok []
  drive_items (h ∷ hs) = drive_item h (fw.block_io h) (drive_items hs)

  abbrev pub efi_files : ℕ → List MenuItem
  efi_files h = elim (fw.volume h) [
    | none ↦ []
    | some root ↦
        map (λ app. efi_file app app)
          (scan_dir_recursive fw.to_lowercase root [] (record { apps = []; quibble = none })).apps
  ]

  abbrev or_no_files : List MenuItem → List MenuItem
  or_no_files [] = efi_file (codes "No EFI files found") [] ∷ []
  or_no_files (i ∷ is) = i ∷ is

  unfoldable pub get_menu_items : MenuState → List ℕ → M (List MenuItem)
  unfolding runix_items drive_items
  get_menu_items primary handles = do
    items ← runix_items handles
    ok (items ++ (meta_entry ∷ firmware_settings ∷ reboot ∷ shutdown ∷ []))
  get_menu_items drive_list handles = do items ← drive_items handles; ok (back ∷ items)
  get_menu_items (partition_list h) handles =
      ok (back ∷ partition (codes "Default Partition") h ∷ [])
  get_menu_items (file_selection h) handles = ok (back ∷ or_no_files (efi_files h))
