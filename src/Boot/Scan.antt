-- ===== src/Boot/Scan.antt =====
-- src/boot/mod.rs: `scan_dir_recursive` and `try_boot_fat_fallback`. `str::to_lowercase` is an argument.
use rignite.Common.{Option, none, some, List, [], ◌∷◌, ◌++◌, Bool, ◌||◌, bytes_eq, if◌then◌else◌}
use rignite.Common.{ok, err, true, false}
use rignite.Boot.Run.{Run, lift, guard, ◌>>=◌, ◌>>◌}
use rignite.Btrfs.Layout.{M, unsupported, not_found}
use rignite.Common.Text.{Text, codes, ends_with, contains}

-- What `read_entry` gives until it ends, by `None` or by an error: a file, a subdirectory that can
-- be opened, with its own entries, or one that cannot.
pub data Listing : Type 0 where
  end : Listing
  file : Text → Listing → Listing
  locked : Text → Listing → Listing
  dir : Text → Listing → Listing → Listing

-- `apps` and `quibble_path`.
pub record Found : Type 0 where
  pub apps : List Text
  pub quibble : Option Text

abbrev pub is_dots : Text → Bool
is_dots name = bytes_eq name (codes ".") || bytes_eq name (codes "..")

abbrev pub join : Text → Text → Text
join path_prefix name = path_prefix ++ (b'\\' ∷ name)

module _ (to_lowercase : Text → Text) where
  abbrev pub is_efi : Text → Bool
  is_efi name = ends_with (to_lowercase name) (codes ".efi")

  abbrev pub is_quibble : Text → Bool
  is_quibble name = contains (to_lowercase name) (codes "quibble.efi")

  unfoldable pub add_file : Text → Text → Found → Found
  add_file path_prefix name found =
      if is_efi name
      then record {
        apps = found.apps ++ (join path_prefix name ∷ []);
        quibble = if is_quibble name then some (join path_prefix name) else found.quibble;
      }
      else found

  unfoldable pub scan_dir_recursive : Listing → Text → Found → Found
  unfolding add_file
  scan_dir_recursive end path_prefix found = found
  scan_dir_recursive (file name rest) path_prefix found =
      scan_dir_recursive rest path_prefix
        (if is_dots name then found else add_file path_prefix name found)
  scan_dir_recursive (locked name rest) path_prefix found =
      scan_dir_recursive rest path_prefix found
  scan_dir_recursive (dir name sub rest) path_prefix found =
      let inner = scan_dir_recursive sub (join path_prefix name) found in
      scan_dir_recursive rest path_prefix (if is_dots name then found else inner)

  abbrev pub is_boot_manager : Text → Bool
  is_boot_manager path =
      contains (to_lowercase path) (codes "bootx64.efi")
      || contains (to_lowercase path) (codes "bootmgfw.efi")

  unfoldable pub find_boot_manager : List Text → Option Text
  find_boot_manager [] = none
  find_boot_manager (a ∷ as') = if is_boot_manager a then some a else find_boot_manager as'

  abbrev pub or_else : Option Text → Option Text → Option Text
  or_else (some a) o = some a
  or_else none o = o

  abbrev pub first : List Text → Option Text
  first [] = none
  first (a ∷ as') = some a

  -- `target`.
  unfoldable pub choose_target : Found → Option Text
  unfolding find_boot_manager
  choose_target found =
      or_else found.quibble (or_else (find_boot_manager found.apps) (first found.apps))

-- The file system of the drive opens or not, then its volume; `boot_efi_app` is the argument. With
-- an empty `apps` the fallback ends before a target is chosen.
unfoldable pub start_target : (Text → Run (Unit {0})) → Option Text → Run (Unit {0})
start_target boot_efi_app none = lift (ok tt)
start_target boot_efi_app (some path) = boot_efi_app path

abbrev pub is_empty : List Text → Bool
is_empty [] = true
is_empty (a ∷ as') = false

unfoldable pub try_boot_fat_fallback :
    (Text → Text) → (Text → Run (Unit {0})) → Bool → M Listing → Run (Unit {0})
unfolding scan_dir_recursive choose_target start_target
try_boot_fat_fallback to_lowercase boot_efi_app fs_opens open_volume = do
  guard fs_opens unsupported
  root ← lift open_volume
  let found = scan_dir_recursive to_lowercase root [] (record { apps = []; quibble = none })
  if is_empty found.apps
      then lift (err not_found)
      else start_target boot_efi_app (choose_target to_lowercase found)
