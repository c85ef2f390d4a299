-- ===== src/Boot/Linux.antt =====
-- src/boot/mod.rs: `boot_linux_from_drive`.
use rignite.Common.{
  ℕ, Option, none, some, List, ◌++◌, Bool, true, false, ok, err, fault, ok_or, ◌>>=◌, ◌==◌,
  if◌then◌else◌,
}
use rignite.Common.Text.{Text, codes}
use rignite.Btrfs.Layout.{M, not_found, root_item_key}
use rignite.Btrfs.Volume.{Btrfs}
use rignite.Btrfs.Mount.{new, get_uuid}
use rignite.Btrfs.Search.{get_fs_root, get_tree_root}
use rignite.Btrfs.Dir.{find_file_in_dir}
use rignite.Btrfs.File.{read_file}
use rignite.Boot.Run.{Run, lift}
use rignite.Boot.Scan.{try_boot_fat_fallback}
use rignite.Boot.Image.{Drive, Firmware, boot_from_memory, boot_efi_app}

-- What is read from the volume, and the command line.
pub record Startup : Type 0 where
  pub kernel_data : List ℕ
  pub initrd_data : Option (List ℕ)
  pub cmdline : Text

abbrev pub default_cmdline : List ℕ → Text
default_cmdline uuid =
    codes "root=UUID="
    ++ (uuid
        ++ codes
            " root=/dev/vda rw rootfstype=btrfs init=/Core/Bin/rev console=ttyS0 console=tty0 quiet loglevel=3")

abbrev pub unwrap_or : Option Text → Text → Text
unwrap_or none default = default
unwrap_or (some t) default = t

-- `current_fs_root` and `current_dir_id` after Core was found: a subvolume or just a directory.
unfoldable pub enter_core : ℕ → Btrfs → ℕ → ℕ × ℕ → M (ℕ × ℕ)
enter_core fuel btrfs fs_root (core_obj, core_type) =
    if core_type == root_item_key
    then (get_tree_root fuel btrfs core_obj >>= λ root. ok (root, 256))
    else ok (fs_root, core_obj)

unfoldable pub read_initrd : ℕ → Btrfs → ℕ → Option (ℕ × ℕ) → M (Option (List ℕ))
read_initrd fuel btrfs fs_root none = ok none
read_initrd fuel btrfs fs_root (some (initrd_inode, type_)) = do
  data_ ← read_file fuel btrfs fs_root initrd_inode
  ok (some data_)

-- The part that reads the volume.
unfoldable pub read_startup : ℕ → Btrfs → Option Text → M Startup
unfolding enter_core read_initrd
read_startup fuel btrfs cmdline_override = do
  fs_root ← get_fs_root fuel btrfs
  core_res ← find_file_in_dir fuel btrfs fs_root 256 (codes "Core")
  core ← ok_or core_res not_found
  (current_fs_root, current_dir_id) ← enter_core fuel btrfs fs_root core
  boot_res ← find_file_in_dir fuel btrfs current_fs_root current_dir_id (codes "Startup")
  (boot_obj, boot_type) ← ok_or boot_res not_found
  kernel_res ← find_file_in_dir fuel btrfs current_fs_root boot_obj (codes "vmlinuz-runixos")
  (kernel_obj, kernel_type) ← ok_or kernel_res not_found
  initrd_res ← find_file_in_dir fuel btrfs current_fs_root boot_obj (codes "initramfs-runixos.img")
  initrd ← read_initrd fuel btrfs current_fs_root initrd_res
  kernel ← read_file fuel btrfs current_fs_root kernel_obj
  ok (record {
    kernel_data = kernel;
    initrd_data = initrd;
    cmdline = unwrap_or cmdline_override (default_cmdline (get_uuid btrfs));
  })

abbrev pub is_ok : M (Unit {0}) → Bool
is_ok (ok a) = true
is_ok (err e) = false
is_ok (fault x) = false

module _ (fw : Firmware) (to_lowercase : Text → Text) (fuel : ℕ) (drive : Drive) where
  abbrev pub fallback : Run (Unit {0})
  fallback =
      try_boot_fat_fallback to_lowercase (boot_efi_app fw fuel drive) (is_ok drive.file_system)
        drive.open_volume

  unfoldable pub boot_startup : M Startup → Run (Unit {0})
  boot_startup (ok s) = boot_from_memory fw s.kernel_data s.initrd_data s.cmdline
  boot_startup (err e) = lift (err e)
  boot_startup (fault x) = lift (fault x)

  -- What `Btrfs::new` gave decides.
  unfoldable pub boot_volume : Option Text → M (Option Btrfs) → Run (Unit {0})
  unfolding boot_startup read_startup
  boot_volume cmdline_override (ok (some btrfs)) =
      boot_startup (read_startup fuel btrfs cmdline_override)
  boot_volume cmdline_override (ok none) = fallback
  boot_volume cmdline_override (err e) = fallback
  boot_volume cmdline_override (fault x) = lift (fault x)

  unfoldable pub boot_linux_from_drive : Option Text → Run (Unit {0})
  unfolding boot_volume
  boot_linux_from_drive cmdline_override = elim drive.block_io [
    | none ↦ fallback
    | some block_io ↦ boot_volume cmdline_override (new block_io)
  ]
