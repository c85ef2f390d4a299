-- ===== src/Boot/Image.antt =====
-- src/boot/mod.rs: `install_initrd_protocol`, `boot_from_memory` and `boot_efi_app`. What the calls
-- of the firmware return is a parameter.
use rignite.Common.{
  ℕ, ◌*◌, ◌%◌, ◌^◌, Option, none, some, List, [], ◌∷◌, ◌++◌, Bool, ok, err, length,
}
use rignite.Common.Text.{Text, encode_utf16, trim_start_matches}
use rignite.Btrfs.Layout.{M, invalid_parameter, unsupported}
use rignite.Btrfs.Volume.{BlockIo, allocate}
use rignite.Boot.Run.{
  Run, lift, call, guard, ◌>>=◌, ◌>>◌, set_initrd_data, install_device_path, install_load_file2,
  load_image, set_load_options, start_image,
}
use rignite.Boot.Kernel.{Arch, validate_kernel_pe}
use rignite.Boot.DevicePath.{device_path}
use rignite.Boot.Scan.{Listing}

-- An opened file after `into_type`.
pub data Opened : Type 0 where
  regular other : Opened

-- A drive: its blocks if the handle has them, the memory of its device path, whether its file system
-- opens, the entries of its volume, and its files. `to_ucs2` says whether a text fits the buffer of 256 units and its characters one unit
-- each; `read` is what the buffer of that size holds after the read.
pub record Drive : Type 0 where
  pub block_io : Option BlockIo
  pub device_path : M (List ℕ)
  pub file_system : M (Unit {0})
  pub open_volume : M Listing
  pub to_ucs2 : Text → Bool
  pub open_file : Text → M Opened
  pub file_size : Text → M ℕ
  pub read : Text → ℕ → M (List ℕ)

pub record Firmware : Type 0 where
  pub arch : Arch
  pub install_device_path : List ℕ → M ℕ
  pub install_load_file2 : ℕ → M (Unit {0})
  pub load_image : List ℕ → Option (List ℕ) → M ℕ
  pub open_loaded_image : ℕ → M (Unit {0})
  pub start_image : ℕ → M (Unit {0})

-- The vendor node with LINUX_EFI_INITRD_MEDIA_GUID, and the end node.
abbrev pub initrd_device_path : List ℕ
initrd_device_path =
    0x04 ∷ 0x03 ∷ 0x14 ∷ 0x00 ∷ 0x27 ∷ 0xe4 ∷ 0x68 ∷ 0x55 ∷ 0xfc ∷ 0x68 ∷ 0x3d ∷ 0x4f ∷ 0xac ∷ 0x74
    ∷ 0xca ∷ 0x55 ∷ 0x52 ∷ 0x31 ∷ 0xcc ∷ 0x68 ∷ 0x7f ∷ 0xff ∷ 0x04 ∷ 0x00 ∷ []

abbrev pub as_regular : Opened → M (Unit {0})
as_regular regular = ok tt
as_regular other = err unsupported

module _ (fw : Firmware) where
  unfoldable pub install_initrd_protocol : List ℕ → Run (Unit {0})
  install_initrd_protocol initrd_data = do
    call (set_initrd_data initrd_data) (ok tt)
    new_handle ←
        call (install_device_path initrd_device_path) (fw.install_device_path initrd_device_path)
    call (install_load_file2 new_handle) (fw.install_load_file2 new_handle)

  unfoldable pub install_some : Option (List ℕ) → Run (Unit {0})
  unfolding install_initrd_protocol
  install_some none = lift (ok tt)
  install_some (some data_) = install_initrd_protocol data_

  -- The units of the command line with a null unit, and their size in bytes, a `u32`.
  abbrev pub load_options : Text → List ℕ
  load_options cmdline = encode_utf16 cmdline ++ (0 ∷ [])

  unfoldable pub boot_from_memory : List ℕ → Option (List ℕ) → Text → Run (Unit {0})
  unfolding install_some
  boot_from_memory kernel_data initrd_data cmdline = do
    lift (validate_kernel_pe fw.arch kernel_data)
    install_some initrd_data
    handle ← call (load_image kernel_data none) (fw.load_image kernel_data none)
    lift (fw.open_loaded_image handle)
    let options = load_options cmdline
    call (set_load_options handle options (length options * 2 % 2 ^ 32)) (ok tt)
    call (start_image handle) (fw.start_image handle)

  unfoldable pub boot_efi_app : ℕ → Drive → Text → Run (Unit {0})
  boot_efi_app fuel drive path_str = do
    volume_dp ← lift drive.device_path
    dp_data ← lift (device_path fuel volume_dp path_str)
    lift drive.file_system
    lift drive.open_volume
    let path = trim_start_matches b'\\' path_str
    guard (drive.to_ucs2 path) invalid_parameter
    file ← lift (drive.open_file path)
    lift (as_regular file)
    size ← lift (drive.file_size path)
    lift (allocate size)
    code_buf ← lift (drive.read path size)
    lift (validate_kernel_pe fw.arch code_buf)
    handle ← call (load_image code_buf (some dp_data)) (fw.load_image code_buf (some dp_data))
    call (start_image handle) (fw.start_image handle)
