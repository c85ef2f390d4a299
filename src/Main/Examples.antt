-- ===== src/Main/Examples.antt =====
-- The theorems on src/main.rs and its calls of src/boot/mod.rs at a machine with two devices.
use rignite.Common.{
  ℕ, zero, suc, ◌≡◌, refl, none, some, List, [], ◌∷◌, ◌++◌, true, false, ok, err, replicate,
  bytes_eq,
}
use rignite.Common.Text.{codes}
use rignite.Btrfs.Layout.{device_error, not_found, btrfs_signature, peek}
use rignite.Btrfs.Volume.{BlockIo, read_logical}
use rignite.Btrfs.Decode.{decode_super_block}
use rignite.Common.Bytes.{from_le_bytes}
use rignite.Btrfs.Mount
use rignite.Boot.Kernel.{Arch}
use rignite.Boot.Run.{attempt, ◌>>◌}
use rignite.Boot.Order.{IsOrdered}
use rignite.Boot.Image
use rignite.Boot.Linux.{boot_linux_from_drive}
use rignite.Menu.State.{Firmware, Drive, probe}
use rignite.Menu.Keys.{Key, printable}
use rignite.Main.Loop.{Machine, open_first, efi_main}
use rignite.Main.Safety.{efi_main-IsOrdered}
use rignite.Main.Unattended.{IsLabelled, unattended_lem}

-- A device that fails to read, and one whose super block has the label RunixOS.
abbrev broken_io : BlockIo
broken_io = record { block_size = 512; read_blocks = λ lba n. err device_error }

abbrev super_block : List ℕ
super_block =
    replicate 64 0
    ++ (btrfs_signature ++ (replicate 227 0 ++ (codes "RunixOS" ++ replicate 3790 0)))

abbrev runixos_io : BlockIo
runixos_io = record { block_size = 4096; read_blocks = λ lba n. ok super_block }

abbrev drive_of : BlockIo → Drive
drive_of io = record { media_present = true; last_block = 100000; io = io }

abbrev io_of : ℕ → BlockIo
io_of zero = broken_io
io_of (suc h) = runixos_io

abbrev menu_firmware : Firmware
menu_firmware = record {
  block_io = λ h. some (drive_of (io_of h));
  file_system = λ h. false;
  volume = λ h. none;
  to_lowercase = λ t. t;
  from_utf8_lossy = λ t. t;
}

abbrev boot_firmware : Image.Firmware
boot_firmware = record {
  arch = Arch.x86_64;
  install_device_path = λ d. ok 1;
  install_load_file2 = λ h. ok tt;
  load_image = λ d p. ok 2;
  open_loaded_image = λ h. ok tt;
  start_image = λ h. ok tt;
}

abbrev machine : Machine
machine = record {
  menu = menu_firmware;
  boot = boot_firmware;
  drive = λ h. record {
    block_io = some (io_of h);
    device_path = ok (0x7f ∷ 0xff ∷ 4 ∷ 0 ∷ []);
    file_system = err not_found;
    open_volume = err not_found;
    to_ucs2 = λ t. true;
    open_file = λ t. err not_found;
    file_size = λ t. err not_found;
    read = λ t n. err not_found;
  };
  fuel = 4;
}

abbrev no_keys : ℕ → List Key
no_keys t = []

abbrev enter_key : List Key
enter_key = printable b'\r' ∷ []

efi_main-IsOrdered_example :
    IsOrdered boot_firmware [] (efi_main machine (0 ∷ 1 ∷ []) none no_keys enter_key)
efi_main-IsOrdered_example = efi_main-IsOrdered machine (0 ∷ 1 ∷ []) none no_keys enter_key

broken-IsLabelled : IsLabelled machine (0 ∷ 1 ∷ []) none false 0
unfolding probe Mount.new
broken-IsLabelled = (none, refl, refl)

runixos-IsLabelled : IsLabelled machine (0 ∷ 1 ∷ []) none true 1
unfolding probe Mount.new peek bytes_eq decode_super_block from_le_bytes read_logical
    Mount.get_label
runixos-IsLabelled = (some (codes "RunixOS"), refl, refl)

unattended_lem_example : efi_main machine (0 ∷ 1 ∷ []) none no_keys enter_key ≡ (
    attempt (boot_linux_from_drive boot_firmware (λ t. t) 4 (machine.drive 1) none)
    >> open_first machine (0 ∷ 1 ∷ []) none enter_key)
unattended_lem_example =
    unattended_lem machine (0 ∷ 1 ∷ []) none (0 ∷ []) [] 1 no_keys enter_key refl
      (broken-IsLabelled, tt) runixos-IsLabelled (λ n. tt)
