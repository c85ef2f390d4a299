-- ===== src/Boot/Examples.antt =====
-- The theorems on src/boot/mod.rs at concrete inputs.
use rignite.Common.{
  true, ℕ, ◌<◌, ◌^◌, ◌++◌, All, refl, ◌≡◌, none, some, List, [], ◌∷◌, ◌⊎◌, ok, err, arith,
}
use rignite.Common.Text.{Text, codes, replace, starts_with, encode_utf16}
use rignite.Btrfs.Layout.{M, device_error, not_found, invalid_parameter}
use rignite.Boot.Kernel.{Arch, validate_kernel_pe}
use rignite.Boot.Accepts.{Accepts, validate_kernel_pe_lem}
use rignite.Boot.Run.{Run, lift}
use rignite.Boot.Initrd.{
  success, buffer_too_small, Caller, load_file2_initrd, two_calls, IsAnswered,
  failed_call_writes_nothing,
}
use rignite.Boot.Scan.{Listing, end, file, dir, Found, try_boot_fat_fallback}
use rignite.Boot.DevicePath.{end_node, file_node, device_path, node_size}
use rignite.Boot.NodeList.{IsNode, flat, device_path_lem}
use rignite.Boot.Image.{Drive, Firmware, regular}
use rignite.Boot.Linux.{boot_linux_from_drive}
use rignite.Boot.Started.{IsStarted, boot_linux_from_drive-IsStarted}
use rignite.Boot.Target.{IsApp, fallback_lem}

abbrev short_image : List ℕ
short_image = 0x4d ∷ 0x5a ∷ []

validate_kernel_pe_lem_example :
    ((validate_kernel_pe Arch.x86_64 short_image ≡ ok tt) × Accepts Arch.x86_64 short_image)
    ⊎ ((validate_kernel_pe Arch.x86_64 short_image ≡ err rignite.Btrfs.Layout.invalid_parameter)
        × ¬ Accepts Arch.x86_64 short_image)
validate_kernel_pe_lem_example = validate_kernel_pe_lem Arch.x86_64 short_image

abbrev initrd : List ℕ
initrd = 1 ∷ 2 ∷ []

abbrev kernel_buffer : List ℕ
kernel_buffer = 7 ∷ 7 ∷ 7 ∷ []

two_calls_example :
    let first = load_file2_initrd (some initrd) (record { buffer_size = some 0; buffer = none }) in
    let second =
      load_file2_initrd
        (some initrd)
        (record { buffer_size = some 3; buffer = some kernel_buffer }) in
    (first.0 ≡ buffer_too_small)
    × (first.1.buffer_size ≡ some 2)
    × (second.0 ≡ success)
    × (second.1.buffer_size ≡ some 2)
    × (second.1.buffer ≡ some (1 ∷ 2 ∷ 7 ∷ []))
two_calls_example = two_calls initrd kernel_buffer 0 (omega arith)

abbrev small_buffer : Caller
small_buffer = record { buffer_size = some 1; buffer = some (9 ∷ []) }

failed_call_writes_nothing_example :
    IsAnswered (some initrd) small_buffer (load_file2_initrd (some initrd) small_buffer)
failed_call_writes_nothing_example = failed_call_writes_nothing (some initrd) small_buffer

-- A volume with `/EFI/boot.efi`, on names that are in lower case already.
abbrev one_app : Listing
one_app = dir (codes "EFI") (file (codes "boot.efi") end) end

abbrev nothing_found : Found
nothing_found = record { apps = []; quibble = none }

abbrev same_text : Text → Text
same_text t = t

abbrev refuse : Text → Run (Unit {0})
refuse path = lift (err device_error)

fallback_lem_example :
    let answer = try_boot_fat_fallback same_text refuse true (ok one_app) in
    (((path : Text) → ¬ IsApp same_text one_app [] path) × (answer ≡ lift (err not_found)))
    ⊎ ((target : Text) × (answer ≡ refuse target) × IsApp same_text one_app [] target)
fallback_lem_example = fallback_lem same_text refuse one_app

-- A volume whose path is one node of 6 bytes.
abbrev one_node : List ℕ
one_node = 1 ∷ 1 ∷ 6 ∷ 0 ∷ 5 ∷ 5 ∷ []

one_node-IsNode : IsNode one_node
one_node-IsNode = record {
  type_ = 1;
  subtype = 1;
  lo = 6;
  hi = 0;
  body = 5 ∷ 5 ∷ [];
  bytes = refl;
  size = refl;
  goes_on = refl;
}

abbrev boot_path : Text
boot_path = codes "/a.efi"

short_path : node_size boot_path < 2 ^ 16
unfolding replace starts_with encode_utf16
short_path = omega arith

device_path_lem_example :
    (device_path 2 (flat (one_node ∷ []) ++ (0x7f ∷ 0xff ∷ 4 ∷ 0 ∷ [])) boot_path
      ≡ ok (flat (one_node ∷ [] ++ (file_node boot_path ∷ [])) ++ end_node))
    × All IsNode (one_node ∷ [] ++ (file_node boot_path ∷ []))
device_path_lem_example =
    device_path_lem 2 (one_node ∷ []) (4 ∷ 0 ∷ []) boot_path (one_node-IsNode, tt) (omega arith)
      short_path

-- A firmware that loads and starts anything, and a drive without blocks but with an application.
abbrev willing : Firmware
willing = record {
  arch = Arch.x86_64;
  install_device_path = λ d. ok 1;
  install_load_file2 = λ h. ok tt;
  load_image = λ d p. ok 2;
  open_loaded_image = λ h. ok tt;
  start_image = λ h. ok tt;
}

abbrev app_drive : Drive
app_drive = record {
  block_io = none;
  device_path = ok (flat (one_node ∷ []) ++ (0x7f ∷ 0xff ∷ 4 ∷ 0 ∷ []));
  file_system = ok tt;
  open_volume = ok one_app;
  to_ucs2 = λ t. true;
  open_file = λ t. ok regular;
  file_size = λ t. ok 2;
  read = λ t n. ok short_image;
}

boot_linux_from_drive-IsStarted_example :
    IsStarted willing (boot_linux_from_drive willing same_text 2 app_drive none)
boot_linux_from_drive-IsStarted_example =
    boot_linux_from_drive-IsStarted willing same_text 2 app_drive none
