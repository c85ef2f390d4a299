-- ===== src/Main/Loop.antt =====
-- src/main.rs: `efi_main` after its initialisation: the default drive, the decision of the splash
-- screen, and the loop of the menu with what its actions do. Drawing is left out.
use rignite.Common.{
  ℕ, Option, none, some, List, [], ◌∷◌, Bool, true, false, ok, fault, out_of_fuel, bytes_eq,
  if◌then◌else◌,
}
use rignite.Common.Text.{Text, codes}
use rignite.Btrfs.Layout.{M}
use rignite.Boot.Run.{
  Run, lift, call, attempt, ◌>>=◌, ◌>>◌, ResetType, cold, power_off, set_os_indications, reset,
}
use rignite.Boot.Image
use rignite.Boot.Image.{boot_efi_app}
use rignite.Boot.Linux.{boot_linux_from_drive}
use rignite.Menu.State.{UiAction, Firmware, Drive, probe, boot_linux, chainload}
use rignite.Menu.Keys.{Ui, Key, stay, leave, press}
use rignite.Menu.Splash.{start, splash_loop}
use rignite.Menu.Session.{first_menu}

-- What the menu asks the firmware, what a boot asks it, the drive behind each handle, and the
-- rounds that the loops of a boot may take.
pub record Machine : Type 0 where
  pub menu : Firmware
  pub boot : Image.Firmware
  pub drive : ℕ → Image.Drive
  pub fuel : ℕ

abbrev pub is_default : Option Text → Bool
is_default none = false
is_default (some label) = bytes_eq label (codes "RunixOS")

module _ (machine : Machine) (handles : List ℕ) (params : Option Text) where
  abbrev pub probe_some : Option Drive → M (Option Text)
  probe_some none = ok none
  probe_some (some d) = probe machine.menu d

  -- `runixos_handle`: the first handle whose Btrfs has the label, after which the others are not
  -- opened.
  unfoldable pub find_default : List ℕ → Run (Option ℕ)
  unfolding probe
  find_default [] = lift (ok none)
  find_default (h ∷ hs) = do
    let rest = find_default hs
    label ← lift (probe_some (machine.menu.block_io h))
    if is_default label then lift (ok (some h)) else rest

  unfoldable pub restart : ResetType → Run Bool
  restart kind = do call (reset kind) (ok tt); lift (ok false)

  -- What an action does, and whether the loop goes on after it.
  unfoldable pub execute : UiAction → Run Bool
  unfolding restart
  execute (boot_linux h cmdline) = do
    attempt (
        boot_linux_from_drive machine.boot machine.menu.to_lowercase machine.fuel (machine.drive h)
          cmdline)
    lift (ok true)
  execute (chainload h path) = do
    attempt (boot_efi_app machine.boot machine.fuel (machine.drive h) path)
    lift (ok true)
  execute UiAction.firmware_settings = do call (set_os_indications 1) (ok tt); restart cold
  execute UiAction.reboot = restart cold
  execute UiAction.shutdown = restart power_off

  -- The loop over the keys that arrive. After an action, the menu comes up again as it was.
  unfoldable pub main_loop : List Key → Ui → Run (Unit {0})
  unfolding press execute
  main_loop [] ui = lift (ok tt)
  main_loop (key ∷ keys) ui = do
    step ← lift (press machine.menu handles params ui key)
    elim step [
      | stay ui' ↦ main_loop keys ui'
      | leave action ↦ do
        let again = main_loop keys (record ui { redraw = true })
        goes_on ← execute action
        if goes_on then again else lift (ok tt)
    ]

  unfoldable pub open_first : List Key → Run (Unit {0})
  unfolding first_menu main_loop
  open_first keys = do
    step ← lift (first_menu machine.menu handles params)
    elim step [ stay ui ↦ main_loop keys ui | leave action ↦ lift (ok tt) ]

  -- The auto-boot, unless the splash screen was left for the menu or there is no default drive.
  unfoldable pub auto_boot : Bool → Option ℕ → Run (Unit {0})
  auto_boot enter_menu none = lift (ok tt)
  auto_boot enter_menu (some h) =
      if enter_menu
      then lift (ok tt)
      else attempt (
          boot_linux_from_drive machine.boot machine.menu.to_lowercase machine.fuel
            (machine.drive h) params)

  -- `enter_menu`, after at most 422 frames.
  abbrev pub in_time : Option Bool → M Bool
  in_time none = fault out_of_fuel
  in_time (some enter_menu) = ok enter_menu

  -- The keys of each frame of the splash screen, and those of the menu.
  unfoldable pub efi_main : (ℕ → List Key) → List Key → Run (Unit {0})
  unfolding find_default auto_boot open_first
  efi_main frames keys = do
    runixos_handle ← find_default handles
    enter_menu ← lift (in_time (splash_loop 423 frames 0 start))
    auto_boot enter_menu runixos_handle
    open_first keys
