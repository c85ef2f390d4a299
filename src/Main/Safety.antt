-- ===== src/Main/Safety.antt =====
-- src/main.rs and src/boot/mod.rs: what the whole program asks of the firmware.
use rignite.Common.{ℕ, Option, none, some, List, [], ◌∷◌, Bool, true, false, if◌then◌else◌}
use rignite.Common.Text.{Text}
use rignite.Boot.Run.{Event, Run, ResetType, cold, power_off}
use rignite.Boot.Checked.{
  attempt-IsOrdered, boot_linux_from_drive-IsOrdered, boot_efi_app-IsOrdered,
}
use rignite.Boot.Order.{
  IsOrdered, IsOrdered-lift, IsOrdered-call, IsOrdered-unit, IsOrdered-result, IsOrdered-bind,
}
use rignite.Menu.State.{UiAction, boot_linux, chainload}
use rignite.Menu.Keys.{Ui, Key, Step, stay, leave}
use rignite.Main.Loop.{
  Machine, find_default, restart, execute, main_loop, open_first, auto_boot, efi_main, is_default,
}

module _ (machine : Machine) (handles : List ℕ) (params : Option Text) where
  abbrev Ordered : {A : Type 0} → List Event → Run A → Type 0
  Ordered seen r = IsOrdered machine.boot seen r

  restart-Ordered :
      (seen : List Event) (kind : ResetType) → Ordered seen (restart machine handles params kind)
  unfolding restart
  restart-Ordered seen kind =
      IsOrdered-call machine.boot seen _ _ _ tt (λ u e. IsOrdered-result machine.boot _ _)

  execute-Ordered :
      (seen : List Event) (action : UiAction) → Ordered seen (execute machine handles params action)
  unfolding execute
  execute-Ordered seen (boot_linux h cmdline) =
      IsOrdered-unit machine.boot seen _ _
        (attempt-IsOrdered machine.boot seen _
          (boot_linux_from_drive-IsOrdered machine.boot _ _ _ seen cmdline))
        (λ seen'. IsOrdered-result machine.boot seen' _)
  execute-Ordered seen (chainload h path) =
      IsOrdered-unit machine.boot seen _ _
        (attempt-IsOrdered machine.boot seen _
          (boot_efi_app-IsOrdered machine.boot machine.menu.to_lowercase _ _ seen path))
        (λ seen'. IsOrdered-result machine.boot seen' _)
  execute-Ordered seen UiAction.firmware_settings =
      IsOrdered-call machine.boot seen _ _ _ tt (λ u e. restart-Ordered _ cold)
  execute-Ordered seen UiAction.reboot = restart-Ordered seen cold
  execute-Ordered seen UiAction.shutdown = restart-Ordered seen power_off

  pick :
      {A : Type 0} (seen : List Event) (b : Bool) (x y : Run A)
      → Ordered seen x
      → Ordered seen y
      → Ordered seen (if b then x else y)
  pick seen true x y p q = p
  pick seen false x y p q = q

  by_step :
      (seen : List Event) (step : Step) (f : Ui → Run (Unit {0})) (g : UiAction → Run (Unit {0}))
      → ((ui : Ui) → Ordered seen (f ui))
      → ((action : UiAction) → Ordered seen (g action))
      → Ordered seen (elim step [ stay ui ↦ f ui | leave action ↦ g action ])
  by_step seen (stay ui) f g a b = a ui
  by_step seen (leave action) f g a b = b action

  main_loop-Ordered :
      (keys : List Key) (seen : List Event) (ui : Ui)
      → Ordered seen (main_loop machine handles params keys ui)
  unfolding main_loop
  main_loop-Ordered [] seen ui = IsOrdered-result machine.boot seen _
  main_loop-Ordered (key ∷ keys) seen ui = IsOrdered-lift machine.boot seen _ _ (λ step e.
      by_step seen step _ _ (λ ui'. main_loop-Ordered keys seen ui')
        (λ action.
          IsOrdered-bind machine.boot seen _ _ (execute-Ordered seen action) (λ seen' goes_on.
            pick seen' goes_on _ _ (main_loop-Ordered keys seen' _)
              (IsOrdered-result machine.boot seen' _))))

  open_first-Ordered :
      (keys : List Key) (seen : List Event) → Ordered seen (open_first machine handles params keys)
  unfolding open_first
  open_first-Ordered keys seen = IsOrdered-lift machine.boot seen _ _ (λ step e.
      by_step seen step _ _ (λ ui. main_loop-Ordered keys seen ui)
        (λ action. IsOrdered-result machine.boot seen _))

  find_default-Ordered :
      (hs : List ℕ) (seen : List Event) → Ordered seen (find_default machine handles params hs)
  unfolding find_default
  find_default-Ordered [] seen = IsOrdered-result machine.boot seen _
  find_default-Ordered (h ∷ hs) seen = IsOrdered-lift machine.boot seen _ _ (λ label e.
      pick seen (is_default label) _ _ (IsOrdered-result machine.boot seen _)
        (find_default-Ordered hs seen))

  auto_boot-Ordered :
      (seen : List Event) (enter_menu : Bool) (o : Option ℕ)
      → Ordered seen (auto_boot machine handles params enter_menu o)
  unfolding auto_boot
  auto_boot-Ordered seen enter_menu none = IsOrdered-result machine.boot seen _
  auto_boot-Ordered seen true (some h) = IsOrdered-result machine.boot seen _
  auto_boot-Ordered seen false (some h) =
      attempt-IsOrdered machine.boot seen _
        (boot_linux_from_drive-IsOrdered machine.boot _ _ _ seen params)

  -- Whatever the drives hold, the firmware answers and the keys are, from the start of the program
  -- through any number of boots that fail: an image is loaded only if `validate_kernel_pe` accepts
  -- its bytes, and load options are set for, and a start asked of, only a handle that the firmware
  -- gave for an image loaded before.
  pub efi_main-IsOrdered :
      (frames : ℕ → List Key) (keys : List Key)
      → IsOrdered machine.boot [] (efi_main machine handles params frames keys)
  unfolding efi_main
  efi_main-IsOrdered frames keys =
      IsOrdered-bind machine.boot [] _ _ (find_default-Ordered handles []) (λ seen default.
        IsOrdered-lift machine.boot seen _ _ (λ enter_menu e.
          IsOrdered-unit machine.boot seen _ _ (auto_boot-Ordered seen enter_menu default)
            (λ seen'. open_first-Ordered keys seen')))
