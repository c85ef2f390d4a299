-- ===== src/Main/Unattended.antt =====
-- src/main.rs: a start of the computer at which nobody holds a key.
use rignite.Common.{
  ℕ, ◌≡◌, refl, ap, ◌∙◌, Option, some, List, [], ◌∷◌, ◌++◌, Bool, true, false, ok, All,
}
use rignite.Common.Text.{Text}
use rignite.Boot.Run.{lift, attempt, ◌>>=◌, ◌>>◌}
use rignite.Boot.Linux.{boot_linux_from_drive}
use rignite.Menu.Keys.{Key}
use rignite.Menu.Patience.{NoUp, NoUp-boots}
use rignite.Main.Loop.{
  Machine, find_default, probe_some, is_default, open_first, auto_boot, efi_main,
}

module _ (machine : Machine) (handles : List ℕ) (params : Option Text) where
  -- Whether the device of a handle is read without a fault and has the label.
  abbrev pub IsLabelled : Bool → ℕ → Type 0
  IsLabelled b h =
      (label : Option Text) × (probe_some machine handles params (machine.menu.block_io h)
        ≡ ok label)
      × (is_default label ≡ b)

  -- The first handle with the label.
  find_default_lem :
      (before later : List ℕ) (h : ℕ)
      → All (IsLabelled false) before
      → IsLabelled true h
      → find_default machine handles params (before ++ (h ∷ later)) ≡ lift (ok (some h))
  unfolding find_default ◌>>=◌ lift
  find_default_lem [] later h a (label, e, d) = rw (e, d) refl
  find_default_lem (b ∷ before) later h ((label, e, d), a) l =
      rw (e, d) (find_default_lem before later h a l)

  -- If no frame of the splash screen has the Up key, and the handles before the one of `h` are read
  -- without a fault and have no Btrfs with the label RunixOS, but `h` has, then the program boots
  -- the drive of `h` with the configured parameters before anything else, and opens the menu if that
  -- boot comes back.
  pub unattended_lem :
      (before later : List ℕ) (h : ℕ) (frames : ℕ → List Key) (keys : List Key)
      → handles ≡ before ++ (h ∷ later)
      → All (IsLabelled false) before
      → IsLabelled true h
      → ((n : ℕ) → NoUp (frames n))
      → efi_main machine handles params frames keys ≡ (
          attempt (
            boot_linux_from_drive machine.boot machine.menu.to_lowercase machine.fuel
              (machine.drive h)
              params)
          >> open_first machine handles params keys)
  unfolding efi_main auto_boot ◌>>=◌ lift
  unattended_lem before later h frames keys e a l n =
      let found : find_default machine handles params handles ≡ lift (ok (some h)) =
        ap (find_default machine handles params) e ∙ find_default_lem before later h a l in
      rw (found, NoUp-boots frames n) refl
