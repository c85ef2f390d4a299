-- ===== src/Boot/Run.antt =====
-- src/boot/mod.rs: runs that call the firmware. A run is the calls that change something, in their
-- order, and the result.
use rignite.Common.{ℕ, Option, List, [], ◌∷◌, ◌++◌, Bool, true, false, ok, err, fault}
use rignite.Btrfs.Layout.{M, Status}

-- What is asked of the firmware: `INITRD_DATA` set, the device path and the `LoadFile2` protocol
-- installed, an image loaded from a buffer with its path, its load options set, and it started; and
-- by the menu: `OsIndications` set, and a reset, which does not return.
pub data ResetType : Type 0 where
  cold power_off : ResetType

pub data Event : Type 0 where
  set_initrd_data : List ℕ → Event
  install_device_path : List ℕ → Event
  install_load_file2 : ℕ → Event
  load_image : List ℕ → Option (List ℕ) → Event
  set_load_options : ℕ → List ℕ → ℕ → Event
  start_image : ℕ → Event
  set_os_indications : ℕ → Event
  reset : ResetType → Event

pub record Run (A : Type 0) : Type 0 where
  pub events : List Event
  pub result : M A

-- The run that goes on after some events.
abbrev pub after : {A : Type 0} → List Event → Run A → Run A
after es r = record { events = es ++ r.events; result = r.result }

abbrev pub chain : {A B : Type 0} → List Event → M A → (A → Run B) → Run B
chain es (ok a) f = after es (f a)
chain es (err e) f = record { events = es; result = err e }
chain es (fault x) f = record { events = es; result = fault x }

infixl 5 ◌>>=◌ ◌>>◌
unfoldable pub ◌>>=◌ : {A B : Type 0} → Run A → (A → Run B) → Run B
r >>= f = chain r.events r.result f

abbrev pub ◌>>◌ : {A B : Type 0} → Run A → Run B → Run B
r >> k = r >>= λ _. k

-- A result without events, and an event with the firmware's answer.
unfoldable pub lift : {A : Type 0} → M A → Run A
lift m = record { events = []; result = m }

unfoldable pub call : {A : Type 0} → Event → M A → Run A
call e m = record { events = e ∷ []; result = m }

unfoldable pub guard : Bool → Status → Run (Unit {0})
guard true e = lift (ok tt)
guard false e = lift (err e)

-- Where an error is logged and dropped.
abbrev pub dropped : M (Unit {0}) → M (Unit {0})
dropped (ok a) = ok tt
dropped (err e) = ok tt
dropped (fault x) = fault x

unfoldable pub attempt : Run (Unit {0}) → Run (Unit {0})
attempt r = record { events = r.events; result = dropped r.result }
