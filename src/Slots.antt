-- ===== src/Slots.antt =====
-- src/abctl.rs: the selection of a slot. The crate `runix_bootctl` is an argument.
use rignite.Common.{ℕ, Option, none, some, List}
mod Boots
mod Examples

-- What is used of the crate: `from_bytes`, `select`, `begin_boot` and `to_bytes`.
pub record BootControl (C Slot : Type 0) : Type 0 where
  pub from_bytes : List ℕ → Option C
  pub select : C → Option Slot
  pub begin_boot : C → Slot → C
  pub to_bytes : C → List ℕ

pub record Decision (Slot : Type 0) : Type 0 where
  pub slot : Slot
  pub updated_block : List ℕ

module _ {C Slot : Type 0} (crate_ : BootControl C Slot) where
  abbrev pub begin : C → Option Slot → Option (Decision Slot)
  begin bc none = none
  begin bc (some slot) =
      some (record { slot = slot; updated_block = crate_.to_bytes (crate_.begin_boot bc slot) })

  unfoldable pub select_and_begin : List ℕ → Option (Decision Slot)
  select_and_begin block = elim (crate_.from_bytes block) [
    | none ↦ none
    | some bc ↦ begin bc (crate_.select bc)
  ]
