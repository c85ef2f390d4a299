-- ===== src/Slots/Boots.antt =====
-- src/abctl.rs: boots one after the other, each from the block that the one before has written.
use rignite.Common.{ℕ, zero, suc, ◌≡◌, none, some, List, [], ◌∷◌}
use rignite.Slots.{BootControl, select_and_begin}

-- What the crate documents of its two conversions: what was written is read back.
abbrev pub ReadsBack : {C Slot : Type 0} → BootControl C Slot → Type 0
ReadsBack {C} crate_ = (bc : C) → crate_.from_bytes (crate_.to_bytes bc) ≡ some bc

module _ {C Slot : Type 0} (crate_ : BootControl C Slot) where
  -- The slots that up to `n` boots take, and the block that is there in the end. A block that
  -- gives no slot is left as it is, and ends the boots.
  abbrev pub boots : ℕ → List ℕ → List Slot × List ℕ
  boots zero block = ([], block)
  boots (suc n) block = elim (select_and_begin crate_ block) [
    | none ↦ ([], block)
    | some d ↦ let (slots, last) = boots n d.updated_block in (d.slot ∷ slots, last)
  ]

  -- The same on the crate's own state, which is never written: a slot is selected and its boot is
  -- accounted for, until no slot is selected.
  abbrev pub account : ℕ → C → List Slot × C
  account zero bc = ([], bc)
  account (suc n) bc = elim (crate_.select bc) [
    | none ↦ ([], bc)
    | some slot ↦ let (slots, last) = account n (crate_.begin_boot bc slot) in (slot ∷ slots, last)
  ]
