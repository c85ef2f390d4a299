-- ===== src/Slots/Examples.antt =====
-- The theorem on src/abctl.rs at a block that is a number of tries.
use rignite.Common.{ℕ, ◌-◌, Bool, true, some, none, Option, List, [], ◌∷◌, ltb, if◌then◌else◌}
use rignite.Slots.{BootControl}

abbrev first_byte : List ℕ → Option ℕ
first_byte [] = none
first_byte (t ∷ ts) = some t

-- `true` is a slot on trial, which nothing stands behind: without tries nothing is bootable.
abbrev toy : BootControl ℕ Bool
toy = record {
  from_bytes = first_byte;
  select = λ tries. if ltb 0 tries then some true else none;
  begin_boot = λ tries slot. tries - 1;
  to_bytes = λ tries. tries ∷ [];
}
