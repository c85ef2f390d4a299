-- ===== src/Menu/Wrap.antt =====
-- src/main.rs: moving through the menu wraps around at both ends.
use rignite.Common.{ℕ, ◌+◌, ◌-◌, ◌%◌, ◌<◌, ◌≡◌, ok, ◌==◌, if◌then◌else◌, arith}
use rignite.Menu.Keys.{next_index, prev_index}

-- From the index of an item, the index behind it is that of an item, and going back from there
-- comes to the first again; and the same the other way round.
pub next_prev :
    (i count : ℕ)
    → i < count
    → ((j : ℕ) × (next_index i count ≡ ok j) × (j < count) × (prev_index j count ≡ ok i))
      × ((k : ℕ) × (prev_index i count ≡ ok k) × (k < count) × (next_index k count ≡ ok i))
unfolding next_index prev_index
next_prev i count h = (
  ((i + 1) % count, ground arith, grind arith, grind arith),
  ((if i == 0 then count - 1 else i - 1), ground arith, ground arith, grind arith),
)
