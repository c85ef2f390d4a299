-- ===== src/Common/Bytes.antt =====
-- Byte strings: slices with Rust's bounds check, and little-endian numbers.
use rignite.Common.Tests.{leb, le→leb, if◌then◌else◌}
use rignite.Common.Lists.{length, take, drop, drop-drop}
use rignite.Common.Outcome.{Result, ok, fault, panic}
use Prim.Native.Nat.{ℕ, zero, suc, ◌+◌, ◌-◌, ◌*◌, ◌/◌, ◌%◌, ◌^◌, ◌≤◌, ◌<◌}
use mathlib.Core.Path.{◌≡◌, refl}
use mathlib.Core.Bool.{◌&&◌}
use mathlib.Core.List.{List, [], ◌∷◌}
use native.Mathlib.Omega.{arith}
use native.Mathlib.Nat.{pow-suc}

abbrev pub IsByte : ℕ → Type 0
IsByte b = b < 256

-- `l[a..b]`, which panics out of bounds.
unfoldable pub slice {ℓ} : {E : Type 0} {A : Type ℓ} → List A → ℕ → ℕ → Result E (List A)
slice l a b = if leb a b && leb b (length l) then ok (take (b - a) (drop a l)) else fault panic

pub slice_ok {ℓ} :
    {E : Type 0} {A : Type ℓ} (l : List A) (a b : ℕ)
    → a ≤ b
    → b ≤ length l
    → slice {E = E} l a b ≡ ok (take (b - a) (drop a l))
unfolding slice
slice_ok l a b h k = rw (le→leb a b h, le→leb b (length l) k)

-- uN::from_le_bytes, and its inverse at `k` bytes.
unfoldable pub from_le_bytes : List ℕ → ℕ
from_le_bytes [] = 0
from_le_bytes (b ∷ bs) = b + 256 * from_le_bytes bs

unfoldable pub to_le_bytes : ℕ → ℕ → List ℕ
to_le_bytes zero v = []
to_le_bytes (suc k) v = v % 256 ∷ to_le_bytes k (v / 256)

pub length-to_le_bytes : (k v : ℕ) → length (to_le_bytes k v) ≡ k
unfolding to_le_bytes
length-to_le_bytes zero v = refl
length-to_le_bytes (suc k) v = omega (arith, length-to_le_bytes k (v / 256))

pub from_le_bytes-to_le_bytes : (k v : ℕ) → v < 256 ^ k → from_le_bytes (to_le_bytes k v) ≡ v
unfolding from_le_bytes to_le_bytes
from_le_bytes-to_le_bytes zero v h = omega arith
from_le_bytes-to_le_bytes (suc k) v h =
    omega (arith, from_le_bytes-to_le_bytes k (v / 256) (omega (arith, rw pow-suc at h)))

-- A slice in terms of what follows the offset `o`.
pub slice_within {ℓ} :
    {E : Type 0} {A : Type ℓ} (l : List A) (o a b k n : ℕ)
    → o + k ≡ a
    → a + n ≡ b
    → b ≤ length l
    → slice {E = E} l a b ≡ ok (take n (drop k (drop o l)))
slice_within l o a b k n e f h =
    let g : b - a ≡ n = omega arith in rw (slice_ok l a b (omega arith) h, drop-drop o k l, e, g)
