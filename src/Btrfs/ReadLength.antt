-- ===== src/Btrfs/ReadLength.antt =====
-- src/fs/btrfs.rs: a `read_logical` that succeeds fills its buffer.
use rignite.Common.{
  ℕ, ◌≡◌, inl, inr, List, ok, err, fault, panic, Option-cases, arith, ◌==◌, if◌then◌else◌, length,
  ◌>>=◌,
}
use rignite.Btrfs.Layout.{M}
use rignite.Btrfs.Volume.{Btrfs, BlockIo, logical_to_physical, read_logical, read_physical}

abbrev Fills : ℕ → M (List ℕ) → Type 0
Fills n m = (node : List ℕ) → m ≡ ok node → length node ≡ n

bind-Fills :
    {A : Type 0} (n : ℕ) (m : M A) (f : A → M (List ℕ))
    → ((a : A) → Fills n (f a))
    → Fills n (m >>= f)
bind-Fills n (ok a) f h = h a
bind-Fills n (err e) f h = λ node q. cc
bind-Fills n (fault x) f h = λ node q. cc

tested-Fills : (n : ℕ) (part : List ℕ) → Fills n (if length part == n then ok part else fault panic)
tested-Fills n part node q = ground arith

read_physical-Fills : (io : BlockIo) (physical n : ℕ) → Fills n (read_physical io physical n n)
unfolding read_physical
read_physical-Fills io physical n = search (bind-Fills, tested-Fills)

-- A read that succeeds fills its buffer.
pub read_logical-length :
    (fs : Btrfs) (logical n : ℕ) (node : List ℕ)
    → read_logical fs logical n n ≡ ok node
    → length node ≡ n
unfolding read_logical
read_logical-length fs logical n node h = elim (Option-cases (logical_to_physical fs logical)) [
  | inl e ↦ ground (arith, (rw (e, read_logical) at h))
  | inr (p, e) ↦ read_physical-Fills fs.block_io p n node (rw (e, read_logical) at h)
]
