-- ===== src/Btrfs/Key.antt =====
-- src/fs/btrfs.rs: `BtrfsKey` and its order.
use rignite.Common.{ℕ, ◌<◌, ◌≡◌, ◌⊎◌, inl, inr, not, arith, ◌==◌, if◌then◌else◌}
use Prim.Native.Nat.{compare, Ordering}

pub record BtrfsKey : Type 0 where
  pub objectid : ℕ
  pub type_ : ℕ
  pub offset : ℕ

-- `BtrfsKey::new`.
unfoldable pub new : ℕ → ℕ → ℕ → BtrfsKey
new objectid type_ offset = record { objectid = objectid; type_ = type_; offset = offset }

unfoldable pub cmp : BtrfsKey → BtrfsKey → Ordering
cmp s o =
    if not (s.objectid == o.objectid)
    then compare s.objectid o.objectid
    else if not (s.type_ == o.type_)
    then compare s.type_ o.type_
    else compare s.offset o.offset

-- The order of the B-tree, by the three fields in turn.
abbrev pub KeyLt : BtrfsKey → BtrfsKey → Type 0
KeyLt a b =
    (a.objectid < b.objectid)
    ⊎ ((a.objectid ≡ b.objectid) × (a.type_ < b.type_))
    ⊎ ((a.objectid ≡ b.objectid) × (a.type_ ≡ b.type_) × (a.offset < b.offset))

pub KeyLt-trans : (a b c : BtrfsKey) → KeyLt a b → KeyLt b c → KeyLt a c
KeyLt-trans a b c p q = omega arith

pub KeyLt-irrefl : (a : BtrfsKey) → ¬ KeyLt a a
KeyLt-irrefl a p = omega arith

-- `cmp` decides the lexicographic order of (objectid, type, offset), whose three answers exclude
-- one another: `Less` exactly when the first key is before the second, `Equal` exactly when they
-- are the same key, and `Greater` exactly when the second is before the first.
pub cmp_lexicographic :
    (a b : BtrfsKey)
    → ((cmp a b ≡ Ordering.lt) × KeyLt a b)
      ⊎ ((cmp a b ≡ Ordering.eq) × (a ≡ b))
      ⊎ ((cmp a b ≡ Ordering.gt) × KeyLt b a)
unfolding cmp
cmp_lexicographic a b = ground arith

pub lt-of-lt-le : (a p e : BtrfsKey) → KeyLt a p → ¬ KeyLt e p → KeyLt a e
lt-of-lt-le a p e h n = elim (cmp_lexicographic a e) [
  | inl (q, lt) ↦ lt
  | inr (inl (q, same)) ↦ absurd (n (rw same at h))
  | inr (inr (q, gt)) ↦ absurd (n (KeyLt-trans e a p gt h))
]

pub lt-of-le-lt : (e p a : BtrfsKey) → KeyLt e p → ¬ KeyLt a p → KeyLt e a
lt-of-le-lt e p a h n = elim (cmp_lexicographic e a) [
  | inl (q, lt) ↦ lt
  | inr (inl (q, same)) ↦ absurd (n (rw same at h))
  | inr (inr (q, gt)) ↦ absurd (n (KeyLt-trans a e p gt h))
]
