-- ===== src/Rbc/Atoms.antt =====
-- The iterator of src/rbc.rs against a description of the atoms as a list, read from the bytes
-- that are left.
use rignite.Common.{
  ℕ, zero, suc, ◌+◌, ◌-◌, ◌≤◌, ◌<◌, ◌≡◌, refl, sym, ap, ◌∙◌, inl, inr, Option, none, some, List, [],
  ◌∷◌, ite, if_pos, if_neg, ok, arith, ltb, ltb-false, lt→ltb, ltb→lt, Bool-cases, if◌then◌else◌,
  length, drop, take, drop-drop, length-drop, length-take,
}
use rignite.Common.Bytes.{slice, slice_within, from_le_bytes}
use rignite.Rbc.Tag.{Tag, tag_from, Tag-discrete, RbcError, header_size}
use rignite.Rbc.View.{ConfigView, Atom, AtomIterator, atoms, next, find_loop, find_atom}

abbrev pub size_field : ℕ → ℕ → ℕ
size_field l m = from_le_bytes (l ∷ m ∷ [])

-- The first atom of a byte string, and what follows it.
unfoldable pub first_atom : List ℕ → Option (Atom × List ℕ)
first_atom (t ∷ u ∷ l ∷ m ∷ rest) =
    if ltb (length rest) (size_field l m)
    then none
    else some (
      record { tag = tag_from (from_le_bytes (t ∷ u ∷ [])); value = take (size_field l m) rest },
      drop (size_field l m) rest,
    )
first_atom _ = none

-- All of them, at most `n`.
unfoldable pub atom_list : ℕ → List ℕ → List Atom
atom_list zero bytes = []
atom_list (suc n) bytes = elim (first_atom bytes) [
  | none ↦ []
  | some (a, rest) ↦ a ∷ atom_list n rest
]

unfoldable pub first_value : Tag → List Atom → Option (List ℕ)
first_value t [] = none
first_value t (a ∷ as') = ite (Tag-discrete a.tag t) (some a.value) (first_value t as')

abbrev after : AtomIterator → Option (Atom × List ℕ) → Option Atom × AtomIterator
after it none = (none, it)
after it (some (a, rest)) = (some a, record it { offset = length it.bytes - length rest })

next_short : (it : AtomIterator) → length it.bytes < it.offset + 4 → next it ≡ ok (none, it)
unfolding next
next_short it h = rw (lt→ltb _ _ h)

module _ (it : AtomIterator) (t u l m : ℕ) (rest : List ℕ)
    (e : drop it.offset it.bytes ≡ t ∷ u ∷ l ∷ m ∷ rest) where
  room : it.offset + 4 + length rest ≡ length it.bytes
  room = omega (arith, ap length e, length-drop it.offset it.bytes)

  tag_slice : slice {E = RbcError} it.bytes it.offset (it.offset + 2) ≡ ok (t ∷ u ∷ [])
  tag_slice =
      slice_within it.bytes it.offset it.offset (it.offset + 2) 0 2 (omega arith) refl
        (omega (arith, room))
      ∙ rw e

  length_slice : slice {E = RbcError} it.bytes (it.offset + 2) (it.offset + 4) ≡ ok (l ∷ m ∷ [])
  length_slice =
      slice_within it.bytes it.offset (it.offset + 2) (it.offset + 4) 2 2 refl (omega arith)
        (omega (arith, room))
      ∙ rw e

  value_slice :
      (n : ℕ)
      → n ≤ length rest
      → slice {E = RbcError} it.bytes (it.offset + 4) (it.offset + 4 + n) ≡ ok (take n rest)
  value_slice n h =
      slice_within it.bytes it.offset (it.offset + 4) (it.offset + 4 + n) 4 n refl refl
        (omega (arith, room))
      ∙ rw e

  next_long : next it ≡ ok (after it (first_atom (t ∷ u ∷ l ∷ m ∷ rest)))
  next_long = elim (Bool-cases (ltb (length rest) (size_field l m))) [
    | inl cut ↦
        unfold next first_atom in
        rw (
          ltb-false (length it.bytes) (it.offset + 4) (omega (arith, room)),
          tag_slice,
          length_slice,
          lt→ltb (length it.bytes) (it.offset + 4 + size_field l m)
              (omega (arith, room, ltb→lt _ _ cut)),
          cut,
        )
    | inr fits ↦
        let n = size_field l m in
        let h : n ≤ length rest = ground arith in
        let o : it.offset + 4 + n ≡ length it.bytes - length (drop n rest) =
          omega (arith, room, length-drop n rest) in
        unfold next first_atom in
        rw
          (
            ltb-false (length it.bytes) (it.offset + 4) (omega (arith, room)),
            tag_slice,
            length_slice,
            ltb-false (length it.bytes) (it.offset + 4 + n) (omega (arith, room)),
            value_slice n h,
            fits,
          )
          (ap
            (λ k. ok (
              some (record { tag = tag_from (from_le_bytes (t ∷ u ∷ [])); value = take n rest }),
              record it { offset = k },
            ))
            o)
  ]

next_at :
    (it : AtomIterator) (d : List ℕ)
    → drop it.offset it.bytes ≡ d
    → next it ≡ ok (after it (first_atom d))
next_at it [] e =
    unfold first_atom in next_short it (omega (arith, ap length e, length-drop it.offset it.bytes))
next_at it (a ∷ []) e =
    unfold first_atom in next_short it (omega (arith, ap length e, length-drop it.offset it.bytes))
next_at it (a ∷ b ∷ []) e =
    unfold first_atom in next_short it (omega (arith, ap length e, length-drop it.offset it.bytes))
next_at it (a ∷ b ∷ c ∷ []) e =
    unfold first_atom in next_short it (omega (arith, ap length e, length-drop it.offset it.bytes))
next_at it (t ∷ u ∷ l ∷ m ∷ rest) e = next_long it t u l m rest e

pub next_lem : (it : AtomIterator) → next it ≡ ok (after it (first_atom (drop it.offset it.bytes)))
next_lem it = next_at it _ refl

pub first_atom_suffix :
    (d : List ℕ) (a : Atom) (rest : List ℕ)
    → first_atom d ≡ some (a, rest)
    → (rest ≡ drop (4 + length a.value) d)
      × (a.value ≡ take (length a.value) (drop 4 d))
      × (4 + length a.value + length rest ≡ length d)
unfolding first_atom
first_atom_suffix [] a rest e = cc
first_atom_suffix (t ∷ []) a rest e = cc
first_atom_suffix (t ∷ u ∷ []) a rest e = cc
first_atom_suffix (t ∷ u ∷ l ∷ []) a rest e = cc
first_atom_suffix (t ∷ u ∷ l ∷ m ∷ r) a rest e =
    elim (Bool-cases (ltb (length r) (size_field l m))) [
      | inl cut ↦ cc (rw cut at e)
      | inr fits ↦
          let n = size_field l m in
          let p : ◌≡◌ {A = Option (Atom × List ℕ)}
              (some (
                record { tag = tag_from (from_le_bytes (t ∷ u ∷ [])); value = take n r },
                drop n r,
              ))
              (some (a, rest)) =
            rw fits at e in
          let v : a.value ≡ take n r = ground (arith, p) in
          let d : rest ≡ drop n r = ground (arith, p) in
          let h : n ≤ length r = ground arith in
          let k : length a.value ≡ n = omega (arith, ap length v, length-take n r, h) in
          (
            d ∙ drop-drop 4 n (t ∷ u ∷ l ∷ m ∷ r) ∙ rw k,
            v ∙ rw k,
            omega (arith, k, ap length d, length-drop n r),
          )
    ]

-- What a call of `next` gives, and the iterator after it.
abbrev pub IsStep : AtomIterator → Option Atom × AtomIterator → Type 0
IsStep it (none, it') = it' ≡ it
IsStep it (some a, it') =
    (it'.bytes ≡ it.bytes)
    × (it.offset + 4 + length a.value ≡ it'.offset)
    × (it'.offset ≤ length it.bytes)
    × (a.value ≡ take (length a.value) (drop (it.offset + 4) it.bytes))

after-IsStep :
    (it : AtomIterator) (o : Option (Atom × List ℕ))
    → first_atom (drop it.offset it.bytes) ≡ o
    → IsStep it (after it o)
after-IsStep it none e = refl
after-IsStep it (some (a, rest)) e =
    let (r, v, s) = first_atom_suffix (drop it.offset it.bytes) a rest e in
    let d = length-drop it.offset it.bytes in
    (refl, omega (arith, s, d), omega (arith, s, d), v ∙ rw (drop-drop it.offset 4 it.bytes))

-- One call of `next` never faults and never fails. It leaves the bytes alone; an item starts at
-- the offset and ends at the new one, inside the bytes, and its value is the bytes behind its
-- four-byte head.
pub next_safe :
    (it : AtomIterator) → (r : Option Atom × AtomIterator) × (next it ≡ ok r) × IsStep it r
next_safe it = (_, next_lem it, after-IsStep it _ refl)

-- The iterator after an item stands before the bytes that follow the item.
drop-after :
    (it : AtomIterator) (a : Atom) (rest : List ℕ)
    → first_atom (drop it.offset it.bytes) ≡ some (a, rest)
    → drop (length it.bytes - length rest) it.bytes ≡ rest
drop-after it a rest e =
    let (r, v, s) = first_atom_suffix (drop it.offset it.bytes) a rest e in
    let o : length it.bytes - length rest ≡ it.offset + (4 + length a.value) =
      omega (arith, s, length-drop it.offset it.bytes) in
    rw o (sym (drop-drop it.offset (4 + length a.value) it.bytes) ∙ sym r)

atom_list-none : (n : ℕ) (d : List ℕ) → first_atom d ≡ none → atom_list (suc n) d ≡ []
unfolding atom_list
atom_list-none n d e = ground (arith, e)

pub atom_list-some :
    (n : ℕ) (d : List ℕ) (a : Atom) (rest : List ℕ)
    → first_atom d ≡ some (a, rest)
    → atom_list (suc n) d ≡ a ∷ atom_list n rest
unfolding atom_list
atom_list-some n d a rest e = ground (arith, e)

find_loop_lem :
    (fuel : ℕ) (it : AtomIterator) (target : Tag)
    → length (drop it.offset it.bytes) < fuel
    → find_loop fuel it target ≡ ok (first_value target (atom_list fuel (drop it.offset it.bytes)))
find_loop_lem zero it target h = absurd (omega arith)
find_loop_lem (suc fuel) it target h =
    go (λ it' h'. find_loop_lem fuel it' target h') (first_atom (drop it.offset it.bytes)) refl
  where
    go :
        ((it' : AtomIterator)
          → length (drop it'.offset it'.bytes) < fuel
          → find_loop fuel it' target
            ≡ ok (first_value target (atom_list fuel (drop it'.offset it'.bytes))))
        → (o : Option (Atom × List ℕ)) → first_atom (drop it.offset it.bytes) ≡ o
        → find_loop (suc fuel) it target
          ≡ ok (first_value target (atom_list (suc fuel) (drop it.offset it.bytes)))
    go ih none e =
        rw (atom_list-none fuel _ e) (unfold find_loop first_value in rw (next_lem it, e))
    go ih (some (a, rest)) e =
        let (r, v, s) = first_atom_suffix (drop it.offset it.bytes) a rest e in
        let it' : AtomIterator = record it { offset = length it.bytes - length rest } in
        let d : drop it'.offset it'.bytes ≡ rest = drop-after it a rest e in
        let found = ih it' (rw d (omega (arith, s))) in
        rw (atom_list-some fuel _ a rest e) (
          unfold find_loop first_value in
          rw (next_lem it, e)
            (elim (Tag-discrete a.tag target) [
              | yes p ↦ rw (if_pos _ p, if_pos _ p)
              | no p ↦ rw (if_neg _ p, if_neg _ p) (found ∙ rw d)
            ]))

-- The atoms of a view, as a list.
abbrev pub view_atoms : ConfigView → List Atom
view_atoms v = atom_list (suc (length v.bytes)) (drop header_size v.bytes)

-- The search for a tag never faults, never fails and ends within its fuel: it returns the value of
-- the first atom with that tag.
pub find_atom_lem :
    (v : ConfigView) (target : Tag) → find_atom v target ≡ ok (first_value target (view_atoms v))
unfolding find_atom atoms
find_atom_lem v target =
    find_loop_lem (suc (length v.bytes)) (record { bytes = v.bytes; offset = header_size }) target
      (omega (arith, length-drop header_size v.bytes))
