-- ===== src/Btrfs/Assemble.antt =====
-- src/fs/btrfs.rs: what `read_file` makes of the fragments that it collected.
use rignite.Common.{
  ℕ, ◌+◌, ◌-◌, ◌^◌, ◌≤◌, ◌<◌, ◌≡◌, ◌⊎◌, inl, inr, refl, sym, ◌∙◌, some, List, [], ◌∷◌, ok, arith,
  leb, le→leb, lt→ltb, ==_refl, length, replicate, All, Bool-cases, get_elem?, length-replicate,
}
use rignite.Common.Index.{
  overwrite, length-overwrite, get_elem?-overwrite_in, get_elem?-overwrite_out, get_elem?-replicate,
}
use rignite.Btrfs.File.{
  Frag, insert_frag, sort_frags, frag_end, total_size, copy_into, place_all, assemble,
}

abbrev pub stop : Frag → ℕ
stop f = f.0 + length f.1

abbrev pub IsShort : Frag → Type 0
IsShort f = stop f < 2 ^ 63

-- Two fragments share no position of the file.
abbrev pub Apart : Frag → Frag → Type 0
Apart f g = (stop f ≤ g.0) ⊎ (stop g ≤ f.0)

abbrev pub Disjoint : List Frag → Type 0
Disjoint [] = Unit
Disjoint (f ∷ fs) = All (Apart f) fs × Disjoint fs

abbrev pub Outside : ℕ → Frag → Type 0
Outside i f = (i < f.0) ⊎ (stop f ≤ i)

-- The bytes of a fragment stand at its offset.
abbrev pub Placed : List ℕ → Frag → Type 0
Placed out f = (j : ℕ) → j < length f.1 → get_elem? out (f.0 + j) ≡ get_elem? f.1 j

module _ (P : Frag → Type 0) where
  All-insert : (f : Frag) (fs : List Frag) → P f → All P fs → All P (insert_frag f fs)
  unfolding insert_frag
  All-insert f [] h hs = (h, tt)
  All-insert f (g ∷ gs) h (k, ks) = elim (Bool-cases (leb f.0 g.0)) [
    | inl e ↦ rw e (h, (k, ks))
    | inr e ↦ rw e (k, All-insert f gs h ks)
  ]

  All-sort : (fs : List Frag) → All P fs → All P (sort_frags fs)
  unfolding sort_frags
  All-sort [] h = tt
  All-sort (f ∷ fs) (h, hs) = All-insert f (sort_frags fs) h (All-sort fs hs)

  insert-All : (f : Frag) (fs : List Frag) → All P (insert_frag f fs) → P f × All P fs
  unfolding insert_frag
  insert-All f [] (h, hs) = (h, tt)
  insert-All f (g ∷ gs) h = elim (Bool-cases (leb f.0 g.0)) [
    | inl e ↦ rw e at h
    | inr e ↦
        let h' : P g × All P (insert_frag f gs) = rw e at h in
        let (p, ps) = insert-All f gs h'.1 in (p, (h'.0, ps))
  ]

  sort-All : (fs : List Frag) → All P (sort_frags fs) → All P fs
  unfolding sort_frags
  sort-All [] h = tt
  sort-All (f ∷ fs) h = let (p, ps) = insert-All f (sort_frags fs) h in (p, sort-All fs ps)

Apart-sym : (f g : Frag) → Apart f g → Apart g f
Apart-sym f g (inl h) = inr h
Apart-sym f g (inr h) = inl h

Disjoint-insert :
    (f : Frag) (fs : List Frag) → All (Apart f) fs → Disjoint fs → Disjoint (insert_frag f fs)
unfolding insert_frag
Disjoint-insert f [] h d = (tt, tt)
Disjoint-insert f (g ∷ gs) (h, hs) (d, ds) = elim (Bool-cases (leb f.0 g.0)) [
  | inl e ↦ rw e ((h, hs), (d, ds))
  | inr e ↦ rw e (All-insert (Apart g) f gs (Apart-sym f g h) d, Disjoint-insert f gs hs ds)
]

Disjoint-sort : (fs : List Frag) → Disjoint fs → Disjoint (sort_frags fs)
unfolding sort_frags
Disjoint-sort [] d = tt
Disjoint-sort (f ∷ fs) (d, ds) =
    Disjoint-insert f (sort_frags fs) (All-sort (Apart f) fs d) (Disjoint-sort fs ds)

copy_into_lem :
    (out : List ℕ) (f : Frag)
    → IsShort f
    → stop f ≤ length out
    → copy_into out f ≡ ok (overwrite out f.0 f.1)
unfolding copy_into
copy_into_lem out f s h =
    let e : frag_end f ≡ stop f = omega arith in
    let n : stop f - f.0 ≡ length f.1 = omega arith in
    rw (
      e,
      n,
      le→leb f.0 (stop f) (omega arith),
      le→leb (stop f) (length out) h,
      ==_refl (length f.1),
    )

Outside-of_Apart :
    (f : Frag) (fs : List Frag) (j : ℕ)
    → j < length f.1
    → All (Apart f) fs
    → All (Outside (f.0 + j)) fs
Outside-of_Apart f [] j h a = tt
Outside-of_Apart f (g ∷ gs) j h (inl a, as') = (inl (omega arith), Outside-of_Apart f gs j h as')
Outside-of_Apart f (g ∷ gs) j h (inr a, as') = (inr (omega arith), Outside-of_Apart f gs j h as')

fits_after :
    (n m : ℕ) (fs : List Frag)
    → n ≡ m
    → All (λ (f : Frag). stop f ≤ n) fs
    → All (λ (f : Frag). stop f ≤ m) fs
fits_after n m [] e h = tt
fits_after n m (f ∷ fs) e (h, hs) = (omega arith, fits_after n m fs e hs)

place_all_lem :
    (fs : List Frag) (out : List ℕ)
    → All IsShort fs
    → All (λ (f : Frag). stop f ≤ length out) fs
    → Disjoint fs
    → (out' : List ℕ) × (place_all fs out ≡ ok out')
      × (length out' ≡ length out)
      × All (Placed out') fs
      × ((i : ℕ) → All (Outside i) fs → get_elem? out' i ≡ get_elem? out i)
unfolding place_all
place_all_lem [] out s h d = (out, refl, refl, tt, λ i a. refl)
place_all_lem (f ∷ fs) out (s, ss) (h, hs) (d, ds) =
    let l : length (overwrite out f.0 f.1) ≡ length out = length-overwrite out f.0 f.1 h in
    let (out', e, n, p, q) =
      place_all_lem fs (overwrite out f.0 f.1) ss (fits_after _ _ fs (sym l) hs) ds in
    (
      out',
      rw (copy_into_lem out f s h) e,
      n ∙ l,
      (
        λ j k. q (f.0 + j) (Outside-of_Apart f fs j k d) ∙ get_elem?-overwrite_in out f.0 f.1 h j k,
        p,
      ),
      λ i a. q i a.1 ∙ get_elem?-overwrite_out out f.0 f.1 h i a.0,
    )

max_parts :
    (f : Frag) (fs : List Frag) (n : ℕ)
    → IsShort f
    → total_size (f ∷ fs) ≤ n
    → (stop f ≤ n) × (total_size fs ≤ n)
unfolding total_size
max_parts f fs n s h = (ground arith, ground arith)

total_size-bounds :
    (fs : List Frag) (n : ℕ)
    → All IsShort fs
    → total_size fs ≤ n
    → All (λ (f : Frag). stop f ≤ n) fs
total_size-bounds [] n s h = tt
total_size-bounds (f ∷ fs) n (s, ss) h =
    let (a, b) = max_parts f fs n s h in (a, total_size-bounds fs n ss b)

total_size-le :
    (n : ℕ) (fs : List Frag)
    → All IsShort fs
    → All (λ (f : Frag). stop f ≤ n) fs
    → total_size fs ≤ n
unfolding total_size
total_size-le n [] s h = omega arith
total_size-le n (f ∷ fs) (s, ss) (h, hs) = ground (arith, total_size-le n fs ss hs)

short-bound : (fs : List Frag) → All IsShort fs → All (λ (f : Frag). stop f ≤ 2 ^ 63 - 1) fs
short-bound [] h = tt
short-bound (f ∷ fs) (h, hs) = (omega arith, short-bound fs hs)

-- From at least one fragment, none of which overlap or pass 2^63, the file is rebuilt without a
-- fault, in whatever order the extents were found: each fragment's bytes stand at its offset, a
-- position that no fragment covers holds 0, and the length is the least that holds every fragment.
pub assemble_lem :
    (f : Frag) (fs : List Frag)
    → All IsShort (f ∷ fs)
    → Disjoint (f ∷ fs)
    → (out : List ℕ) × (assemble (f ∷ fs) ≡ ok out)
      × All (Placed out) (f ∷ fs)
      × ((i : ℕ) → i < length out → All (Outside i) (f ∷ fs) → get_elem? out i ≡ some 0)
      × ((n : ℕ) → All (λ (g : Frag). stop g ≤ n) (f ∷ fs) → length out ≤ n)
unfolding assemble
assemble_lem f fs s d =
    let l : List Frag = sort_frags (f ∷ fs) in
    let n : ℕ = total_size l in
    let zeros : length (replicate {A = ℕ} n 0) ≡ n = length-replicate n 0 in
    let sl : All IsShort l = All-sort IsShort (f ∷ fs) s in
    let (out, e, len, p, q) =
      place_all_lem l (replicate n 0) sl (total_size-bounds l _ sl (omega (arith, zeros)))
        (Disjoint-sort (f ∷ fs) d) in
    let short : n ≤ 2 ^ 63 - 1 =
      total_size-le _ l sl (All-sort _ (f ∷ fs) (short-bound (f ∷ fs) s)) in
    (
      out,
      rw (lt→ltb n (2 ^ 63) (omega (arith, short))) e,
      sort-All (Placed out) (f ∷ fs) p,
      (λ i h a.
          q i (All-sort (Outside i) (f ∷ fs) a)
          ∙ get_elem?-replicate n 0 i (omega (arith, len, zeros))),
      λ m h. omega (
        arith,
        len,
        zeros,
        total_size-le m l sl (All-sort (λ (g : Frag). stop g ≤ m) (f ∷ fs) h),
      ),
    )
