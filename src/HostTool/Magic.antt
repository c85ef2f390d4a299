-- ===== src/HostTool/Magic.antt =====
-- src/host_test_tool/src/main.rs: where the magic is found.
use rignite.Common.{
  ℕ, ◌+◌, ◌≡◌, refl, Option, none, some, List, [], ◌∷◌, ◌++◌, Bool, true, false, length,
  if◌then◌else◌, arith,
}
use rignite.Common.Text.{starts_with}
use rignite.HostTool.Transfer.{magic, find_magic}

shape :
    (b : Bool) (o : Option ℕ)
    → (if b then some 0 else elim o [ none ↦ none | some i ↦ some (i + 1) ]) ≡ none
    → (b ≡ false) × (o ≡ none)
shape true o e = cc
shape false none e = (refl, refl)
shape false (some i) e = cc

find_magic-here : (rest : List ℕ) → find_magic (magic ++ rest) ≡ some 0
unfolding find_magic starts_with
find_magic-here rest = refl

none_inside :
    (x : ℕ) (xs : List ℕ)
    → find_magic (x ∷ xs) ≡ none
    → (starts_with (x ∷ xs) magic ≡ false) × (find_magic xs ≡ none)
unfolding find_magic
none_inside x xs e = shape (starts_with (x ∷ xs) magic) (find_magic xs) e

-- No suffix of the magic is a prefix of it.
not_here :
    (x : ℕ) (xs rest : List ℕ)
    → starts_with (x ∷ xs) magic ≡ false
    → starts_with (x ∷ xs ++ (magic ++ rest)) magic ≡ false
unfolding starts_with
not_here x [] rest e = ground arith
not_here x (a ∷ []) rest e = ground arith
not_here x (a ∷ b ∷ []) rest e = ground arith
not_here x (a ∷ b ∷ c ∷ xs) rest e = e

pub find_magic_lem :
    (pre rest : List ℕ)
    → find_magic pre ≡ none
    → find_magic (pre ++ (magic ++ rest)) ≡ some (length pre)
unfolding find_magic
find_magic_lem [] rest e = find_magic-here rest
find_magic_lem (x ∷ xs) rest e =
    let (n, m) = none_inside x xs e in
    let h = not_here x xs rest n in
    let ih = find_magic_lem xs rest m in
    let n' : length xs + 1 ≡ length (x ∷ xs) = omega arith in rw (h, ih, n') refl
