-- ===== src/Common/Index.antt =====
-- Reading a list by index, through `take`, `drop`, `++` and an overwritten range.
use Prim.Native.Nat.{ℕ, zero, suc, ◌+◌, ◌-◌, ◌≤◌, ◌<◌}
use mathlib.Core.Path.{◌≡◌, refl, ◌∙◌}
use mathlib.Core.Logic.{◌⊎◌, inl, inr}
use mathlib.Core.List.{List, [], ◌∷◌, ◌++◌}
use mathlib.Core.Option.{some}
use native.Mathlib.Omega.{arith}
use rignite.Common.Lists.{
  length, get_elem?, take, drop, replicate, length-append, length-take, length-drop,
}

module _ {ℓ} {A : Type ℓ} where
  pub get_elem?-append_left :
      (xs ys : List A) (i : ℕ) → i < length xs → get_elem? (xs ++ ys) i ≡ get_elem? xs i
  get_elem?-append_left [] ys i h = absurd (omega arith)
  get_elem?-append_left (x ∷ xs) ys zero h = refl
  get_elem?-append_left (x ∷ xs) ys (suc i) h = get_elem?-append_left xs ys i (omega arith)

  pub get_elem?-append_right :
      (xs ys : List A) (i j : ℕ) → i ≡ length xs + j → get_elem? (xs ++ ys) i ≡ get_elem? ys j
  get_elem?-append_right [] ys i j e = let e' : i ≡ j = omega arith in rw e'
  get_elem?-append_right (x ∷ xs) ys zero j e = absurd (omega arith)
  get_elem?-append_right (x ∷ xs) ys (suc i) j e = get_elem?-append_right xs ys i j (omega arith)

  pub get_elem?-take :
      (n : ℕ) (xs : List A) (i : ℕ) → i < n → get_elem? (take n xs) i ≡ get_elem? xs i
  get_elem?-take zero xs i h = absurd (omega arith)
  get_elem?-take (suc n) [] i h = refl
  get_elem?-take (suc n) (x ∷ xs) zero h = refl
  get_elem?-take (suc n) (x ∷ xs) (suc i) h = get_elem?-take n xs i (omega arith)

  pub get_elem?-drop :
      (n : ℕ) (xs : List A) (i j : ℕ) → j ≡ n + i → get_elem? (drop n xs) i ≡ get_elem? xs j
  get_elem?-drop zero xs i j e = let e' : j ≡ i = omega arith in rw e'
  get_elem?-drop (suc n) [] i j e = refl
  get_elem?-drop (suc n) (x ∷ xs) i zero e = absurd (omega arith)
  get_elem?-drop (suc n) (x ∷ xs) i (suc j) e = get_elem?-drop n xs i j (omega arith)

  pub get_elem?-replicate : (n : ℕ) (a : A) (i : ℕ) → i < n → get_elem? (replicate n a) i ≡ some a
  get_elem?-replicate zero a i h = absurd (omega arith)
  get_elem?-replicate (suc n) a zero h = refl
  get_elem?-replicate (suc n) a (suc i) h = get_elem?-replicate n a i (omega arith)

-- `bytes` written over `out` from `start` on.
module _ {ℓ} {A : Type ℓ} where
  abbrev pub overwrite : List A → ℕ → List A → List A
  overwrite out start bytes = take start out ++ (bytes ++ drop (start + length bytes) out)

  module _ (out : List A) (start : ℕ) (bytes : List A)
      (fits : start + length bytes ≤ length out) where
    front : length (take start out) ≡ start
    front = omega (arith, length-take start out)

    pub length-overwrite : length (overwrite out start bytes) ≡ length out
    length-overwrite = omega (
      arith,
      front,
      length-append (take start out) (bytes ++ drop (start + length bytes) out),
      length-append bytes (drop (start + length bytes) out),
      length-drop (start + length bytes) out,
    )

    pub get_elem?-overwrite_in :
        (j : ℕ)
        → j < length bytes
        → get_elem? (overwrite out start bytes) (start + j) ≡ get_elem? bytes j
    get_elem?-overwrite_in j h =
        get_elem?-append_right (take start out) _ (start + j) j (omega (arith, front))
        ∙ get_elem?-append_left bytes _ j h

    pub get_elem?-overwrite_out :
        (i : ℕ)
        → (i < start) ⊎ (start + length bytes ≤ i)
        → get_elem? (overwrite out start bytes) i ≡ get_elem? out i
    get_elem?-overwrite_out i (inl h) =
        get_elem?-append_left (take start out) _ i (omega (arith, front))
        ∙ get_elem?-take start out i h
    get_elem?-overwrite_out i (inr h) =
        get_elem?-append_right (take start out) _ i (i - start) (omega (arith, front))
        ∙ get_elem?-append_right bytes _ (i - start) (i - start - length bytes) (omega arith)
        ∙ get_elem?-drop (start + length bytes) out (i - start - length bytes) i (omega arith)
