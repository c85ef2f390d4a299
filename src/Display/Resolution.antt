-- ===== src/Display/Resolution.antt =====
-- src/graphics.rs: `set_highest_resolution`.
use rignite.Common.{
  ℕ, ◌*◌, ◌%◌, ◌^◌, ◌≤◌, ◌≡◌, Option, none, some, List, [], ◌∷◌, Bool, ok, ◌>>=◌, ◌>>◌, ◌&&◌, ltb,
  leb, Bool-cases, inl, inr, arith, if◌then◌else◌, replicate, All, In, refl, ◌⊎◌, true, false,
}
use rignite.Btrfs.Layout.{M}
use rignite.Btrfs.Volume.{allocate}
use rignite.Display.{Mode}

abbrev pub is_modest : Mode → Bool
is_modest m = leb m.width 1920 && leb m.height 1200

abbrev pub area : Mode → ℕ
area m = m.width * m.height

-- The larger of a mode and the best of those behind it; of equal ones the last.
abbrev pub larger : Mode → Option Mode → Option Mode
larger m none = some m
larger m (some n) = if ltb (area n) (area m) then some m else some n

-- `filter` and `max_by_key`.
unfoldable pub choose_mode : List Mode → Option Mode
choose_mode [] = none
choose_mode (m ∷ ms) = let rest = choose_mode ms in if is_modest m then larger m rest else rest

-- The new back buffer. `set_mode` gives the current mode after the call.
unfoldable pub set_highest_resolution : (Mode → M Mode) → List Mode → List ℕ → M (List ℕ)
unfolding choose_mode
set_highest_resolution set_mode modes backbuffer = elim (choose_mode modes) [
  | none ↦ ok backbuffer
  | some mode ↦ do
    info ← set_mode mode
    let len = info.height * info.stride * 4 % 2 ^ 64
    allocate len
    ok (replicate len 0)
]

abbrev pub IsModest : Mode → Type 0
IsModest m = (m.width ≤ 1920) × (m.height ≤ 1200)

IsModest-cases :
    (m : Mode) → ((is_modest m ≡ true) × IsModest m) ⊎ ((is_modest m ≡ false) × ¬ IsModest m)
IsModest-cases m = ground arith

-- What the choice is worth.
abbrev pub IsBest : List Mode → Option Mode → Type 0
IsBest modes none = All (λ (n : Mode). ¬ IsModest n) modes
IsBest modes (some m) =
    In m modes × IsModest m × All (λ (n : Mode). IsModest n → area n ≤ area m) modes

raise :
    (a b : ℕ) (ms : List Mode)
    → a ≤ b
    → All (λ (n : Mode). IsModest n → area n ≤ a) ms
    → All (λ (n : Mode). IsModest n → area n ≤ b) ms
raise a b [] h t = tt
raise a b (m ∷ ms) h (t, ts) = ((λ p. let q = t p in omega (arith, q, h)), raise a b ms h ts)

none_above :
    (a : ℕ) (ms : List Mode)
    → All (λ (n : Mode). ¬ IsModest n) ms
    → All (λ (n : Mode). IsModest n → area n ≤ a) ms
none_above a [] t = tt
none_above a (m ∷ ms) (t, ts) = ((λ p. absurd (t p)), none_above a ms ts)

larger-IsBest :
    (m : Mode) (ms : List Mode) (o : Option Mode)
    → IsModest m
    → IsBest ms o
    → IsBest (m ∷ ms) (larger m o)
larger-IsBest m ms none p b = (inl refl, p, ((λ q. omega arith), none_above (area m) ms b))
larger-IsBest m ms (some n) p (i, q, b) = elim (Bool-cases (ltb (area n) (area m))) [
  | inl e ↦ rw e (inl refl, p, ((λ r. omega arith), raise (area n) (area m) ms (ground arith) b))
  | inr e ↦ rw e (inr i, q, ((λ r. ground arith), b))
]

skip-IsBest :
    (m : Mode) (ms : List Mode) (o : Option Mode) → ¬ IsModest m → IsBest ms o → IsBest (m ∷ ms) o
skip-IsBest m ms none p b = (p, b)
skip-IsBest m ms (some n) p (i, q, b) = (inr i, q, ((λ r. absurd (p r)), b))

-- The chosen mode is one of the list, at most 1920 wide and 1200 high, and has the largest area of
-- all such modes of the list; no mode is chosen exactly when the list has none of that size.
pub choose_mode_lem : (modes : List Mode) → IsBest modes (choose_mode modes)
unfolding choose_mode
choose_mode_lem [] = tt
choose_mode_lem (m ∷ ms) = elim (IsModest-cases m) [
  | inl (e, p) ↦ rw e (larger-IsBest m ms (choose_mode ms) p (choose_mode_lem ms))
  | inr (e, p) ↦ rw e (skip-IsBest m ms (choose_mode ms) p (choose_mode_lem ms))
]
