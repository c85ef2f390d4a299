-- ===== src/Display/Bounds.antt =====
-- src/graphics.rs: drawing stays inside the back buffer, and away from the fourth byte of a pixel.
use rignite.Common.{
  ℕ, zero, suc, some, ◌+◌, ◌*◌, ◌%◌, ◌^◌, ◌<◌, ◌≤◌, ◌≡◌, ◌≢◌, ◌⊎◌, inl, inr, refl, ◌∙◌, List, [],
  ◌∷◌, Bool, true, false, Result, ok, ◌&&◌, ltb, lt→ltb, ltb→lt, Bool-cases, arith, length,
  get_elem?,
}
use rignite.Common.Index.{overwrite, length-overwrite, get_elem?-overwrite_out}
use rignite.Display.{
  Mode, Pixel, Rgb888, clear, set, set_pixel, draw_pixel, draw_iter, index_of, not_clipped,
  first_byte, third_byte,
}

-- A result of the same length with the same fourth bytes.
abbrev pub IsDrawn : List ℕ → Result ⊥ (List ℕ) → Type 0
IsDrawn buffer m =
    (out : List ℕ) × (m ≡ ok out)
    × (length out ≡ length buffer)
    × ((j : ℕ) → j % 4 ≡ 3 → get_elem? out j ≡ get_elem? buffer j)

apart : (i j : ℕ) → i % 4 ≢ 3 → j % 4 ≡ 3 → (j < i) ⊎ (i + 1 ≤ j)
apart i j n e = ground arith

-- A multiple of 4 below 2^64 stays below it by 2.
in_buffer : (k n : ℕ) → ltb ((k * 4 % 2 ^ 64 + 2) % 2 ^ 64) n ≡ true → k * 4 % 2 ^ 64 + 2 < n
in_buffer k n h = let l = ltb→lt ((k * 4 % 2 ^ 64 + 2) % 2 ^ 64) n h in omega (arith, l)

aligned : (k : ℕ) → k * 4 % 2 ^ 64 % 4 ≡ 0
aligned k = omega arith

right_of : (a b : Bool) → (a && b) ≡ true → b ≡ true
right_of true b h = h
right_of false b h = cc

set-IsDrawn :
    (buffer : List ℕ) (i v : ℕ) → i < length buffer → i % 4 ≢ 3 → IsDrawn buffer (set buffer i v)
unfolding set
set-IsDrawn buffer i v h n = rw (lt→ltb i (length buffer) h) (
  overwrite buffer i (v ∷ []),
  refl,
  length-overwrite buffer i (v ∷ []) (omega arith),
  λ j e. get_elem?-overwrite_out buffer i (v ∷ []) (omega arith) j (apart i j n e),
)

set_pixel-IsDrawn :
    (mode : Mode) (buffer : List ℕ) (i : ℕ) (color : Rgb888)
    → i + 2 < length buffer
    → i % 4 ≡ 0
    → IsDrawn buffer (set_pixel mode buffer i color)
unfolding set_pixel
set_pixel-IsDrawn mode buffer i color h z =
    let (b1, e1, l1, k1) =
      set-IsDrawn buffer i (first_byte mode.pixel_format color) (omega arith) (omega arith) in
    let (b2, e2, l2, k2) = set-IsDrawn b1 (i + 1) color.g (omega (arith, l1)) (omega arith) in
    let (b3, e3, l3, k3) =
      set-IsDrawn b2 (i + 2) (third_byte mode.pixel_format color) (omega (arith, l1, l2))
        (omega arith) in
    rw (e1, e2, e3) (b3, refl, l3 ∙ l2 ∙ l1, λ j e. k3 j e ∙ k2 j e ∙ k1 j e)

draw_pixel-IsDrawn :
    (mode : Mode) (buffer : List ℕ) (p : Pixel) → IsDrawn buffer (draw_pixel mode buffer p)
unfolding draw_pixel
draw_pixel-IsDrawn mode buffer p =
    elim (Bool-cases (not_clipped mode p && ltb ((index_of mode p + 2) % 2 ^ 64) (length buffer))) [
      | inr e ↦ rw e (buffer, refl, refl, λ j h. refl)
      | inl e ↦ rw e (
          set_pixel-IsDrawn mode buffer (index_of mode p) p.color
            (in_buffer _ (length buffer) (right_of (not_clipped mode p) _ e)) (aligned _))
    ]

-- Whatever the mode and the pixels, drawing never indexes the back buffer out of range; it keeps
-- its length, and never changes the fourth byte of a pixel.
pub draw_iter_lem :
    (mode : Mode) (pixels : List Pixel) (buffer : List ℕ)
    → IsDrawn buffer (draw_iter mode pixels buffer)
unfolding draw_iter
draw_iter_lem mode [] buffer = (buffer, refl, refl, λ j e. refl)
draw_iter_lem mode (p ∷ ps) buffer =
    let (b, e, l, k) = draw_pixel-IsDrawn mode buffer p in
    let (out, f, m, n) = draw_iter_lem mode ps b in
    rw (e, f) (out, refl, m ∙ l, λ j h. n j h ∙ k j h)

abbrev pub IsPixel : Mode → Rgb888 → List ℕ → List ℕ → ℕ → Type 0
IsPixel mode color buffer out i =
    (get_elem? out i ≡ some (first_byte mode.pixel_format color))
    × (get_elem? out (i + 1) ≡ some color.g)
    × (get_elem? out (i + 2) ≡ some (third_byte mode.pixel_format color))
    × (get_elem? out (i + 3) ≡ get_elem? buffer (i + 3))

-- Clearing gives every pixel that the back buffer holds in whole the three bytes of the color, in
-- the order of the format, and leaves its fourth byte alone.
pub clear_lem :
    (mode : Mode) (color : Rgb888) (k : ℕ) (buffer : List ℕ)
    → k * 4 + 3 < length buffer
    → IsPixel mode color buffer (clear mode color buffer) (k * 4)
unfolding clear
clear_lem mode color k [] h = absurd (omega arith)
clear_lem mode color k (a ∷ []) h = absurd (omega arith)
clear_lem mode color k (a ∷ b ∷ []) h = absurd (omega arith)
clear_lem mode color k (a ∷ b ∷ c ∷ []) h = absurd (omega arith)
clear_lem mode color zero (a ∷ b ∷ c ∷ d ∷ rest) h = (refl, refl, refl, refl)
clear_lem mode color (suc k) (a ∷ b ∷ c ∷ d ∷ rest) h =
    let e : suc k * 4 ≡ suc (suc (suc (suc (k * 4)))) = omega arith in
    let e1 : suc k * 4 + 1 ≡ suc (suc (suc (suc (k * 4 + 1)))) = omega arith in
    let e2 : suc k * 4 + 2 ≡ suc (suc (suc (suc (k * 4 + 2)))) = omega arith in
    let e3 : suc k * 4 + 3 ≡ suc (suc (suc (suc (k * 4 + 3)))) = omega arith in
    let (p, q, r, s) = clear_lem mode color k rest (omega arith) in
    (rw e p, rw e1 q, rw e2 r, rw e3 s)
