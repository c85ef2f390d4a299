-- ===== src/Display.antt =====
-- src/graphics.rs: the back buffer, `clear` and `draw_iter`. The mode is what `current_mode_info`
-- gives.
use rignite.Common.{
  ℕ, ◌+◌, ◌-◌, ◌*◌, ◌%◌, ◌^◌, List, [], ◌∷◌, Bool, true, false, Result, ok, fault, panic, ◌>>=◌,
  ◌&&◌, ltb, if◌then◌else◌, length,
}
use rignite.Common.Index.{overwrite}
pub mod Bounds
pub mod Resolution
pub mod Flush
mod Examples

-- An `i32`.
pub data ℤ : Type 0 where
  pos : ℕ → ℤ
  negsuc : ℕ → ℤ

pub data PixelFormat : Type 0 where
  rgb blt_only other : PixelFormat

pub record Mode : Type 0 where
  pub width : ℕ
  pub height : ℕ
  pub stride : ℕ
  pub pixel_format : PixelFormat

pub record Rgb888 : Type 0 where
  pub r : ℕ
  pub g : ℕ
  pub b : ℕ

pub record Pixel : Type 0 where
  pub x : ℤ
  pub y : ℤ
  pub color : Rgb888

-- `as i32`
abbrev pub as_i32 : ℕ → ℤ
as_i32 n = let m = n % 2 ^ 32 in if ltb m (2 ^ 31) then pos m else negsuc (2 ^ 32 - 1 - m)

-- `a >= 0 && a < b`
abbrev pub inside : ℤ → ℤ → Bool
inside (pos a) (pos b) = ltb a b
inside (pos a) (negsuc b) = false
inside (negsuc a) b = false

-- `as usize` of a coordinate that is not negative.
abbrev pub as_usize : ℤ → ℕ
as_usize (pos a) = a
as_usize (negsuc a) = 0

-- `buffer[i] = v`, which panics out of range.
unfoldable pub set : List ℕ → ℕ → ℕ → Result ⊥ (List ℕ)
set buffer i v = if ltb i (length buffer) then ok (overwrite buffer i (v ∷ [])) else fault panic

abbrev pub first_byte : PixelFormat → Rgb888 → ℕ
first_byte rgb color = color.r
first_byte blt_only color = color.b
first_byte other color = color.b

abbrev pub third_byte : PixelFormat → Rgb888 → ℕ
third_byte rgb color = color.b
third_byte blt_only color = color.r
third_byte other color = color.r

unfoldable pub set_pixel : Mode → List ℕ → ℕ → Rgb888 → Result ⊥ (List ℕ)
unfolding set
set_pixel mode buffer index color = do
  buffer₁ ← set buffer index (first_byte mode.pixel_format color)
  buffer₂ ← set buffer₁ (index + 1) color.g
  set buffer₂ (index + 2) (third_byte mode.pixel_format color)

-- `(y * stride + x) * 4`, in a `usize` of 64 bits.
abbrev pub index_of : Mode → Pixel → ℕ
index_of mode p = (as_usize p.y * mode.stride + as_usize p.x) * 4 % 2 ^ 64

abbrev pub not_clipped : Mode → Pixel → Bool
not_clipped mode p = inside p.x (as_i32 mode.width) && inside p.y (as_i32 mode.height)

unfoldable pub draw_pixel : Mode → List ℕ → Pixel → Result ⊥ (List ℕ)
unfolding set_pixel
draw_pixel mode buffer p =
    if not_clipped mode p && ltb ((index_of mode p + 2) % 2 ^ 64) (length buffer)
    then set_pixel mode buffer (index_of mode p) p.color
    else ok buffer

unfoldable pub draw_iter : Mode → List Pixel → List ℕ → Result ⊥ (List ℕ)
unfolding draw_pixel
draw_iter mode [] buffer = ok buffer
draw_iter mode (p ∷ ps) buffer = do buffer' ← draw_pixel mode buffer p; draw_iter mode ps buffer'

-- `chunks_exact_mut(4)` leaves out a rest of less than four bytes.
unfoldable pub clear : Mode → Rgb888 → List ℕ → List ℕ
clear mode color (c₀ ∷ c₁ ∷ c₂ ∷ c₃ ∷ rest) =
    first_byte mode.pixel_format color
    ∷ color.g
    ∷ third_byte mode.pixel_format color
    ∷ c₃
    ∷ clear mode color rest
clear mode color rest = rest
