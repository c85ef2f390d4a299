-- ===== src/Rbc/Utf8.antt =====
-- What `str::from_utf8` accepts: the well-formed UTF-8 byte sequences (Unicode, table 3-7). A
-- `&str` is its bytes.
use rignite.Common.{
  ℕ, ◌≡◌, refl, List, [], ◌∷◌, Bool, true, false, ◌&&◌, ◌||◌, Option, none, some, ltb, leb, ◌==◌,
  if◌then◌else◌,
}

abbrev is_tail : ℕ → Bool
is_tail b = leb 0x80 b && leb b 0xBF

-- The second byte of a three-byte form, and of a four-byte form.
second_of_three : ℕ → ℕ → Bool
second_of_three a b =
    is_tail b && (if a == 0xE0 then leb 0xA0 b else if a == 0xED then leb b 0x9F else true)

second_of_four : ℕ → ℕ → Bool
second_of_four a b =
    is_tail b && (if a == 0xF0 then leb 0x90 b else if a == 0xF4 then leb b 0x8F else true)

abbrev between : ℕ → ℕ → ℕ → Bool
between lo hi a = leb lo a && leb a hi

unfoldable pub is_utf8 : List ℕ → Bool
unfolding second_of_three second_of_four
is_utf8 [] = true
is_utf8 (a ∷ []) = ltb a 0x80
is_utf8 (a ∷ b ∷ []) = (ltb a 0x80 && ltb b 0x80) || (between 0xC2 0xDF a && is_tail b)
is_utf8 (a ∷ b ∷ c ∷ []) =
    (ltb a 0x80 && is_utf8 (b ∷ c ∷ []))
    || ((between 0xC2 0xDF a && is_tail b) && ltb c 0x80)
    || (between 0xE0 0xEF a && second_of_three a b && is_tail c)
is_utf8 (a ∷ b ∷ c ∷ d ∷ rest) =
    let one = is_utf8 (b ∷ c ∷ d ∷ rest) in
    let two = is_utf8 (c ∷ d ∷ rest) in
    let three = is_utf8 (d ∷ rest) in
    let four = is_utf8 rest in
    if ltb a 0x80
    then one
    else if between 0xC2 0xDF a && is_tail b
    then two
    else if between 0xE0 0xEF a && second_of_three a b && is_tail c
    then three
    else if between 0xF0 0xF4 a && second_of_four a b && is_tail c && is_tail d
    then four
    else false

unfoldable pub from_utf8 : List ℕ → Option (List ℕ)
unfolding is_utf8
from_utf8 bytes = if is_utf8 bytes then some bytes else none

-- "é€" is accepted; a lone tail byte, an overlong form and a surrogate are not.
from_utf8_runs :
    (from_utf8 (0xC3 ∷ 0xA9 ∷ 0xE2 ∷ 0x82 ∷ 0xAC ∷ [])
      ≡ some (0xC3 ∷ 0xA9 ∷ 0xE2 ∷ 0x82 ∷ 0xAC ∷ []))
    × (from_utf8 (0x41 ∷ 0x80 ∷ []) ≡ none)
    × (from_utf8 (0xC0 ∷ 0xAF ∷ []) ≡ none)
    × (from_utf8 (0xED ∷ 0xA0 ∷ 0x80 ∷ []) ≡ none)
unfolding from_utf8
from_utf8_runs = (refl, refl, refl, refl)
