-- ===== src/Rbc/RoundTrip.antt =====
-- What rbc_cli/src/main.rs writes is what src/rbc.rs reads back.
use rignite.Common.{
  ℕ, zero, suc, ◌+◌, ◌/◌, ◌%◌, ◌^◌, ◌≤◌, ◌<◌, ◌≡◌, refl, ap, ◌∙◌, some, List, [], ◌∷◌, ◌++◌, Result,
  ok, arith, ltb-false, length, All, length-append, take-append, drop_front, take_all,
}
use rignite.Common.Bytes.{from_le_bytes, to_le_bytes, from_le_bytes-to_le_bytes}
use rignite.Rbc.Validate.{size_of, new_ok}
use rignite.Rbc.Tag.{RbcError, Tag, as_u16, IsCanonical}
use rignite.Rbc.View.{ConfigView, Atom, new}
use rignite.Rbc.Writer.{TaggedAtom, payload_size, header, append_atoms, serialize}
use rignite.Rbc.Atoms.{first_atom, atom_list, atom_list-some, view_atoms}
use mathlib.Core.List.{append_assoc, append-nil}

-- An atom that the format can hold.
abbrev pub Fits : TaggedAtom → Type 0
Fits (t, value) = IsCanonical t × (as_u16 t < 65536) × (length value < 65536)

-- The atoms as they follow the header.
unfoldable pub encoded : List TaggedAtom → List ℕ
encoded [] = []
encoded ((t, value) ∷ rest) =
    to_le_bytes 2 (as_u16 t) ++ (to_le_bytes 2 (length value) ++ (value ++ encoded rest))

abbrev pub as_atoms : List TaggedAtom → List Atom
as_atoms [] = []
as_atoms ((t, value) ∷ rest) = record { tag = t; value = value } ∷ as_atoms rest

two_bytes : (v : ℕ) → v < 65536 → from_le_bytes (v % 256 ∷ v / 256 % 256 ∷ []) ≡ v
unfolding to_le_bytes
two_bytes v h = from_le_bytes-to_le_bytes 2 v (omega arith)

first_atom-encoded :
    (t : Tag) (value : List ℕ) (rest : List TaggedAtom)
    → Fits (t, value)
    → first_atom (encoded ((t, value) ∷ rest))
      ≡ some (record { tag = t; value = value }, encoded rest)
unfolding first_atom encoded to_le_bytes
first_atom-encoded t value rest (c, ht, hv) = rw (
  two_bytes (length value) hv,
  ltb-false (length (value ++ encoded rest)) (length value)
      (omega (arith, length-append value (encoded rest))),
  two_bytes (as_u16 t) ht,
  c,
  take-append value (encoded rest),
  drop_front value (encoded rest),
)

atom_list-encoded :
    (n : ℕ) (l : List TaggedAtom)
    → All Fits l
    → length l ≤ n
    → atom_list (suc n) (encoded l) ≡ as_atoms l
atom_list-encoded n [] h k = unfold atom_list first_atom encoded in refl
atom_list-encoded zero (a ∷ l) h k = absurd (omega arith)
atom_list-encoded (suc n) ((t, value) ∷ l) (h, hs) k =
    atom_list-some (suc n) _ _ _ (first_atom-encoded t value l h)
    ∙ ap (λ r. record { tag = t; value = value } ∷ r) (atom_list-encoded n l hs (omega arith))

append_atoms-encoded :
    (blob : List ℕ) (l : List TaggedAtom)
    → All Fits l
    → append_atoms blob l ≡ ok (blob ++ encoded l)
unfolding append_atoms encoded
append_atoms-encoded blob [] h = rw append-nil
append_atoms-encoded blob ((t, value) ∷ l) (h, hs) =
    let e : length value % 65536 ≡ length value = omega (arith, h.2) in
    rw (ltb-false 65535 (length value) (omega (arith, h.2)), e)
      (append_atoms-encoded
          ((blob ++ to_le_bytes 2 (as_u16 t) ++ to_le_bytes 2 (length value)) ++ value) l hs
        ∙ simp append_assoc)

pub serialize-encoded :
    (l : List TaggedAtom) → All Fits l → serialize l ≡ ok (header l ++ encoded l)
unfolding serialize
serialize-encoded l h = unfold to_le_bytes in append_atoms-encoded (header l) l h

pub length-encoded : (l : List TaggedAtom) → length (encoded l) ≡ payload_size l
unfolding encoded payload_size to_le_bytes
length-encoded [] = refl
length-encoded ((t, value) ∷ l) = omega (arith, length-append value (encoded l), length-encoded l)

length-le-payload_size : (l : List TaggedAtom) → length l ≤ payload_size l
unfolding payload_size
length-le-payload_size [] = omega arith
length-le-payload_size ((t, value) ∷ l) = omega (arith, length-le-payload_size l)

abbrev pub whole : List TaggedAtom → ConfigView
whole l = record { bytes = header l ++ encoded l }

-- The reader accepts what the writer wrote, whole, if its size fits 32 bits.
pub new-serialized :
    (l : List TaggedAtom)
    → 16 + payload_size l < 2 ^ 32
    → new (header l ++ encoded l) ≡ ok (whole l)
new-serialized l h =
    let n : ℕ = 16 + payload_size l in
    let e : n % 2 ^ 32 ≡ n = omega (arith, h) in
    let long : length (header l ++ encoded l) ≡ n =
      unfold header to_le_bytes in omega (arith, length-encoded l) in
    let size : size_of (header l ++ encoded l) ≡ n =
      unfold header to_le_bytes in from_le_bytes-to_le_bytes 4 (n % 2 ^ 32) (omega arith) ∙ e in
    new_ok (header l ++ encoded l) (record {
      long = omega (arith, long);
      magic = unfold header to_le_bytes in refl;
      version = unfold header to_le_bytes from_le_bytes in refl;
      size = omega (arith, long, size);
    })
    ∙ ap {B = Result RbcError ConfigView} (λ b. ok (record { bytes = b }))
        (take_all (size_of (header l ++ encoded l)) (header l ++ encoded l)
          (omega (arith, long, size)))

-- The atoms of what the writer wrote are the atoms that it was given.
pub view_atoms-whole : (l : List TaggedAtom) → All Fits l → view_atoms (whole l) ≡ as_atoms l
view_atoms-whole l h =
    unfold header to_le_bytes in
    atom_list-encoded _ l h (omega (arith, length-encoded l, length-le-payload_size l))
