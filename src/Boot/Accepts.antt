-- ===== src/Boot/Accepts.antt =====
-- src/boot/mod.rs: which kernel images `validate_kernel_pe` lets through.
use rignite.Common.{
  ℕ, zero, suc, ◌+◌, ◌-◌, ◌≤◌, ◌<◌, ◌≡◌, ◌⊎◌, inl, inr, refl, sym, ◌∙◌, some, List, [], ◌∷◌, ok,
  err, arith, Bool-cases, false, ltb, ==_iff, ◌==◌, length, get_elem?, take, drop,
}
use mathlib.Core.Bool.{false≢true}
use rignite.Common.Bytes.{from_le_bytes, slice_ok}
use rignite.Btrfs.Layout.{Status, invalid_parameter}
use rignite.Boot.Kernel.{Arch, machine_of, index, check_pe, validate_kernel_pe}

abbrev pub pe_offset_of : List ℕ → ℕ
pe_offset_of d = from_le_bytes (take 4 (drop 0x3c d))

-- "PE" at the offset, and the machine of the architecture behind it.
abbrev pub HasPe : Arch → List ℕ → ℕ → Type 0
HasPe arch d o =
    (get_elem? d o ≡ some 0x50)
    × (get_elem? d (o + 1) ≡ some 0x45)
    × (from_le_bytes (take 2 (drop (o + 4) d)) ≡ machine_of arch)

-- An image of at most 64 bytes; or one with "MZ", and with the PE header where that lies inside.
abbrev pub Accepts : Arch → List ℕ → Type 0
Accepts arch d =
    (length d ≤ 0x40)
    ⊎ ((0x40 < length d)
        × (get_elem? d 0 ≡ some 0x4d)
        × (get_elem? d 1 ≡ some 0x5a)
        × ((length d ≤ pe_offset_of d + 6)
            ⊎ ((pe_offset_of d + 6 < length d) × HasPe arch d (pe_offset_of d))))

in_range : (d : List ℕ) (i : ℕ) → i < length d → (b : ℕ) × (get_elem? d i ≡ some b)
in_range [] i h = absurd (omega arith)
in_range (x ∷ d) zero h = (x, refl)
in_range (x ∷ d) (suc i) h = in_range d i (omega arith)

-- A byte that is not the one that was wanted.
other_byte :
    (d : List ℕ) (i b c : ℕ)
    → get_elem? d i ≡ some b
    → (b == c) ≡ false
    → ¬ (get_elem? d i ≡ some c)
other_byte d i b c e n f = ground arith

index_ok : (d : List ℕ) (i b : ℕ) → get_elem? d i ≡ some b → index d i ≡ ok b
unfolding index
index_ok d i b e = rw (e, index)

check_pe_cases :
    (arch : Arch) (d : List ℕ) (o : ℕ)
    → o + 6 < length d
    → ((check_pe arch d o ≡ ok tt) × HasPe arch d o)
      ⊎ ((check_pe arch d o ≡ err invalid_parameter) × ¬ HasPe arch d o)
unfolding check_pe
check_pe_cases arch d o h =
    let (a, ea) = in_range d o (omega arith) in
    let (b, eb) = in_range d (o + 1) (omega arith) in
    let m = from_le_bytes (take 2 (drop (o + 4) d)) in
    let ia = index_ok d o a ea in
    let ib = index_ok d (o + 1) b eb in
    let two : o + 6 - (o + 4) ≡ 2 = omega arith in
    let raw = slice_ok {E = Status} d (o + 4) (o + 6) (omega arith) (omega arith) in
    elim (Bool-cases (a == 0x50)) [
      | inr n ↦ inr (rw (ia, n), λ p. other_byte d o a 0x50 ea n p.0)
      | inl ya ↦ elim (Bool-cases (b == 0x45)) [
        | inr n ↦ inr (rw (ia, ya, ib, n), λ p. other_byte d (o + 1) b 0x45 eb n p.1)
        | inl yb ↦ elim (Bool-cases (m == machine_of arch)) [
          | inr n ↦
              inr (rw (ia, ya, ib, yb, raw, two, n), λ p. false≢true (sym n ∙ (==_iff _ _).1 p.2))
          | inl ym ↦
              inl
                (rw (ia, ya, ib, yb, raw, two, ym), (ground arith, ground arith, (==_iff _ _).0 ym))
        ]
      ]
    ]

-- What acceptance says of an image that is longer than 64 bytes.
Accepts-first :
    (arch : Arch) (d : List ℕ) → 0x40 < length d → Accepts arch d → get_elem? d 0 ≡ some 0x4d
Accepts-first arch d h (inl short) = absurd (omega arith)
Accepts-first arch d h (inr r) = r.1

Accepts-second :
    (arch : Arch) (d : List ℕ) → 0x40 < length d → Accepts arch d → get_elem? d 1 ≡ some 0x5a
Accepts-second arch d h (inl short) = absurd (omega arith)
Accepts-second arch d h (inr r) = r.2

Accepts-pe :
    (arch : Arch) (d : List ℕ)
    → 0x40 < length d
    → pe_offset_of d + 6 < length d
    → Accepts arch d
    → HasPe arch d (pe_offset_of d)
Accepts-pe arch d h k (inl short) = absurd (omega arith)
Accepts-pe arch d h k (inr (_, _, _, inl out)) = absurd (omega arith)
Accepts-pe arch d h k (inr (_, _, _, inr (_, pe))) = pe

-- `validate_kernel_pe` never panics. It accepts exactly the images of at most 64 bytes, and the
-- longer ones that begin with "MZ" and whose PE header either does not lie inside the image or has
-- the two bytes "PE" at its begin and the machine of the architecture at its offset 4, whatever the
-- two bytes between them are; any other it refuses as an invalid parameter.
pub validate_kernel_pe_lem :
    (arch : Arch) (d : List ℕ)
    → ((validate_kernel_pe arch d ≡ ok tt) × Accepts arch d)
      ⊎ ((validate_kernel_pe arch d ≡ err invalid_parameter) × ¬ Accepts arch d)
unfolding validate_kernel_pe
validate_kernel_pe_lem arch d = elim (Bool-cases (ltb 0x40 (length d))) [
  | inr short ↦ inl (rw short, inl (ground arith))
  | inl long ↦
      let more : 0x40 < length d = ground arith in
      let (a, ea) = in_range d 0 (omega arith) in
      let (b, eb) = in_range d 1 (omega arith) in
      let ia = index_ok d 0 a ea in
      let ib = index_ok d 1 b eb in
      let raw = slice_ok {E = Status} d 0x3c 0x40 (omega arith) (omega arith) in
      elim (Bool-cases (a == 0x4d)) [
        | inr n ↦
            inr (rw (long, ia, n), λ p. other_byte d 0 a 0x4d ea n (Accepts-first arch d more p))
        | inl ya ↦ elim (Bool-cases (b == 0x5a)) [
          | inr n ↦ inr (
            rw (long, ia, ya, ib, n),
            λ p. other_byte d 1 b 0x5a eb n (Accepts-second arch d more p),
          )
          | inl yb ↦ elim (Bool-cases (ltb (pe_offset_of d + 6) (length d))) [
            | inr out ↦ inl (
              rw (long, ia, ya, ib, yb, raw, out),
              inr (more, ground arith, ground arith, inl (ground arith)),
            )
            | inl within ↦ elim (check_pe_cases arch d (pe_offset_of d) (ground arith)) [
              | inl (e, h) ↦ inl (
                rw (long, ia, ya, ib, yb, raw, within) e,
                inr (more, ground arith, ground arith, inr (ground arith, h)),
              )
              | inr (e, h) ↦ inr (
                rw (long, ia, ya, ib, yb, raw, within) e,
                λ p. h (Accepts-pe arch d more (ground arith) p),
              )
            ]
          ]
        ]
      ]
]
