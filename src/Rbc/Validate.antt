-- ===== src/Rbc/Validate.antt =====
-- `ConfigView::new` of src/rbc.rs: which byte strings it accepts.
use rignite.Common.{
  ℕ, ◌-◌, ◌≤◌, ◌≡◌, ◌⊎◌, inl, inr, List, not, Result, ok, err, arith, sym, ◌∙◌, ltb, ltb-false,
  ◌==◌, bytes_eq, ==_iff, bytes_eq→eq, bytes_eq_refl, Bool-cases, if◌then◌else◌, length, take, drop,
}
use mathlib.Core.Bool.{false≢true}
use rignite.Common.Bytes.{from_le_bytes, slice_ok}
use rignite.Rbc.Tag.{
  RbcError, buffer_too_small, invalid_magic, unsupported_version, invalid_size, rbc_magic,
  rbc_version, header_size,
}
use rignite.Rbc.View.{ConfigView, new}

abbrev pub version_of : List ℕ → ℕ
version_of b = from_le_bytes (take 2 (drop 4 b))

abbrev pub size_of : List ℕ → ℕ
size_of b = from_le_bytes (take 4 (drop 6 b))

-- A header of sixteen bytes with the magic and the version, and at least as many bytes as it says.
pub record HasHeader (b : List ℕ) : Type 0 where
  pub long : header_size ≤ length b
  pub magic : take 4 b ≡ rbc_magic
  pub version : version_of b ≡ rbc_version
  pub size : size_of b ≤ length b

abbrev verdict : List ℕ → Result RbcError ConfigView
verdict b =
    if ltb (length b) header_size
    then err buffer_too_small
    else if not (bytes_eq (take 4 b) rbc_magic)
    then err invalid_magic
    else if not (version_of b == rbc_version)
    then err unsupported_version
    else if ltb (length b) (size_of b)
    then err invalid_size
    else ok (record { bytes = take (size_of b) b })

-- No slice of `new` is out of bounds.
new-verdict : (b : List ℕ) → new b ≡ verdict b
new-verdict b = elim (Bool-cases (ltb (length b) header_size)) [
  | inl short ↦ unfold new in rw short
  | inr long ↦
      unfold new in
      rw
        (
          long,
          slice_ok b 0 4 (omega arith) (ground arith),
          slice_ok b 4 6 (omega arith) (ground arith),
          slice_ok b 6 10 (omega arith) (ground arith),
        )
        (elim (Bool-cases (ltb (length b) (size_of b))) [
          | inl cut ↦ rw cut
          | inr fits ↦
              let z : size_of b - 0 ≡ size_of b = omega arith in
              rw (fits, slice_ok b 0 (size_of b) (omega arith) (ground arith), z)
        ])
]

-- A byte string with a header is accepted, and the view holds the bytes that the size field counts.
pub new_ok : (b : List ℕ) → HasHeader b → new b ≡ ok (record { bytes = take (size_of b) b })
new_ok b h = rw (
  new-verdict b,
  ltb-false (length b) header_size h.long,
  h.magic,
  bytes_eq_refl rbc_magic,
  (==_iff _ _).1 h.version,
  ltb-false (length b) (size_of b) h.size,
)

verdict_cases :
    (b : List ℕ)
    → (HasHeader b × (verdict b ≡ ok (record { bytes = take (size_of b) b })))
      ⊎ ((e : RbcError) × (verdict b ≡ err e) × ¬ HasHeader b)
verdict_cases b = elim (Bool-cases (ltb (length b) header_size)) [
  | inl short ↦ inr (buffer_too_small, rw short, λ h. absurd (ground (arith, h.long)))
  | inr long ↦ elim (Bool-cases (bytes_eq (take 4 b) rbc_magic)) [
    | inr other ↦ inr (
      invalid_magic,
      rw (long, other),
      λ h. false≢true (sym other ∙ rw h.magic (bytes_eq_refl rbc_magic)),
    )
    | inl magic ↦ elim (Bool-cases (version_of b == rbc_version)) [
      | inr other ↦ inr (
        unsupported_version,
        rw (long, magic, other),
        λ h. false≢true (sym other ∙ (==_iff _ _).1 h.version),
      )
      | inl version ↦ elim (Bool-cases (ltb (length b) (size_of b))) [
        | inl cut ↦
            inr (invalid_size, rw (long, magic, version, cut), λ h. absurd (ground (arith, h.size)))
        | inr fits ↦ inl (
          record {
            long = ground arith;
            magic = bytes_eq→eq _ _ magic;
            version = (==_iff _ _).0 version;
            size = ground arith;
          },
          rw (long, magic, version, fits),
        )
      ]
    ]
  ]
]

-- `ConfigView::new` neither panics nor reads out of bounds. It accepts exactly the byte strings
-- that have a header, cut to the size that the header states, and answers any other by an error.
pub new_total :
    (b : List ℕ)
    → (HasHeader b × (new b ≡ ok (record { bytes = take (size_of b) b })))
      ⊎ ((e : RbcError) × (new b ≡ err e) × ¬ HasHeader b)
new_total b = rw new-verdict (verdict_cases b)
