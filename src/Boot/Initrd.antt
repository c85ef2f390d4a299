-- ===== src/Boot/Initrd.antt =====
-- src/boot/mod.rs: `load_file2_initrd`, the callback through which the kernel reads the initrd.
use rignite.Common.{
  ℕ, ◌≤◌, ◌≡◌, refl, Option, none, some, List, ◌++◌, arith, ltb, ltb-false, if◌then◌else◌, length,
  drop, false, ◌⊎◌, inl, inr, ◌≢◌, Bool-cases,
}

pub data Efi : Type 0 where
  success invalid_parameter not_found buffer_too_small : Efi

-- The memory that the caller passes: `*buffer_size`, or `none` for a null pointer, and the bytes
-- at `buffer`.
pub record Caller : Type 0 where
  pub buffer_size : Option ℕ
  pub buffer : Option (List ℕ)

-- `copy_nonoverlapping` of all of `bytes` to the start of the buffer.
abbrev pub copy_to : List ℕ → List ℕ → List ℕ
copy_to bytes buffer = bytes ++ drop (length bytes) buffer

-- The call with `INITRD_DATA` at a `buffer_size` that is not null.
unfoldable pub load_sized : List ℕ → ℕ → Option (List ℕ) → Efi × Caller
load_sized bytes available none =
    (buffer_too_small, record { buffer_size = some (length bytes); buffer = none })
load_sized bytes available (some buffer) =
    if ltb available (length bytes)
    then (buffer_too_small, record { buffer_size = some (length bytes); buffer = some buffer })
    else (
      success,
      record { buffer_size = some (length bytes); buffer = some (copy_to bytes buffer) },
    )

-- The status, and the caller's memory after the call.
unfoldable pub load_file2_initrd : Option (List ℕ) → Caller → Efi × Caller
unfolding load_sized
load_file2_initrd initrd_data c = elim c.buffer_size [
  | none ↦ (invalid_parameter, c)
  | some available ↦ elim initrd_data [
    | none ↦ (not_found, c)
    | some bytes ↦ load_sized bytes available c.buffer
  ]
]

-- The kernel's two calls: one without a buffer to learn the size, then one with a buffer of at
-- least that size. The first answers that the buffer is too small and states the size of the
-- initrd; the second succeeds, states the size again, puts exactly the initrd at the start of the
-- buffer and leaves the bytes behind it alone.
pub two_calls :
    (initrd buffer : List ℕ) (guess : ℕ)
    → length initrd ≤ length buffer
    → let first =
        load_file2_initrd (some initrd) (record { buffer_size = some guess; buffer = none }) in
      let second =
        load_file2_initrd
          (some initrd)
          (record { buffer_size = some (length buffer); buffer = some buffer }) in
      (first.0 ≡ buffer_too_small)
      × (first.1.buffer_size ≡ some (length initrd))
      × (second.0 ≡ success)
      × (second.1.buffer_size ≡ some (length initrd))
      × (second.1.buffer ≡ some (initrd ++ drop (length initrd) buffer))
unfolding load_file2_initrd
two_calls initrd buffer guess h =
    let e : ltb (length buffer) (length initrd) ≡ false =
      ltb-false (length buffer) (length initrd) h in
    (refl, refl, rw e, rw e, rw e)

-- What a call that succeeded has written: the whole initrd, into a buffer that holds it.
abbrev pub HasWritten : Option (List ℕ) → Caller → Caller → Type 0
HasWritten initrd c after =
    (bytes : List ℕ) × (available : ℕ) × (buffer : List ℕ) × (initrd ≡ some bytes)
    × (c.buffer_size ≡ some available)
    × (c.buffer ≡ some buffer)
    × (length bytes ≤ available)
    × (after.buffer ≡ some (bytes ++ drop (length bytes) buffer))

-- What is claimed of a call.
abbrev pub IsAnswered : Option (List ℕ) → Caller → Efi × Caller → Type 0
IsAnswered initrd c (status, after) =
    ((status ≡ success) × HasWritten initrd c after)
    ⊎ ((status ≢ success) × (after.buffer ≡ c.buffer))

load_file2_initrd-IsAnswered :
    (initrd : Option (List ℕ)) (size : Option ℕ) (buffer : Option (List ℕ))
    → let c : Caller = record { buffer_size = size; buffer = buffer } in
      IsAnswered initrd c (load_file2_initrd initrd c)
unfolding load_file2_initrd
load_file2_initrd-IsAnswered initrd none b = inr ((λ e. cc), refl)
load_file2_initrd-IsAnswered none (some n) b = inr ((λ e. cc), refl)
load_file2_initrd-IsAnswered (some bytes) (some n) none = inr ((λ e. cc), refl)
load_file2_initrd-IsAnswered (some bytes) (some n) (some b) =
    elim (Bool-cases (ltb n (length bytes))) [
      | inl s ↦ rw s (inr ((λ e. cc), refl))
      | inr f ↦ rw f (inl (refl, (bytes, n, b, refl, refl, refl, ground (arith, f), refl)))
    ]

-- Either a call succeeds, and then there is an initrd, the caller passed a buffer that holds all of
-- it by its stated size, and the initrd stands at its start; or the call does not succeed, and the
-- bytes of the buffer are as they were. So a buffer that is stated to be smaller than the initrd is
-- never written.
pub failed_call_writes_nothing :
    (initrd : Option (List ℕ)) (c : Caller) → IsAnswered initrd c (load_file2_initrd initrd c)
failed_call_writes_nothing initrd c = load_file2_initrd-IsAnswered initrd c.buffer_size c.buffer
