-- ===== src/Rbc/Sizes.antt =====
-- rbc_cli/src/main.rs: every atom of a valid configuration fits the format, and so does their sum.
use rignite.Common.{
  ℕ, ◌+◌, ◌*◌, ◌^◌, ◌<◌, ◌≡◌, refl, ap, Option, none, some, List, [], ◌∷◌, ◌++◌, arith, length, All,
}
use rignite.Common.Bytes.{to_le_bytes}
use rignite.Rbc.Tag.{
  Tag, main_uuid, main_fs_type, main_kernel_params, recovery_uuid, recovery_fs_type,
  recovery_kernel_params, tag_from, as_u16,
}
use rignite.Rbc.Writer.{
  OsConfig, Config, TaggedAtom, push_some, fs_type_bytes, main_atoms, recovery_atoms, config_atoms,
  payload_size,
}
use rignite.Rbc.RoundTrip.{Fits}
use mathlib.Core.Option.{Option}
use rignite.Rbc.Sections.{IsValidSection}

Fits-append : (l m : List TaggedAtom) → All Fits l → All Fits m → All Fits (l ++ m)
Fits-append [] m p q = q
Fits-append (a ∷ l) m (p, ps) q = (p, Fits-append l m ps q)

-- A tag under a code of the format is read back.
abbrev IsShort : Tag → Type 0
IsShort t = (tag_from (as_u16 t) ≡ t) × (as_u16 t < 65536)

push_some-Fits :
    (t : Tag) (o : Option (List ℕ))
    → IsShort t
    → ((v : List ℕ) → o ≡ some v → length v < 65536)
    → All Fits (push_some t o)
push_some-Fits t none s h = tt
push_some-Fits t (some v) s h = ((s.0, s.1, h v refl), tt)

fs_type_bytes-short : (o : Option ℕ) (v : List ℕ) → fs_type_bytes o ≡ some v → length v < 65536
unfolding to_le_bytes
fs_type_bytes-short none v e = cc
fs_type_bytes-short (some t) v e =
    let e' : to_le_bytes 2 t ≡ v = ground (arith, e) in omega (arith, ap length e')

main_atoms-Fits : (os : Option OsConfig) → IsValidSection os → All Fits (main_atoms os)
unfolding main_atoms tag_from as_u16
main_atoms-Fits none h = tt
main_atoms-Fits (some os) h =
    Fits-append _ _
      (push_some-Fits main_uuid os.uuid (refl, omega arith) (λ v e. omega (arith, h.uuid v e)))
      (Fits-append _ _
        (push_some-Fits main_fs_type (fs_type_bytes os.fs_type) (refl, omega arith)
          (fs_type_bytes-short os.fs_type))
        (push_some-Fits main_kernel_params os.kernel_params (refl, omega arith)
          (λ v e. (h.params v e).0)))

recovery_atoms-Fits : (os : Option OsConfig) → IsValidSection os → All Fits (recovery_atoms os)
unfolding recovery_atoms tag_from as_u16
recovery_atoms-Fits none h = tt
recovery_atoms-Fits (some os) h =
    Fits-append _ _
      (push_some-Fits recovery_uuid os.uuid (refl, omega arith) (λ v e. omega (arith, h.uuid v e)))
      (Fits-append _ _
        (push_some-Fits recovery_fs_type (fs_type_bytes os.fs_type) (refl, omega arith)
          (fs_type_bytes-short os.fs_type))
        (push_some-Fits recovery_kernel_params os.kernel_params (refl, omega arith)
          (λ v e. (h.params v e).0)))

pub config_atoms-Fits :
    (c : Config) → IsValidSection c.main → IsValidSection c.recovery → All Fits (config_atoms c)
unfolding config_atoms tag_from as_u16
config_atoms-Fits c hm hr =
    Fits-append _ _ (main_atoms-Fits c.main hm)
      (Fits-append _ _ (recovery_atoms-Fits c.recovery hr) ((refl, omega arith, omega arith), tt))

payload_size-append :
    (a b : List TaggedAtom) → payload_size (a ++ b) ≡ payload_size a + payload_size b
unfolding payload_size
payload_size-append [] b = omega arith
payload_size-append ((t, v) ∷ a) b = omega (arith, payload_size-append a b)

push_some-size :
    (t : Tag) (o : Option (List ℕ))
    → ((v : List ℕ) → o ≡ some v → length v < 65536)
    → payload_size (push_some t o) < 65540
unfolding payload_size
push_some-size t none h = omega arith
push_some-size t (some v) h = omega (arith, h v refl)

main_atoms-size :
    (os : Option OsConfig) → IsValidSection os → payload_size (main_atoms os) < 3 * 65540
unfolding main_atoms
main_atoms-size none h = unfold payload_size in omega arith
main_atoms-size (some os) h =
    rw (payload_size-append, payload_size-append)
      (omega (
        arith,
        push_some-size main_uuid os.uuid (λ v e. omega (arith, h.uuid v e)),
        push_some-size main_fs_type (fs_type_bytes os.fs_type) (fs_type_bytes-short os.fs_type),
        push_some-size main_kernel_params os.kernel_params (λ v e. (h.params v e).0),
      ))

recovery_atoms-size :
    (os : Option OsConfig) → IsValidSection os → payload_size (recovery_atoms os) < 3 * 65540
unfolding recovery_atoms
recovery_atoms-size none h = unfold payload_size in omega arith
recovery_atoms-size (some os) h =
    rw (payload_size-append, payload_size-append)
      (omega (
        arith,
        push_some-size recovery_uuid os.uuid (λ v e. omega (arith, h.uuid v e)),
        push_some-size recovery_fs_type (fs_type_bytes os.fs_type) (fs_type_bytes-short os.fs_type),
        push_some-size recovery_kernel_params os.kernel_params (λ v e. (h.params v e).0),
      ))

pub config_atoms-size :
    (c : Config)
    → IsValidSection c.main
    → IsValidSection c.recovery
    → 16 + payload_size (config_atoms c) < 2 ^ 32
unfolding config_atoms
config_atoms-size c hm hr =
    rw (payload_size-append, payload_size-append)
      (unfold payload_size in
        omega (arith, main_atoms-size c.main hm, recovery_atoms-size c.recovery hr))
