-- ===== src/Rbc/Viewable.antt =====
-- src/rbc.rs: what holds of the loader whatever the firmware answers.
use rignite.Common.{
  ℕ, ◌≡◌, Option, none, some, List, Result, ok, err, fault, ◌>>=◌, ◌>>◌, Bool, true, false, inl,
  inr, ok_or, guard, ◌<◌, ◌^◌, ◌==◌, length, lt→ltb,
}
use rignite.Rbc.Tag.{RbcError, signature, io_error}
use rignite.Rbc.View
use rignite.Rbc.View.{ConfigView, get_signature}
use rignite.Rbc.Validate.{new_total}
use rignite.Rbc.Loader.{
  OwnedConfig, Esp, Opened, view, as_regular, check_signature, allocate, verify_and_load,
}
use rignite.Rbc.Atoms.{first_value, view_atoms, find_atom_lem}

get_signature_lem : (v : ConfigView) → get_signature v ≡ ok (first_value signature (view_atoms v))
unfolding get_signature
get_signature_lem v = find_atom_lem v signature

-- A configuration, if there is one, can be viewed and has a signature. There is no fault.
abbrev pub IsSafe : Result RbcError OwnedConfig → Type 0
IsSafe (ok o) = (v : ConfigView) × (s : List ℕ) × (view o ≡ ok v) × (get_signature v ≡ ok (some s))
IsSafe (err e) = Unit
IsSafe (fault x) = ⊥

signed :
    (b : List ℕ) (v : ConfigView) (o : Option (List ℕ))
    → View.new b ≡ ok v
    → get_signature v ≡ ok o
    → IsSafe (check_signature b)
unfolding check_signature view
signed b v none p q = rw (p, q) tt
signed b v (some s) p q = rw (p, q) (v, s, rw p, q)

check_signature-IsSafe : (b : List ℕ) → IsSafe (check_signature b)
check_signature-IsSafe b = elim (new_total b) [
  | inl (h, p) ↦ signed b _ _ p (get_signature_lem _)
  | inr (e, p, h) ↦ unfold check_signature in rw p tt
]

guarded :
    (b : Bool) (e : RbcError) (k : Result RbcError OwnedConfig) → IsSafe k → IsSafe (guard b e >> k)
guarded true e k h = h
guarded false e k h = tt

or_error :
    {A : Type 0} (o : Option A) (e : RbcError) (f : A → Result RbcError OwnedConfig)
    → ((a : A) → IsSafe (f a))
    → IsSafe (ok_or o e >>= f)
or_error none e f h = tt
or_error (some a) e f h = h a

if_regular :
    (o : Option Opened) (k : Result RbcError OwnedConfig) → IsSafe k → IsSafe (as_regular o >> k)
if_regular none k h = tt
if_regular (some Opened.regular) k h = h
if_regular (some Opened.directory) k h = tt

abbrev pub IsSmall : Option ℕ → Type 0
IsSmall none = Unit
IsSmall (some size) = size < 2 ^ 63

-- What follows the size.
sized :
    (esp : Esp) (o : Option ℕ)
    → IsSmall o
    → IsSafe (
        ok_or o io_error >>= λ size.
        allocate size
        >> (ok_or (esp.read size) io_error >>= λ buffer.
            guard (length buffer == size) io_error >> check_signature buffer))
unfolding allocate
sized esp none h = tt
sized esp (some size) h =
    rw (lt→ltb size (2 ^ 63) h)
      (or_error (esp.read size) _ _ λ buffer. guarded _ _ _ (check_signature-IsSafe buffer))

-- Whatever else the firmware answers, the loader does not panic on a file whose stated size, if there
-- is one, is below 2^63, so that its buffer can be asked for. A configuration that it hands out can
-- be viewed, so that the `expect` of `OwnedConfig::view` does not panic on it, and has a signature.
pub verify_and_load-IsSafe : (esp : Esp) → IsSmall esp.file_size → IsSafe (verify_and_load esp)
unfolding verify_and_load allocate
verify_and_load-IsSafe esp small = guarded esp.loaded_image _ _ (
    guarded esp.device _ _ (
      guarded esp.file_system _ _ (
        guarded esp.volume _ _ (
          guarded esp.path_fits _ _ (
            or_error esp.opened _ _
              λ handle. if_regular handle _ (sized esp esp.file_size small))))))
