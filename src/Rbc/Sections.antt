-- ===== src/Rbc/Sections.antt =====
-- rbc_cli/src/main.rs: what the atoms of a configuration hold under each tag, and their sizes.
use rignite.Common.{
  ℕ, ◌<◌, ◌≡◌, refl, sym, ap, Option, none, some, List, [], ◌∷◌, ◌++◌, true, arith, length, ite,
}
use rignite.Rbc.Tag.{
  Tag, main_uuid, main_fs_type, main_kernel_params, recovery_uuid, recovery_fs_type,
  recovery_kernel_params, signature, Tag-discrete, FsType, fs_type_from,
}
use rignite.Rbc.Utf8.{is_utf8}
use rignite.Rbc.View.{Atom}
use rignite.Rbc.Writer.{
  OsConfig, Config, TaggedAtom, push_some, fs_type_bytes, main_atoms, recovery_atoms,
  dummy_signature, config_atoms,
}
use rignite.Rbc.Atoms.{first_value}
use rignite.Rbc.RoundTrip.{as_atoms}
use mathlib.Core.Option.{Option}

-- What a valid section holds: a UUID of 16 bytes, a 16-bit code, a text that an atom can hold.
pub record IsValidOs (os : OsConfig) : Type 0 where
  pub uuid : (u : List ℕ) → os.uuid ≡ some u → length u ≡ 16
  pub fs_type : (t : ℕ) → os.fs_type ≡ some t → t < 65536
  pub params : (p : List ℕ) → os.kernel_params ≡ some p → (length p < 65536) × (is_utf8 p ≡ true)

abbrev pub IsValidSection : Option OsConfig → Type 0
IsValidSection none = Unit
IsValidSection (some os) = IsValidOs os

abbrev pub uuid_of : Option OsConfig → Option (List ℕ)
uuid_of none = none
uuid_of (some os) = os.uuid

abbrev pub code_of : Option OsConfig → Option ℕ
code_of none = none
code_of (some os) = os.fs_type

abbrev pub params_of : Option OsConfig → Option (List ℕ)
params_of none = none
params_of (some os) = os.kernel_params

abbrev pub fs_type_of : Option ℕ → Option FsType
fs_type_of none = none
fs_type_of (some t) = some (fs_type_from t)

abbrev pub or_else : Option (List ℕ) → Option (List ℕ) → Option (List ℕ)
or_else none o = o
or_else (some v) o = some v

as_atoms-append : (a b : List TaggedAtom) → as_atoms (a ++ b) ≡ as_atoms a ++ as_atoms b
as_atoms-append [] b = refl
as_atoms-append ((t, v) ∷ a) b = ap (λ r. record { tag = t; value = v } ∷ r) (as_atoms-append a b)

first_value-append :
    (t : Tag) (a b : List Atom)
    → first_value t (a ++ b) ≡ or_else (first_value t a) (first_value t b)
unfolding first_value
first_value-append t [] b = refl
first_value-append t (x ∷ a) b = ground (arith, first_value-append t a b)

-- What the atoms of a section hold under each tag.
abbrev pub main_value : Option OsConfig → Tag → Option (List ℕ)
main_value os main_uuid = uuid_of os
main_value os main_fs_type = fs_type_bytes (code_of os)
main_value os main_kernel_params = params_of os
main_value os _ = none

abbrev pub recovery_value : Option OsConfig → Tag → Option (List ℕ)
recovery_value os recovery_uuid = uuid_of os
recovery_value os recovery_fs_type = fs_type_bytes (code_of os)
recovery_value os recovery_kernel_params = params_of os
recovery_value os _ = none

push_some-value :
    (t u : Tag) (o : Option (List ℕ))
    → first_value t (as_atoms (push_some u o)) ≡ ite (Tag-discrete u t) o none
unfolding first_value
push_some-value t u none = ground arith
push_some-value t u (some v) = ground arith

main_pick :
    (os : OsConfig) (t : Tag)
    → or_else (ite (Tag-discrete main_uuid t) os.uuid none) (
        or_else
          (ite (Tag-discrete main_fs_type t) (fs_type_bytes os.fs_type) none)
          (ite (Tag-discrete main_kernel_params t) os.kernel_params none))
      ≡ main_value (some os) t
unfolding Tag-discrete
main_pick os main_uuid = ground arith
main_pick os main_fs_type = ground arith
main_pick os main_kernel_params = ground arith
main_pick os recovery_uuid = ground arith
main_pick os recovery_fs_type = ground arith
main_pick os recovery_kernel_params = ground arith
main_pick os signature = ground arith
main_pick os (Tag.unknown x) = ground arith

main_none : (t : Tag) → main_value none t ≡ none
main_none main_uuid = refl
main_none main_fs_type = refl
main_none main_kernel_params = refl
main_none recovery_uuid = refl
main_none recovery_fs_type = refl
main_none recovery_kernel_params = refl
main_none signature = refl
main_none (Tag.unknown x) = refl

main_atoms-value :
    (os : Option OsConfig) (t : Tag) → first_value t (as_atoms (main_atoms os)) ≡ main_value os t
unfolding main_atoms
main_atoms-value none t = unfold first_value in sym (main_none t)
main_atoms-value (some os) t =
    rw
      (
        as_atoms-append,
        first_value-append,
        as_atoms-append,
        first_value-append,
        push_some-value t main_uuid,
        push_some-value t main_fs_type,
        push_some-value t main_kernel_params,
      )
      (main_pick os t)

recovery_pick :
    (os : OsConfig) (t : Tag)
    → or_else (ite (Tag-discrete recovery_uuid t) os.uuid none) (
        or_else
          (ite (Tag-discrete recovery_fs_type t) (fs_type_bytes os.fs_type) none)
          (ite (Tag-discrete recovery_kernel_params t) os.kernel_params none))
      ≡ recovery_value (some os) t
unfolding Tag-discrete
recovery_pick os main_uuid = ground arith
recovery_pick os main_fs_type = ground arith
recovery_pick os main_kernel_params = ground arith
recovery_pick os recovery_uuid = ground arith
recovery_pick os recovery_fs_type = ground arith
recovery_pick os recovery_kernel_params = ground arith
recovery_pick os signature = ground arith
recovery_pick os (Tag.unknown x) = ground arith

recovery_none : (t : Tag) → recovery_value none t ≡ none
recovery_none main_uuid = refl
recovery_none main_fs_type = refl
recovery_none main_kernel_params = refl
recovery_none recovery_uuid = refl
recovery_none recovery_fs_type = refl
recovery_none recovery_kernel_params = refl
recovery_none signature = refl
recovery_none (Tag.unknown x) = refl

recovery_atoms-value :
    (os : Option OsConfig) (t : Tag)
    → first_value t (as_atoms (recovery_atoms os)) ≡ recovery_value os t
unfolding recovery_atoms
recovery_atoms-value none t = unfold first_value in sym (recovery_none t)
recovery_atoms-value (some os) t =
    rw
      (
        as_atoms-append,
        first_value-append,
        as_atoms-append,
        first_value-append,
        push_some-value t recovery_uuid,
        push_some-value t recovery_fs_type,
        push_some-value t recovery_kernel_params,
      )
      (recovery_pick os t)

-- What a configuration holds under each tag.
abbrev pub config_value : Config → Tag → Option (List ℕ)
config_value c main_uuid = uuid_of c.main
config_value c main_fs_type = fs_type_bytes (code_of c.main)
config_value c main_kernel_params = params_of c.main
config_value c recovery_uuid = uuid_of c.recovery
config_value c recovery_fs_type = fs_type_bytes (code_of c.recovery)
config_value c recovery_kernel_params = params_of c.recovery
config_value c signature = some dummy_signature
config_value c (Tag.unknown x) = none

config_pick :
    (c : Config) (t : Tag)
    → or_else (main_value c.main t) (
        or_else
          (recovery_value c.recovery t)
          (ite (Tag-discrete signature t) (some dummy_signature) none))
      ≡ config_value c t
unfolding Tag-discrete
config_pick c main_uuid = ground arith
config_pick c main_fs_type = ground arith
config_pick c main_kernel_params = ground arith
config_pick c recovery_uuid = ground arith
config_pick c recovery_fs_type = ground arith
config_pick c recovery_kernel_params = ground arith
config_pick c signature = ground arith
config_pick c (Tag.unknown x) = ground arith

pub config_atoms-value :
    (c : Config) (t : Tag) → first_value t (as_atoms (config_atoms c)) ≡ config_value c t
unfolding config_atoms
config_atoms-value c t =
    rw
      (
        as_atoms-append,
        first_value-append,
        as_atoms-append,
        first_value-append,
        main_atoms-value,
        recovery_atoms-value,
        push_some-value t signature (some dummy_signature),
      )
      (config_pick c t)
