-- ===== src/Rbc/Examples.antt =====
-- The theorems on src/rbc.rs and rbc_cli/src/main.rs at concrete inputs.
use rignite.Common.{
  ℕ, ◌+◌, ◌<◌, ◌^◌, ◌≡◌, refl, sym, Option, none, some, List, [], ◌∷◌, ◌⊎◌, All, ok, err, arith,
  take, false,
}
use rignite.Rbc.Tag.{
  Tag, Tag-discrete, RbcError, signature, main_uuid, tag_from, as_u16, fs_type_from, fs_type_as_u16,
  codes_preserved,
}
use rignite.Rbc.View.{new, ConfigView, AtomIterator, Atom, next, find_atom}
use rignite.Rbc.Validate.{HasHeader, size_of, new_total}
use rignite.Rbc.Atoms.{IsStep, next_safe, view_atoms, find_atom_lem, first_value}
use rignite.Rbc.Writer.{Config, TaggedAtom, config_atoms, serialize, payload_size}
use rignite.Rbc.RoundTrip.{as_atoms, Fits}
use mathlib.Core.Option.{some-injective}
use rignite.Rbc.Utf8.{is_utf8}
use rignite.Rbc.Sections.{IsValidSection}
use rignite.Rbc.Configured.{serving, blob_of, Agrees, configured, signature_unchecked}
use rignite.Rbc.Loader.{Esp, verify_and_load}
use rignite.Rbc.Viewable.{IsSafe, verify_and_load-IsSafe}

-- A header without atoms, cut short by one byte.
abbrev cut_header : List ℕ
cut_header = 0x52 ∷ 0x47 ∷ 0x4E ∷ 0x21 ∷ 1 ∷ 0 ∷ 16 ∷ 0 ∷ 0 ∷ 0 ∷ 0 ∷ 0 ∷ 0 ∷ 0 ∷ 0 ∷ []

-- An atom of two bytes behind the header, and one whose length passes the end.
abbrev two_atoms : ConfigView
two_atoms = record {
  bytes =
      0x52 ∷ 0x47 ∷ 0x4E ∷ 0x21 ∷ 1 ∷ 0 ∷ 27 ∷ 0 ∷ 0 ∷ 0 ∷ 2 ∷ 0 ∷ 0 ∷ 0 ∷ 0 ∷ 0 ∷ 3 ∷ 0 ∷ 2 ∷ 0
      ∷ 97 ∷ 98 ∷ 1 ∷ 0 ∷ 16 ∷ 0 ∷ 7 ∷ [];
}

abbrev at_first : AtomIterator
at_first = record { bytes = two_atoms.bytes; offset = 16 }

codes_preserved_example :
    (as_u16 (tag_from 0x1234) ≡ 0x1234) × (fs_type_as_u16 (fs_type_from 0x1234) ≡ 0x1234)
codes_preserved_example = codes_preserved 0x1234

new_total_example :
    (HasHeader cut_header
      × (new cut_header ≡ ok (record { bytes = take (size_of cut_header) cut_header })))
    ⊎ ((e : RbcError) × (new cut_header ≡ err e) × ¬ HasHeader cut_header)
new_total_example = new_total cut_header

next_safe_example : (r : Option Atom × AtomIterator) × (next at_first ≡ ok r) × IsStep at_first r
next_safe_example = next_safe at_first

find_atom_lem_example :
    find_atom two_atoms Tag.main_kernel_params
    ≡ ok (first_value Tag.main_kernel_params (view_atoms two_atoms))
find_atom_lem_example = find_atom_lem two_atoms Tag.main_kernel_params

-- The volume does not open.
abbrev no_volume : Esp
no_volume = record (serving two_atoms.bytes) { volume = false }

verify_and_load-IsSafe_example : IsSafe (verify_and_load no_volume)
verify_and_load-IsSafe_example = verify_and_load-IsSafe no_volume (omega arith)

abbrev two_atom_list : List TaggedAtom
two_atom_list = (main_uuid, 7 ∷ []) ∷ (signature, 1 ∷ 2 ∷ []) ∷ []

two_atom_list-Fits : All Fits two_atom_list
unfolding tag_from as_u16
two_atom_list-Fits = ((refl, omega arith, omega arith), ((refl, omega arith, omega arith), tt))

two_atom_list-size : 16 + payload_size two_atom_list < 2 ^ 32
unfolding payload_size
two_atom_list-size = omega arith

two_atom_list-signature : first_value signature (as_atoms two_atom_list) ≡ some (1 ∷ 2 ∷ [])
unfolding first_value Tag-discrete
two_atom_list-signature = refl

signature_unchecked_example :
    verify_and_load (serving (blob_of two_atom_list))
    ≡ ok (record { bytes = blob_of two_atom_list })
signature_unchecked_example =
    signature_unchecked two_atom_list (1 ∷ 2 ∷ []) two_atom_list-Fits two_atom_list-size
      two_atom_list-signature

-- A main system with parameters, and no recovery system.
abbrev main_only : Config
main_only = record {
  main = some (record { uuid = none; fs_type = some 0x10; kernel_params = some (113 ∷ 105 ∷ []) });
  recovery = none;
}

main_only-main : IsValidSection main_only.main
unfolding is_utf8
main_only-main = record {
  uuid = λ u e. cc;
  fs_type = λ t e. let i = some-injective _ _ e in omega (arith, i);
  params = λ p e. rw (sym (some-injective _ _ e)) (omega arith, refl);
}

configured_example :
    (blob : List ℕ) × (v : ConfigView) × (serialize (config_atoms main_only) ≡ ok blob)
    × (verify_and_load (serving blob) ≡ ok (record { bytes = blob }))
    × Agrees main_only (record { bytes = blob }) v
configured_example = configured main_only main_only-main tt
