-- ===== src/Rbc/Configured.antt =====
-- From a configuration through rbc_cli/src/main.rs and the loader of src/rbc.rs to its accessors.
use rignite.Common.{
  ℕ, ◌+◌, ◌^◌, ◌<◌, ◌≡◌, refl, ap, ◌∙◌, Option, none, some, List, ◌++◌, ok, true, arith, length,
  All, ==_refl, lt→ltb,
}
use rignite.Common.Bytes.{to_le_bytes, from_le_bytes-to_le_bytes, length-to_le_bytes}
use rignite.Rbc.Tag.{
  Tag, main_uuid, main_fs_type, main_kernel_params, recovery_uuid, recovery_fs_type,
  recovery_kernel_params, signature,
}
use rignite.Rbc.Utf8.{is_utf8, from_utf8}
use rignite.Rbc.View
use rignite.Rbc.View.{ConfigView, find_atom, as_uuid, as_fs_type, as_params, get_signature}
use rignite.Rbc.Writer.{
  OsConfig, Config, TaggedAtom, fs_type_bytes, config_atoms, payload_size, header, serialize,
}
use rignite.Rbc.Loader.{OwnedConfig, Esp, Opened, view, allocate, verify_and_load}
use rignite.Rbc.Loader
use rignite.Rbc.Atoms.{first_value, find_atom_lem}
use rignite.Rbc.RoundTrip.{
  Fits, encoded, length-encoded, as_atoms, whole, serialize-encoded, new-serialized,
  view_atoms-whole,
}
use rignite.Rbc.Sizes.{config_atoms-Fits, config_atoms-size}
use rignite.Rbc.Sections.{
  IsValidSection, uuid_of, code_of, params_of, fs_type_of, config_value, config_atoms-value,
}

-- Firmware that serves the file `b`.
abbrev pub serving : List ℕ → Esp
serving b = record {
  loaded_image = true;
  device = true;
  file_system = true;
  volume = true;
  path_fits = true;
  opened = some (some Opened.regular);
  file_size = some (length b);
  read = λ n. some b;
}

abbrev pub blob_of : List TaggedAtom → List ℕ
blob_of l = header l ++ encoded l

find_atom-whole :
    (l : List TaggedAtom) (t : Tag)
    → All Fits l
    → find_atom (whole l) t ≡ ok (first_value t (as_atoms l))
find_atom-whole l t h = find_atom_lem (whole l) t ∙ rw (view_atoms-whole l h)

length-blob_of : (l : List TaggedAtom) → length (blob_of l) ≡ 16 + payload_size l
unfolding header to_le_bytes
length-blob_of l = omega (arith, length-encoded l)

-- The loader asks of the signature only that there is one: whatever its bytes are, it hands out a
-- well-formed file with a signature atom.
pub signature_unchecked :
    (l : List TaggedAtom) (s : List ℕ)
    → All Fits l
    → 16 + payload_size l < 2 ^ 32
    → first_value signature (as_atoms l) ≡ some s
    → verify_and_load (serving (blob_of l)) ≡ ok (record { bytes = blob_of l })
unfolding verify_and_load allocate get_signature
signature_unchecked l s h k e =
    let small : length (blob_of l) < 2 ^ 63 = omega (arith, length-blob_of l, k) in
    rw (
      lt→ltb (length (blob_of l)) (2 ^ 63) small,
      ==_refl (length (blob_of l)),
      new-serialized l k,
      find_atom-whole l signature h,
      e,
    )

uuid_read : (o : Option (List ℕ)) → ((u : List ℕ) → o ≡ some u → length u ≡ 16) → as_uuid o ≡ o
unfolding as_uuid
uuid_read none h = refl
uuid_read (some u) h = rw (h u refl)

fs_type_read :
    (o : Option ℕ)
    → ((t : ℕ) → o ≡ some t → t < 65536)
    → as_fs_type (fs_type_bytes o) ≡ fs_type_of o
unfolding as_fs_type
fs_type_read none h = refl
fs_type_read (some t) h =
    rw (length-to_le_bytes 2 t, from_le_bytes-to_le_bytes 2 t (omega (arith, h t refl)))

params_read :
    (o : Option (List ℕ)) → ((p : List ℕ) → o ≡ some p → is_utf8 p ≡ true) → as_params o ≡ ok o
unfolding as_params from_utf8
params_read none h = refl
params_read (some p) h = rw (h p refl, as_params)

valid_uuid :
    (s : Option OsConfig) → IsValidSection s → (u : List ℕ) → uuid_of s ≡ some u → length u ≡ 16
valid_uuid none h u e = cc
valid_uuid (some os) h u e = h.uuid u e

valid_code : (s : Option OsConfig) → IsValidSection s → (t : ℕ) → code_of s ≡ some t → t < 65536
valid_code none h t e = cc
valid_code (some os) h t e = h.fs_type t e

valid_params :
    (s : Option OsConfig)
    → IsValidSection s
    → (p : List ℕ) → params_of s ≡ some p
    → is_utf8 p ≡ true
valid_params none h p e = cc
valid_params (some os) h p e = (h.params p e).1

-- The accessors of the loaded configuration give what the configuration says.
pub record Agrees (c : Config) (o : OwnedConfig) (v : ConfigView) : Type 0 where
  pub viewed : view o ≡ ok v
  pub main_uuid : Loader.get_main_uuid o ≡ ok (uuid_of c.main)
  pub main_fs_type : Loader.get_main_fs_type o ≡ ok (fs_type_of (code_of c.main))
  pub main_params : Loader.get_main_kernel_params o ≡ ok (params_of c.main)
  pub recovery_uuid : View.get_recovery_uuid v ≡ ok (uuid_of c.recovery)
  pub recovery_fs_type : View.get_recovery_fs_type v ≡ ok (fs_type_of (code_of c.recovery))
  pub recovery_params : View.get_recovery_kernel_params v ≡ ok (params_of c.recovery)

module _ (c : Config) (hm : IsValidSection c.main) (hr : IsValidSection c.recovery) where
  abbrev blob : List ℕ
  blob = blob_of (config_atoms c)

  abbrev loaded : OwnedConfig
  loaded = record { bytes = blob }

  fits : All Fits (config_atoms c)
  fits = config_atoms-Fits c hm hr

  viewed : view loaded ≡ ok (whole (config_atoms c))
  unfolding view
  viewed = rw (new-serialized (config_atoms c) (config_atoms-size c hm hr))

  found : (t : Tag) → find_atom (whole (config_atoms c)) t ≡ ok (config_value c t)
  found t = find_atom-whole (config_atoms c) t fits ∙ rw config_atoms-value

  agrees : Agrees c loaded (whole (config_atoms c))
  agrees = record {
    viewed = viewed;
    main_uuid =
        unfold Loader.get_main_uuid View.get_main_uuid in
        rw (viewed, found main_uuid) (ap ok (uuid_read (uuid_of c.main) (valid_uuid c.main hm)));
    main_fs_type =
        unfold Loader.get_main_fs_type View.get_main_fs_type in
        rw (viewed, found main_fs_type)
          (ap ok (fs_type_read (code_of c.main) (valid_code c.main hm)));
    main_params =
        unfold Loader.get_main_kernel_params View.get_main_kernel_params in
        rw (viewed, found main_kernel_params)
          (params_read (params_of c.main) (valid_params c.main hm));
    recovery_uuid =
        unfold View.get_recovery_uuid in
        rw (found recovery_uuid)
          (ap ok (uuid_read (uuid_of c.recovery) (valid_uuid c.recovery hr)));
    recovery_fs_type =
        unfold View.get_recovery_fs_type in
        rw (found recovery_fs_type)
          (ap ok (fs_type_read (code_of c.recovery) (valid_code c.recovery hr)));
    recovery_params =
        unfold View.get_recovery_kernel_params in
        rw (found recovery_kernel_params)
          (params_read (params_of c.recovery) (valid_params c.recovery hr));
  }

-- For every configuration with 16-byte UUIDs, 16-bit filesystem codes and UTF-8 parameters of less
-- than 64 KiB the writer succeeds, the loader accepts the file that it wrote, and each accessor of
-- the loaded configuration gives what the configuration said, for both sections.
pub configured :
    (c : Config)
    → IsValidSection c.main
    → IsValidSection c.recovery
    → (blob : List ℕ) × (v : ConfigView) × (serialize (config_atoms c) ≡ ok blob)
      × (verify_and_load (serving blob) ≡ ok (record { bytes = blob }))
      × Agrees c (record { bytes = blob }) v
configured c hm hr =
    let l = config_atoms c in
    (
      blob_of l,
      whole l,
      serialize-encoded l (config_atoms-Fits c hm hr),
      signature_unchecked l _ (config_atoms-Fits c hm hr) (config_atoms-size c hm hr)
          (config_atoms-value c signature),
      agrees c hm hr,
    )
