-- ===== src/Rbc/Writer.antt =====
-- rbc_cli/src/main.rs: from the parsed configuration to the bytes of an RBC file. Reading the
-- arguments and the TOML text, and writing the file, are not modelled.
use rignite.Common.{
  ℕ, ◌+◌, ◌%◌, ◌^◌, Option, none, some, List, [], ◌∷◌, ◌++◌, Result, ok, err, fault, panic, ltb,
  ◌==◌, if◌then◌else◌, length,
}
use rignite.Common.Bytes.{to_le_bytes}
use rignite.Rbc.Tag.{
  Tag, main_uuid, main_fs_type, main_kernel_params, recovery_uuid, recovery_fs_type,
  recovery_kernel_params, signature, as_u16, rbc_magic, rbc_version, header_size,
}

-- A UUID is its 16 bytes, a `String` its UTF-8 bytes.
pub record OsConfig : Type 0 where
  pub uuid : Option (List ℕ)
  pub fs_type : Option ℕ
  pub kernel_params : Option (List ℕ)

pub record Config : Type 0 where
  pub main : Option OsConfig
  pub recovery : Option OsConfig

-- `std::process::exit(1)`.
pub data Exit : Type 0 where
  atom_too_large : Exit

abbrev pub TaggedAtom : Type 0
TaggedAtom = Tag × List ℕ

abbrev pub push_some : Tag → Option (List ℕ) → List TaggedAtom
push_some t none = []
push_some t (some value) = (t, value) ∷ []

abbrev pub fs_type_bytes : Option ℕ → Option (List ℕ)
fs_type_bytes none = none
fs_type_bytes (some t) = some (to_le_bytes 2 t)

unfoldable pub main_atoms : Option OsConfig → List TaggedAtom
main_atoms none = []
main_atoms (some os) =
    push_some main_uuid os.uuid
    ++ (push_some main_fs_type (fs_type_bytes os.fs_type)
        ++ push_some main_kernel_params os.kernel_params)

unfoldable pub recovery_atoms : Option OsConfig → List TaggedAtom
recovery_atoms none = []
recovery_atoms (some os) =
    push_some recovery_uuid os.uuid
    ++ (push_some recovery_fs_type (fs_type_bytes os.fs_type)
        ++ push_some recovery_kernel_params os.kernel_params)

-- "RIGNITE-DEBUG-SIGNATURE"
abbrev pub dummy_signature : List ℕ
dummy_signature =
    0x52 ∷ 0x49 ∷ 0x47 ∷ 0x4E ∷ 0x49 ∷ 0x54 ∷ 0x45 ∷ 0x2D ∷ 0x44 ∷ 0x45 ∷ 0x42 ∷ 0x55 ∷ 0x47 ∷ 0x2D
    ∷ 0x53 ∷ 0x49 ∷ 0x47 ∷ 0x4E ∷ 0x41 ∷ 0x54 ∷ 0x55 ∷ 0x52 ∷ 0x45 ∷ []

unfoldable pub config_atoms : Config → List TaggedAtom
unfolding main_atoms recovery_atoms
config_atoms c =
    main_atoms c.main ++ (recovery_atoms c.recovery ++ ((signature, dummy_signature) ∷ []))

unfoldable pub payload_size : List TaggedAtom → ℕ
payload_size [] = 0
payload_size ((tag, value) ∷ rest) = 2 + 2 + length value + payload_size rest

-- The sixteen bytes before the atoms; `as u32` and `as u16` keep the low bits.
unfoldable pub header : List TaggedAtom → List ℕ
unfolding payload_size
header atoms =
    rbc_magic
    ++ (to_le_bytes 2 rbc_version
        ++ (to_le_bytes 4 ((header_size + payload_size atoms) % 2 ^ 32)
            ++ (to_le_bytes 2 (length atoms % 2 ^ 16) ++ (0 ∷ 0 ∷ 0 ∷ 0 ∷ []))))

unfoldable pub append_atoms : List ℕ → List TaggedAtom → Result Exit (List ℕ)
append_atoms blob [] = ok blob
append_atoms blob ((tag, value) ∷ rest) =
    let tagged = blob ++ to_le_bytes 2 (as_u16 tag) in
    let more = append_atoms ((tagged ++ to_le_bytes 2 (length value % 2 ^ 16)) ++ value) rest in
    if ltb 65535 (length value) then err atom_too_large else more

-- With the assertion on the length of the header.
unfoldable pub serialize : List TaggedAtom → Result Exit (List ℕ)
unfolding header append_atoms
serialize atoms =
    if length (header atoms) == header_size then append_atoms (header atoms) atoms else fault panic
