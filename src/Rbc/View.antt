-- ===== src/Rbc/View.antt =====
-- src/rbc.rs: `ConfigView`, the iterator over the atoms and the accessors. Offsets are `usize`;
-- a Rust slice is shorter than 2^63 bytes, so their sums do not wrap.
use rignite.Common.{
  ℕ, zero, suc, ◌+◌, Option, none, some, List, not, ite, Result, ok, err, fault, out_of_fuel, ◌>>=◌,
  ltb, ◌==◌, bytes_eq, if◌then◌else◌, length,
}
use rignite.Common.Bytes.{slice, from_le_bytes}
use rignite.Rbc.Tag.{
  Tag, main_uuid, main_fs_type, main_kernel_params, recovery_uuid, recovery_fs_type,
  recovery_kernel_params, signature, tag_from, Tag-discrete, FsType, fs_type_from, RbcError,
  buffer_too_small, invalid_magic, unsupported_version, invalid_size, utf8_error, rbc_magic,
  rbc_version, header_size,
}
use rignite.Rbc.Utf8.{from_utf8}

-- The field `data`.
pub record ConfigView : Type 0 where
  pub bytes : List ℕ

unfoldable pub new : List ℕ → Result RbcError ConfigView
new bytes = if ltb (length bytes) header_size then err buffer_too_small else do
  magic ← slice bytes 0 4
  if not (bytes_eq magic rbc_magic) then err invalid_magic else do
    version ← slice bytes 4 6
    if not (from_le_bytes version == rbc_version) then err unsupported_version else do
      size ← slice bytes 6 10
      let total_size = from_le_bytes size
      if ltb (length bytes) total_size
          then err invalid_size
          else do valid ← slice bytes 0 total_size; ok (record { bytes = valid })

pub record Atom : Type 0 where
  pub tag : Tag
  pub value : List ℕ

pub record AtomIterator : Type 0 where
  pub bytes : List ℕ
  pub offset : ℕ

unfoldable pub atoms : ConfigView → AtomIterator
atoms v = record { bytes = v.bytes; offset = header_size }

-- The item, and the iterator after the call.
unfoldable pub next : AtomIterator → Result RbcError (Option Atom × AtomIterator)
next it = if ltb (length it.bytes) (it.offset + 4) then ok (none, it) else do
  tag_raw ← slice it.bytes it.offset (it.offset + 2)
  length_raw ← slice it.bytes (it.offset + 2) (it.offset + 4)
  let value_start = it.offset + 4
  let value_end = value_start + from_le_bytes length_raw
  if ltb (length it.bytes) value_end then ok (none, it) else do
    value ← slice it.bytes value_start value_end
    ok (
      some (record { tag = tag_from (from_le_bytes tag_raw); value = value }),
      record it { offset = value_end },
    )

-- The loop of `find_atom`, on fuel.
unfoldable pub find_loop : ℕ → AtomIterator → Tag → Result RbcError (Option (List ℕ))
find_loop zero it target = fault out_of_fuel
find_loop (suc fuel) it target = do
  (item, it') ← next it
  let rest = find_loop fuel it' target
  elim item [
    | none ↦ ok none
    | some atom ↦ ite (Tag-discrete atom.tag target) (ok (some atom.value)) rest
  ]

-- Every item takes 4 bytes at least, so that one round for each byte is enough.
unfoldable pub find_atom : ConfigView → Tag → Result RbcError (Option (List ℕ))
unfolding atoms
find_atom v target = find_loop (suc (length v.bytes)) (atoms v) target

unfoldable pub as_uuid : Option (List ℕ) → Option (List ℕ)
as_uuid none = none
as_uuid (some val) = if length val == 16 then some val else none

unfoldable pub as_fs_type : Option (List ℕ) → Option FsType
as_fs_type none = none
as_fs_type (some val) = if length val == 2 then some (fs_type_from (from_le_bytes val)) else none

unfoldable pub as_params : Option (List ℕ) → Result RbcError (Option (List ℕ))
as_params none = ok none
as_params (some bytes) = elim (from_utf8 bytes) [ some s ↦ ok (some s) | none ↦ err utf8_error ]

unfoldable pub get_main_uuid : ConfigView → Result RbcError (Option (List ℕ))
get_main_uuid v = do val ← find_atom v main_uuid; ok (as_uuid val)

unfoldable pub get_main_fs_type : ConfigView → Result RbcError (Option FsType)
get_main_fs_type v = do val ← find_atom v main_fs_type; ok (as_fs_type val)

unfoldable pub get_main_kernel_params : ConfigView → Result RbcError (Option (List ℕ))
get_main_kernel_params v = do val ← find_atom v main_kernel_params; as_params val

unfoldable pub get_recovery_uuid : ConfigView → Result RbcError (Option (List ℕ))
get_recovery_uuid v = do val ← find_atom v recovery_uuid; ok (as_uuid val)

unfoldable pub get_recovery_fs_type : ConfigView → Result RbcError (Option FsType)
get_recovery_fs_type v = do val ← find_atom v recovery_fs_type; ok (as_fs_type val)

unfoldable pub get_recovery_kernel_params : ConfigView → Result RbcError (Option (List ℕ))
get_recovery_kernel_params v = do val ← find_atom v recovery_kernel_params; as_params val

unfoldable pub get_signature : ConfigView → Result RbcError (Option (List ℕ))
get_signature v = find_atom v signature
