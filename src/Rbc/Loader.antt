-- ===== src/Rbc/Loader.antt =====
-- src/rbc.rs: `OwnedConfig` and `verify_and_load`. The firmware's answers are arguments: what each
-- call of the `uefi` crate returned, with `none` or `false` for an error.
use rignite.Common.{
  ℕ, Option, some, List, Bool, Result, ok, err, fault, panic, ◌>>=◌, ◌>>◌, ◌==◌, ◌^◌, ltb,
  if◌then◌else◌, length, ok_or, guard,
}
use rignite.Rbc.Tag.{FsType, RbcError, verification_failed, io_error, protocol_error}
use rignite.Rbc.View
use rignite.Rbc.View.{ConfigView, get_signature}

-- The field `data`.
pub record OwnedConfig : Type 0 where
  pub bytes : List ℕ

-- `expect` panics on an error.
abbrev pub expect {ℓ} : {E : Type 0} {A : Type ℓ} → Result E A → Result E A
expect (ok a) = ok a
expect (err e) = fault panic
expect (fault x) = fault x

unfoldable pub view : OwnedConfig → Result RbcError ConfigView
view c = expect (View.new c.bytes)

unfoldable pub get_main_uuid : OwnedConfig → Result RbcError (Option (List ℕ))
get_main_uuid c = do v ← view c; View.get_main_uuid v

unfoldable pub get_main_fs_type : OwnedConfig → Result RbcError (Option FsType)
get_main_fs_type c = do v ← view c; View.get_main_fs_type v

unfoldable pub get_main_kernel_params : OwnedConfig → Result RbcError (Option (List ℕ))
get_main_kernel_params c = do v ← view c; View.get_main_kernel_params v

-- `FileType` after `into_type`.
pub data Opened : Type 0 where
  regular directory : Opened

-- The calls of `verify_and_load`, in order. `read` is given the size of the buffer.
pub record Esp : Type 0 where
  pub loaded_image : Bool
  pub device : Bool
  pub file_system : Bool
  pub volume : Bool
  pub path_fits : Bool
  pub opened : Option (Option Opened)
  pub file_size : Option ℕ
  pub read : ℕ → Option (List ℕ)

abbrev pub as_regular : Option Opened → Result RbcError (Unit {0})
as_regular (some Opened.regular) = ok tt
as_regular _ = err io_error

-- The parse that looks for the signature, and the result.
unfoldable pub check_signature : List ℕ → Result RbcError OwnedConfig
check_signature buffer = do
  temp_view ← View.new buffer
  found ← get_signature temp_view
  signature ← ok_or found verification_failed
  ok (record { bytes = buffer })

-- `vec![0u8; size]` panics above `isize::MAX`.
unfoldable pub allocate : ℕ → Result RbcError (Unit {0})
allocate size = if ltb size (2 ^ 63) then ok tt else fault panic

-- `read_len != size` is an error, so that an accepted buffer is what was read.
unfoldable pub verify_and_load : Esp → Result RbcError OwnedConfig
unfolding check_signature allocate
verify_and_load esp = do
  guard esp.loaded_image protocol_error
  guard esp.device protocol_error
  guard esp.file_system protocol_error
  guard esp.volume protocol_error
  guard esp.path_fits io_error
  handle ← ok_or esp.opened io_error
  as_regular handle
  size ← ok_or esp.file_size io_error
  allocate size
  buffer ← ok_or (esp.read size) io_error
  guard (length buffer == size) io_error
  check_signature buffer
