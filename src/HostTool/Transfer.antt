-- ===== src/HostTool/Transfer.antt =====
-- src/host_test_tool/src/main.rs: the transfer in `handle_accessory_mode`. What `read_bulk` gives,
-- call after call, is a list; SHA-256 is an argument, a function of all the bytes it was updated by.
use rignite.Common.{
  ℕ, ◌+◌, ◌-◌, ◌%◌, ◌^◌, Option, none, some, List, [], ◌∷◌, ◌++◌, Result, ok, err, fault,
  out_of_fuel, ◌>>=◌, ltb, bytes_eq, if◌then◌else◌, length, drop,
}
use rignite.Common.Text.{starts_with}
use rignite.Common.Bytes.{slice, from_le_bytes}

-- `rusb::Error`, as far as the code names it.
pub data UsbError : Type 0 where
  timeout no_device io not_found : UsbError
  other : ℕ → UsbError

-- The errors of the tool; `header_split` says how many bytes there are from the magic on.
pub data ToolError : Type 0 where
  usb : UsbError → ToolError
  header_split : ℕ → ToolError
  no_interfaces no_descriptor no_endpoint protocol_unread no_accessory checksum_failed : ToolError

abbrev pub E {ℓ} : Type ℓ → Type ℓ
E A = Result ToolError A

-- One call of `read_bulk`: the bytes that it put at the front of the buffer, or an error.
pub data Reading : Type 0 where
  packet : List ℕ → Reading
  failed : UsbError → Reading

-- "RDF!"
abbrev pub magic : List ℕ
magic = 0x52 ∷ 0x44 ∷ 0x46 ∷ 0x21 ∷ []

-- `windows(4).position`
unfoldable pub find_magic : List ℕ → Option ℕ
find_magic [] = none
find_magic (b ∷ bs) =
    let rest = find_magic bs in
    if starts_with (b ∷ bs) magic then some 0 else elim rest [ none ↦ none | some i ↦ some (i + 1) ]

-- The packet with the magic, the offset of the magic, and the calls that are left. An empty packet
-- has no magic.
unfoldable pub scan : List Reading → E (List ℕ × ℕ × List Reading)
unfolding find_magic
scan [] = fault out_of_fuel
scan (failed timeout ∷ later) = scan later
scan (failed e ∷ later) = err (usb e)
scan (packet bytes ∷ later) =
    let rest = scan later in
    elim (find_magic bytes) [ none ↦ rest | some offset ↦ ok (bytes, offset, later) ]

abbrev pub u64 : ℕ → ℕ
u64 n = n % 2 ^ 64

-- The loop that receives: `total_received`, and the bytes that the hash has seen.
unfoldable pub receive : ℕ → ℕ → List ℕ → List Reading → E (List ℕ)
receive image_size total hashed [] = if ltb total image_size then fault out_of_fuel else ok hashed
receive image_size total hashed (failed e ∷ later) =
    if ltb total image_size then err (usb e) else ok hashed
receive image_size total hashed (packet bytes ∷ later) =
    let rest = receive image_size (u64 (total + length bytes)) (hashed ++ bytes) later in
    if ltb total image_size then rest else ok hashed

abbrev pub header_end : ℕ → ℕ
header_end magic_offset = magic_offset + 128

module _ (sha256 : List ℕ → List ℕ) where
  unfoldable pub transfer : List Reading → E (Unit {0})
  unfolding scan receive
  transfer readings = do
    (buffer, magic_offset, later) ← scan readings
    if ltb (length buffer - magic_offset) 128
        then err (header_split (length buffer - magic_offset))
        else do
          header_slice ← slice buffer magic_offset (magic_offset + 128)
          size_bytes ← slice header_slice 4 12
          expected_checksum ← slice header_slice 12 44
          let payload = drop (header_end magic_offset) buffer
          received ← receive (from_le_bytes size_bytes) (length payload) payload later
          if bytes_eq (sha256 received) expected_checksum then ok tt else err checksum_failed
