-- ===== src/Boot/DevicePath.antt =====
-- src/boot/mod.rs: the device path that `boot_efi_app` puts together: the nodes of the volume, the
-- node of the file, the end node.
use rignite.Common.{
  ℕ, zero, suc, ◌+◌, ◌*◌, ◌/◌, ◌%◌, List, [], ◌∷◌, ◌++◌, ok, fault, wild, out_of_fuel, ◌>>=◌, ◌&&◌,
  ◌==◌, leb, if◌then◌else◌, length, take, drop,
}
use rignite.Common.Text.{Text, starts_with, replace, encode_utf16, unit_bytes}
use rignite.Btrfs.Layout.{M}

abbrev pub end_node : List ℕ
end_node = 0x7f ∷ 0xff ∷ 0x04 ∷ 0x00 ∷ []

-- `slice::from_raw_parts(src_ptr, len)`
unfoldable pub raw_part : List ℕ → ℕ → M (List ℕ)
raw_part memory len = if leb len (length memory) then ok (take len memory) else fault wild

-- Two bytes behind a pointer.
abbrev pub two : List ℕ → M (ℕ × ℕ)
two (a ∷ b ∷ rest) = ok (a, b)
two _ = fault wild

-- The loop over the nodes, on fuel, from the memory at `src_ptr` on. A node of length 0 repeats for
-- ever.
unfoldable pub copy_nodes : ℕ → List ℕ → M (List ℕ)
unfolding raw_part
copy_nodes zero memory = fault out_of_fuel
copy_nodes (suc fuel) memory = do
  (type_, subtype) ← two memory
  if type_ == 0x7f && subtype == 0xff then ok [] else do
    (len_lo, len_hi) ← two (drop 2 memory)
    let len = len_hi * 256 + len_lo
    node_slice ← raw_part memory len
    rest ← copy_nodes fuel (drop len memory)
    ok (node_slice ++ rest)

abbrev pub clean_path : Text → Text
clean_path path_str =
    let clean = replace b'/' b'\\' path_str in
    if starts_with clean (b'\\' ∷ []) then clean else b'\\' ∷ clean

abbrev pub path_u16 : Text → List ℕ
path_u16 path_str = encode_utf16 (clean_path path_str) ++ (0 ∷ [])

abbrev pub node_size : Text → ℕ
node_size path_str = 4 + length (path_u16 path_str) * 2

unfoldable pub file_node : Text → List ℕ
file_node path_str =
    0x04
    ∷ 0x04
    ∷ node_size path_str % 256
    ∷ node_size path_str / 256 % 256
    ∷ unit_bytes (path_u16 path_str)

unfoldable pub device_path : ℕ → List ℕ → Text → M (List ℕ)
unfolding copy_nodes file_node
device_path fuel volume path_str = do
  nodes ← copy_nodes fuel volume
  ok (nodes ++ (file_node path_str ++ end_node))
