-- ===== src/Btrfs/Mount.antt =====
-- src/fs/btrfs.rs: `Btrfs::new`, the loading of the chunk map, and the label and UUID.
use rignite.Common.{
  ℕ, zero, suc, ◌+◌, ◌*◌, ◌/◌, ◌%◌, Option, none, some, List, [], ◌∷◌, ◌++◌, ok, err, fault,
  out_of_fuel, ◌>>=◌, ◌>>◌, ltb, ◌==◌, bytes_eq, if◌then◌else◌, not,
}
use rignite.Btrfs.Layout.{
  M, btrfs_signature, super_info_offset, chunk_item_key, key_size, header_size, item_size,
  chunk_size, stripe_size, super_block_size, peek,
}
use rignite.Btrfs.Decode.{
  read_key, read_chunk, read_stripe, read_header, read_item, decode_super_block,
}
use rignite.Btrfs.Volume.{BlockIo, ChunkMap, Btrfs, allocate, nonzero, read_logical}

-- The loop of `load_sys_chunks` on fuel, over the `sys_chunk_array`.
unfoldable pub sys_chunks_loop : ℕ → List ℕ → ℕ → ℕ → List ChunkMap → M (List ChunkMap)
sys_chunks_loop zero array limit offset chunks = fault out_of_fuel
sys_chunks_loop (suc fuel) array limit offset chunks =
    if not (ltb offset limit) then ok chunks else do
      key ← read_key array offset
      if not (key.type_ == chunk_item_key) then ok chunks else do
        chunk ← read_chunk array (offset + key_size)
        stripe ← read_stripe array (offset + key_size + chunk_size)
        sys_chunks_loop fuel array limit
            (offset + key_size + chunk_size + chunk.num_stripes * stripe_size)
            (chunks
              ++ (record { logical = key.offset; length = chunk.length; physical = stripe.offset }
                  ∷ []))

-- Every round moves on by 65 bytes at least.
unfoldable pub load_sys_chunks : Btrfs → M Btrfs
unfolding sys_chunks_loop
load_sys_chunks fs = do
  let limit = fs.sb.sys_chunk_array_size
  chunks ← sys_chunks_loop (suc limit) fs.sb.sys_chunk_array limit 0 fs.chunks
  ok (record fs { chunks = chunks })

-- The loop over the items of the leaf: `n` items are left, from the item `i` on.
unfoldable pub chunk_items : List ℕ → ℕ → ℕ → List ChunkMap → M (List ChunkMap)
chunk_items node zero i chunks = ok chunks
chunk_items node (suc n) i chunks = do
  item ← read_item node (header_size + i * item_size)
  let rest = chunk_items node n (i + 1)
  if not (item.key.type_ == chunk_item_key) then rest chunks else do
    chunk ← read_chunk node (header_size + item.offset)
    stripe ← read_stripe node (header_size + item.offset + chunk_size)
    rest (
        chunks
        ++ (record { logical = item.key.offset; length = chunk.length; physical = stripe.offset }
            ∷ []))

unfoldable pub load_chunk_tree : Btrfs → M Btrfs
unfolding chunk_items
load_chunk_tree fs = do
  let node_size = fs.sb.nodesize
  allocate node_size
  node ← read_logical fs fs.sb.chunk_root node_size node_size
  header ← read_header node 0
  if not (header.level == 0) then ok fs else do
    chunks ← chunk_items node header.nritems 0 fs.chunks
    ok (record fs { chunks = chunks })

-- An error of `load_chunk_tree` is logged, and the chunks stay as they were.
abbrev keep_on_error : Btrfs → M Btrfs → M (Option Btrfs)
keep_on_error fs (ok fs') = ok (some fs')
keep_on_error fs (err e) = ok (some fs)
keep_on_error fs (fault x) = fault x

-- `none` where there is no Btrfs.
unfoldable pub new : BlockIo → M (Option Btrfs)
unfolding load_sys_chunks load_chunk_tree
new io = do
  nonzero io.block_size
  buffer ← io.read_blocks (super_info_offset / io.block_size) 4096
  bytes ← peek buffer 0 super_block_size
  let sb = decode_super_block bytes
  if not (bytes_eq sb.magic btrfs_signature) then ok none else do
    fs ← load_sys_chunks (record { block_io = io; sb = sb; chunks = [] })
    keep_on_error fs (load_chunk_tree fs)

unfoldable pub until_nul : List ℕ → List ℕ
until_nul [] = []
until_nul (c ∷ cs) = let rest = until_nul cs in if c == 0 then [] else c ∷ rest

-- `String::from_utf8_lossy` is the argument.
unfoldable pub get_label : (List ℕ → List ℕ) → Btrfs → List ℕ
unfolding until_nul
get_label from_utf8_lossy fs = from_utf8_lossy (until_nul fs.sb.label)

abbrev hex_digit : ℕ → ℕ
hex_digit d = if ltb d 10 then 48 + d else 87 + d

-- `{:02x}`
abbrev pub hex_byte : ℕ → List ℕ
hex_byte b = hex_digit (b / 16) ∷ hex_digit (b % 16) ∷ []

abbrev pub hex_bytes : List ℕ → List ℕ
hex_bytes [] = []
hex_bytes (b ∷ bs) = hex_byte b ++ hex_bytes bs

-- The UUID in groups of 4, 2, 2, 2 and 6 bytes, with dashes between.
unfoldable pub uuid_text : List ℕ → List ℕ
uuid_text (a ∷ b ∷ c ∷ d ∷ e ∷ f ∷ g ∷ h ∷ i ∷ j ∷ rest) =
    hex_bytes (a ∷ b ∷ c ∷ d ∷ [])
    ++ (b'-' ∷ hex_bytes (e ∷ f ∷ [])
        ++ (b'-' ∷ hex_bytes (g ∷ h ∷ [])
            ++ (b'-' ∷ hex_bytes (i ∷ j ∷ []) ++ (b'-' ∷ hex_bytes rest))))
uuid_text _ = []

unfoldable pub get_uuid : Btrfs → List ℕ
unfolding uuid_text
get_uuid fs = uuid_text fs.sb.fsid
