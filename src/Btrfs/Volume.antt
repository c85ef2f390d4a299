-- ===== src/Btrfs/Volume.antt =====
-- src/fs/btrfs.rs: the mounted volume, the translation of logical addresses and the reads through
-- it. The arithmetic is that of the release profile (Cargo.toml), where `u64` sums wrap. The block
-- device is an argument: what `read_blocks` returns for a block number and a buffer size.
use rignite.Common.{
  ℕ, ◌+◌, ◌-◌, ◌*◌, ◌/◌, ◌%◌, ◌^◌, Option, none, some, List, [], ◌∷◌, ok, err, fault, panic, ◌>>=◌,
  ◌>>◌, ◌&&◌, ltb, leb, ◌==◌, if◌then◌else◌, length, Bool,
}
use rignite.Common.Bytes.{slice}
use rignite.Btrfs.Layout.{BtrfsSuperBlock, M, device_error}

abbrev pub u64 : ℕ → ℕ
u64 n = n % 2 ^ 64

-- `block_io.media().block_size()`, which is a `u32`, and `read_blocks`.
pub record BlockIo : Type 0 where
  pub block_size : ℕ
  pub read_blocks : ℕ → ℕ → M (List ℕ)

pub record ChunkMap : Type 0 where
  pub logical : ℕ
  pub length : ℕ
  pub physical : ℕ

pub record Btrfs : Type 0 where
  pub block_io : BlockIo
  pub sb : BtrfsSuperBlock
  pub chunks : List ChunkMap

unfoldable pub covers : ChunkMap → ℕ → Bool
covers chunk logical = leb chunk.logical logical && ltb logical (u64 (chunk.logical + chunk.length))

unfoldable pub map_logical : List ChunkMap → ℕ → Option ℕ
unfolding covers
map_logical [] logical = none
map_logical (chunk ∷ chunks) logical =
    if covers chunk logical
    then some (u64 (chunk.physical + (logical - chunk.logical)))
    else map_logical chunks logical

unfoldable pub logical_to_physical : Btrfs → ℕ → Option ℕ
unfolding map_logical
logical_to_physical fs logical = map_logical fs.chunks logical

-- `vec![0u8; n]` and `slice::to_vec` panic above `isize::MAX` bytes.
abbrev pub allocate : ℕ → M (Unit {0})
allocate n = if ltb n (2 ^ 63) then ok tt else fault panic

-- A division or remainder by 0 panics.
abbrev pub nonzero : ℕ → M (Unit {0})
nonzero n = if n == 0 then fault panic else ok tt

-- The part of `read_logical` after the translation. `copy_from_slice` panics on unequal lengths.
unfoldable pub read_physical : BlockIo → ℕ → ℕ → ℕ → M (List ℕ)
read_physical io physical len buffer_len = do
  let block_size = io.block_size
  nonzero block_size
  let lba = physical / block_size
  let offset_in_block = physical % block_size
  let end_block = u64 (u64 (physical + len) + (block_size - 1)) / block_size
  let blocks_to_read = u64 (end_block + 2 ^ 64 - lba)
  let size = u64 (blocks_to_read * block_size)
  allocate size
  temp_buf ← io.read_blocks lba size
  part ← slice temp_buf offset_in_block (u64 (offset_in_block + len))
  if length part == buffer_len then ok part else fault panic

-- The new contents of a buffer of `buffer_len` bytes.
unfoldable pub read_logical : Btrfs → ℕ → ℕ → ℕ → M (List ℕ)
unfolding logical_to_physical read_physical
read_logical fs logical len buffer_len = elim (logical_to_physical fs logical) [
  | some physical ↦ read_physical fs.block_io physical len buffer_len
  | none ↦ err device_error
]
