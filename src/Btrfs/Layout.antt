-- ===== src/Btrfs/Layout.antt =====
-- src/fs/btrfs.rs: the constants and the packed on-disk structures, each read at a byte offset of a
-- buffer as `read_unaligned` reads it, on a little-endian machine. A read that leaves its buffer
-- has no defined result: it is the fault `wild`.
use rignite.Common.{
  ℕ, ◌+◌, ◌*◌, List, [], ◌∷◌, Result, ok, fault, wild, leb, if◌then◌else◌, length, take, drop,
}
use rignite.Common.Bytes.{from_le_bytes}
use rignite.Btrfs.Key.{BtrfsKey}

-- `uefi::Status` of an error, as far as the code names it.
pub data Status : Type 0 where
  device_error not_found unsupported invalid_parameter buffer_too_small aborted : Status
  other : ℕ → Status

abbrev pub M {ℓ} : Type ℓ → Type ℓ
M A = Result Status A

-- "_BHRfS_M"
abbrev pub btrfs_signature : List ℕ
btrfs_signature = 0x5F ∷ 0x42 ∷ 0x48 ∷ 0x52 ∷ 0x66 ∷ 0x53 ∷ 0x5F ∷ 0x4D ∷ []

abbrev pub super_info_offset : ℕ
super_info_offset = 64 * 1024

abbrev pub fs_tree_objectid : ℕ
fs_tree_objectid = 5

abbrev pub dir_item_key : ℕ
dir_item_key = 84

abbrev pub dir_index_key : ℕ
dir_index_key = 96

abbrev pub extent_data_key : ℕ
extent_data_key = 108

abbrev pub root_item_key : ℕ
root_item_key = 132

abbrev pub chunk_item_key : ℕ
chunk_item_key = 228

abbrev pub ft_dir : ℕ
ft_dir = 2

abbrev pub file_extent_inline : ℕ
file_extent_inline = 0

abbrev pub file_extent_reg : ℕ
file_extent_reg = 1

-- The sizes of the structures.
abbrev pub key_size : ℕ
key_size = 17

abbrev pub header_size : ℕ
header_size = 101

abbrev pub key_ptr_size : ℕ
key_ptr_size = 33

abbrev pub item_size : ℕ
item_size = 25

abbrev pub stripe_size : ℕ
stripe_size = 32

abbrev pub chunk_size : ℕ
chunk_size = 48

abbrev pub dir_item_size : ℕ
dir_item_size = 30

abbrev pub root_item_size : ℕ
root_item_size = 239

abbrev pub file_extent_item_size : ℕ
file_extent_item_size = 21

abbrev pub super_block_size : ℕ
super_block_size = 3556

pub record BtrfsHeader : Type 0 where
  pub csum : List ℕ
  pub fsid : List ℕ
  pub bytenr : ℕ
  pub flags : ℕ
  pub chunk_tree_uuid : List ℕ
  pub generation : ℕ
  pub owner : ℕ
  pub nritems : ℕ
  pub level : ℕ

pub record BtrfsKeyPtr : Type 0 where
  pub key : BtrfsKey
  pub blockptr : ℕ
  pub generation : ℕ

pub record BtrfsItem : Type 0 where
  pub key : BtrfsKey
  pub offset : ℕ
  pub size : ℕ

-- The device item, the label and the rest up to the chunk array, `super_roots` and `unused` keep
-- their bytes.
pub record BtrfsSuperBlock : Type 0 where
  pub csum : List ℕ
  pub fsid : List ℕ
  pub bytenr : ℕ
  pub flags : ℕ
  pub magic : List ℕ
  pub generation : ℕ
  pub root : ℕ
  pub chunk_root : ℕ
  pub log_root : ℕ
  pub log_root_transid : ℕ
  pub total_bytes : ℕ
  pub bytes_used : ℕ
  pub root_dir_objectid : ℕ
  pub num_devices : ℕ
  pub sectorsize : ℕ
  pub nodesize : ℕ
  pub leafsize : ℕ
  pub stripesize : ℕ
  pub sys_chunk_array_size : ℕ
  pub chunk_root_generation : ℕ
  pub compat_flags : ℕ
  pub compat_ro_flags : ℕ
  pub incompat_flags : ℕ
  pub csum_type : ℕ
  pub root_level : ℕ
  pub chunk_root_level : ℕ
  pub log_root_level : ℕ
  pub dev_item : List ℕ
  pub label : List ℕ
  pub cache_generation : ℕ
  pub uuid_tree_generation : ℕ
  pub reserved : List ℕ
  pub sys_chunk_array : List ℕ
  pub super_roots : List ℕ
  pub unused : List ℕ

pub record BtrfsStripe : Type 0 where
  pub devid : ℕ
  pub offset : ℕ
  pub dev_uuid : List ℕ

pub record BtrfsChunk : Type 0 where
  pub length : ℕ
  pub owner : ℕ
  pub stripe_len : ℕ
  pub type_ : ℕ
  pub io_align : ℕ
  pub io_width : ℕ
  pub sector_size : ℕ
  pub num_stripes : ℕ
  pub sub_stripes : ℕ

pub record BtrfsDirItem : Type 0 where
  pub location : BtrfsKey
  pub transid : ℕ
  pub data_len : ℕ
  pub name_len : ℕ
  pub type_ : ℕ

pub record BtrfsRootItem : Type 0 where
  pub invoice : List ℕ
  pub generation : ℕ
  pub root_dirid : ℕ
  pub bytenr : ℕ
  pub byte_limit : ℕ
  pub bytes_used : ℕ
  pub last_snapshot : ℕ
  pub flags : ℕ
  pub refs : ℕ
  pub drop_on_cache : BtrfsKey
  pub drop_progress : ℕ
  pub level : ℕ

pub record BtrfsFileExtentItem : Type 0 where
  pub generation : ℕ
  pub ram_bytes : ℕ
  pub compression : ℕ
  pub encryption : ℕ
  pub other_encoding : ℕ
  pub type_ : ℕ

-- `n` bytes of the buffer from `offset` on.
unfoldable pub peek : List ℕ → ℕ → ℕ → M (List ℕ)
peek buf offset n =
    if leb (offset + n) (length buf) then ok (take n (drop offset buf)) else fault wild

-- The field of `n` bytes at `o`, as bytes and as a number.
abbrev pub bytes_at : List ℕ → ℕ → ℕ → List ℕ
bytes_at b o n = take n (drop o b)

abbrev pub num_at : List ℕ → ℕ → ℕ → ℕ
num_at b o n = from_le_bytes (take n (drop o b))
