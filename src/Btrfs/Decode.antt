-- ===== src/Btrfs/Decode.antt =====
-- src/fs/btrfs.rs: the fields of the packed structures, at their offsets, and `read_unaligned` of
-- each structure.
use rignite.Common.{ℕ, List, ok, ◌>>=◌}
use rignite.Btrfs.Key.{BtrfsKey}
use rignite.Btrfs.Layout.{
  BtrfsHeader, BtrfsKeyPtr, BtrfsItem, BtrfsSuperBlock, BtrfsStripe, BtrfsChunk, BtrfsDirItem,
  BtrfsRootItem, BtrfsFileExtentItem, M, peek, bytes_at, num_at, key_size, header_size,
  key_ptr_size, item_size, stripe_size, chunk_size, dir_item_size, root_item_size,
  file_extent_item_size,
}

unfoldable pub decode_key : List ℕ → BtrfsKey
decode_key b = record { objectid = num_at b 0 8; type_ = num_at b 8 1; offset = num_at b 9 8 }

unfoldable pub decode_header : List ℕ → BtrfsHeader
decode_header b = record {
  csum = bytes_at b 0 32;
  fsid = bytes_at b 32 16;
  bytenr = num_at b 48 8;
  flags = num_at b 56 8;
  chunk_tree_uuid = bytes_at b 64 16;
  generation = num_at b 80 8;
  owner = num_at b 88 8;
  nritems = num_at b 96 4;
  level = num_at b 100 1;
}

unfoldable pub decode_key_ptr : List ℕ → BtrfsKeyPtr
decode_key_ptr b = record {
  key = decode_key (bytes_at b 0 17);
  blockptr = num_at b 17 8;
  generation = num_at b 25 8;
}

unfoldable pub decode_item : List ℕ → BtrfsItem
decode_item b = record {
  key = decode_key (bytes_at b 0 17);
  offset = num_at b 17 4;
  size = num_at b 21 4;
}

unfoldable pub decode_super_block : List ℕ → BtrfsSuperBlock
decode_super_block b = record {
  csum = bytes_at b 0 32;
  fsid = bytes_at b 32 16;
  bytenr = num_at b 48 8;
  flags = num_at b 56 8;
  magic = bytes_at b 64 8;
  generation = num_at b 72 8;
  root = num_at b 80 8;
  chunk_root = num_at b 88 8;
  log_root = num_at b 96 8;
  log_root_transid = num_at b 104 8;
  total_bytes = num_at b 112 8;
  bytes_used = num_at b 120 8;
  root_dir_objectid = num_at b 128 8;
  num_devices = num_at b 136 8;
  sectorsize = num_at b 144 4;
  nodesize = num_at b 148 4;
  leafsize = num_at b 152 4;
  stripesize = num_at b 156 4;
  sys_chunk_array_size = num_at b 160 4;
  chunk_root_generation = num_at b 164 8;
  compat_flags = num_at b 172 8;
  compat_ro_flags = num_at b 180 8;
  incompat_flags = num_at b 188 8;
  csum_type = num_at b 196 2;
  root_level = num_at b 198 1;
  chunk_root_level = num_at b 199 1;
  log_root_level = num_at b 200 1;
  dev_item = bytes_at b 201 98;
  label = bytes_at b 299 256;
  cache_generation = num_at b 555 8;
  uuid_tree_generation = num_at b 563 8;
  reserved = bytes_at b 571 240;
  sys_chunk_array = bytes_at b 811 2048;
  super_roots = bytes_at b 2859 132;
  unused = bytes_at b 2991 565;
}

unfoldable pub decode_stripe : List ℕ → BtrfsStripe
decode_stripe b = record {
  devid = num_at b 0 8;
  offset = num_at b 8 8;
  dev_uuid = bytes_at b 16 16;
}

unfoldable pub decode_chunk : List ℕ → BtrfsChunk
decode_chunk b = record {
  length = num_at b 0 8;
  owner = num_at b 8 8;
  stripe_len = num_at b 16 8;
  type_ = num_at b 24 8;
  io_align = num_at b 32 4;
  io_width = num_at b 36 4;
  sector_size = num_at b 40 4;
  num_stripes = num_at b 44 2;
  sub_stripes = num_at b 46 2;
}

unfoldable pub decode_dir_item : List ℕ → BtrfsDirItem
decode_dir_item b = record {
  location = decode_key (bytes_at b 0 17);
  transid = num_at b 17 8;
  data_len = num_at b 25 2;
  name_len = num_at b 27 2;
  type_ = num_at b 29 1;
}

unfoldable pub decode_root_item : List ℕ → BtrfsRootItem
decode_root_item b = record {
  invoice = bytes_at b 0 160;
  generation = num_at b 160 8;
  root_dirid = num_at b 168 8;
  bytenr = num_at b 176 8;
  byte_limit = num_at b 184 8;
  bytes_used = num_at b 192 8;
  last_snapshot = num_at b 200 8;
  flags = num_at b 208 8;
  refs = num_at b 216 4;
  drop_on_cache = decode_key (bytes_at b 220 17);
  drop_progress = num_at b 237 1;
  level = num_at b 238 1;
}

unfoldable pub decode_file_extent_item : List ℕ → BtrfsFileExtentItem
decode_file_extent_item b = record {
  generation = num_at b 0 8;
  ram_bytes = num_at b 8 8;
  compression = num_at b 16 1;
  encryption = num_at b 17 1;
  other_encoding = num_at b 18 2;
  type_ = num_at b 20 1;
}

unfoldable pub read_key : List ℕ → ℕ → M BtrfsKey
read_key buf offset = do b ← peek buf offset key_size; ok (decode_key b)

unfoldable pub read_header : List ℕ → ℕ → M BtrfsHeader
read_header buf offset = do b ← peek buf offset header_size; ok (decode_header b)

unfoldable pub read_key_ptr : List ℕ → ℕ → M BtrfsKeyPtr
read_key_ptr buf offset = do b ← peek buf offset key_ptr_size; ok (decode_key_ptr b)

unfoldable pub read_item : List ℕ → ℕ → M BtrfsItem
read_item buf offset = do b ← peek buf offset item_size; ok (decode_item b)

unfoldable pub read_stripe : List ℕ → ℕ → M BtrfsStripe
read_stripe buf offset = do b ← peek buf offset stripe_size; ok (decode_stripe b)

unfoldable pub read_chunk : List ℕ → ℕ → M BtrfsChunk
read_chunk buf offset = do b ← peek buf offset chunk_size; ok (decode_chunk b)

unfoldable pub read_dir_item : List ℕ → ℕ → M BtrfsDirItem
read_dir_item buf offset = do b ← peek buf offset dir_item_size; ok (decode_dir_item b)

unfoldable pub read_root_item : List ℕ → ℕ → M BtrfsRootItem
read_root_item buf offset = do b ← peek buf offset root_item_size; ok (decode_root_item b)

unfoldable pub read_file_extent_item : List ℕ → ℕ → M BtrfsFileExtentItem
read_file_extent_item buf offset = do
  b ← peek buf offset file_extent_item_size
  ok (decode_file_extent_item b)
