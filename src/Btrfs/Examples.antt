-- ===== src/Btrfs/Examples.antt =====
-- The theorems on src/fs/btrfs.rs at concrete volumes.
use Prim.Native.Nat.{Ordering}
use rignite.Common.{
  ℕ, ◌+◌, ◌-◌, ◌*◌, ◌<◌, ◌≤◌, ◌≡◌, ◌⊎◌, inr, refl, none, some, List, [], ◌∷◌, ◌++◌, ok, fault, wild,
  arith, length, take, drop, replicate, All, get_elem?,
}
use rignite.Common.Bytes.{slice, from_le_bytes}
use rignite.Btrfs.Key.{BtrfsKey, KeyLt, cmp, cmp_lexicographic}
use rignite.Btrfs.Layout.{BtrfsItem, peek}
use rignite.Btrfs.Decode.{
  decode_key, decode_header, decode_item, decode_super_block, decode_chunk, decode_stripe, read_key,
  read_header, read_item, read_chunk, read_stripe,
}
use rignite.Btrfs.Volume.{BlockIo, ChunkMap, Btrfs, map_logical, logical_to_physical, read_logical}
use rignite.Btrfs.Reads.{Holds, IsDevice, map_logical_lem, read_logical_lem}
use rignite.Btrfs.Mount.{load_sys_chunks}
use rignite.Btrfs.SysChunks.{
  SysEntry, EntriesFrom, chunk_maps, load_sys_chunks_lem, load_sys_chunks_overrun,
}
use rignite.Btrfs.Search.{search_slot}
use rignite.Btrfs.Tree.{LeafAt, find_entry}
use rignite.Btrfs.SearchTree.{search_slot_lem}
use rignite.Btrfs.File.{Frag, assemble}
use rignite.Btrfs.Assemble.{Placed, Outside, stop, assemble_lem}

abbrev key_of_root : BtrfsKey
key_of_root = record { objectid = 5; type_ = 132; offset = 0 }

abbrev key_of_dir : BtrfsKey
key_of_dir = record { objectid = 256; type_ = 84; offset = 7 }

cmp_lexicographic_example :
    ((cmp key_of_root key_of_dir ≡ Ordering.lt) × KeyLt key_of_root key_of_dir)
    ⊎ ((cmp key_of_root key_of_dir ≡ Ordering.eq) × (key_of_root ≡ key_of_dir))
    ⊎ ((cmp key_of_root key_of_dir ≡ Ordering.gt) × KeyLt key_of_dir key_of_root)
cmp_lexicographic_example = cmp_lexicographic key_of_root key_of_dir

-- A leaf of 126 bytes with one item under the key (5, 132, 0), alone on a device of one block.
abbrev leaf_bytes : List ℕ
leaf_bytes =
    replicate 96 0
    ++ (1 ∷ 0 ∷ 0 ∷ 0 ∷ 0 ∷ 5 ∷ 0 ∷ 0 ∷ 0 ∷ 0 ∷ 0 ∷ 0 ∷ 0 ∷ 132 ∷ 0 ∷ 0 ∷ 0 ∷ 0 ∷ 0 ∷ 0 ∷ 0 ∷ 0 ∷ 0
        ∷ 0 ∷ 0 ∷ 0 ∷ 0 ∷ 0 ∷ 0 ∷ 0 ∷ [])

abbrev device : BlockIo
device = record {
  block_size = 126;
  read_blocks = λ lba n. ok (take n (drop (lba * 126) leaf_bytes));
}

abbrev volume : Btrfs
volume = record {
  block_io = device;
  sb = record (decode_super_block []) { nodesize = 126 };
  chunks = record { logical = 1000; length = 126; physical = 0 } ∷ [];
}

device-IsDevice : IsDevice device leaf_bytes
device-IsDevice = record {
  block_size_pos = omega arith;
  block_size_u32 = omega arith;
  small = omega arith;
  blocks = 1;
  whole = refl;
  reads = λ lba n h. refl;
}

volume-translated : logical_to_physical volume 1010 ≡ some 10
unfolding logical_to_physical
volume-translated = refl

read_logical_lem_example : read_logical volume 1010 5 5 ≡ ok (take 5 (drop 10 leaf_bytes))
read_logical_lem_example =
    read_logical_lem volume leaf_bytes 1010 10 5 device-IsDevice volume-translated (omega arith)

map_logical_lem_example :
    ((front : List ChunkMap) × (c : ChunkMap) × (back : List ChunkMap) × (volume.chunks
        ≡ front ++ (c ∷ back))
      × All (λ d. ¬ Holds 1125 d) front
      × Holds 1125 c
      × (map_logical volume.chunks 1125 ≡ some (c.physical + (1125 - c.logical))))
    ⊎ (All (λ d. ¬ Holds 1125 d) volume.chunks × (map_logical volume.chunks 1125 ≡ none))
map_logical_lem_example = map_logical_lem volume.chunks 1125 ((omega arith, omega arith), tt)

abbrev leaf_item : BtrfsItem
leaf_item = decode_item (drop 101 leaf_bytes)

volume-LeafAt : LeafAt volume 1000 ((leaf_bytes, leaf_item) ∷ [])
unfolding read_logical read_header read_item decode_header decode_item decode_key peek slice
    from_le_bytes
volume-LeafAt = record {
  node = leaf_bytes;
  header = decode_header leaf_bytes;
  at = record { node_read = refl; header_read = refl };
  items = leaf_item ∷ [];
  is_leaf = refl;
  count = refl;
  stored = (refl, tt);
  sorted = (tt, tt);
  entries = refl;
}

search_slot_lem_example :
    search_slot 1 volume 1000 key_of_root
    ≡ ok (find_entry key_of_root ((leaf_bytes, leaf_item) ∷ []))
search_slot_lem_example =
    search_slot_lem volume 0 1 1000 key_of_root ((leaf_bytes, leaf_item) ∷ []) (omega arith)
      (omega arith) volume-LeafAt

-- A chunk array with one entry of 97 bytes.
abbrev chunk_array : List ℕ
chunk_array = replicate 8 0 ++ (228 ∷ replicate 52 0 ++ (1 ∷ 0 ∷ 0 ∷ 0 ∷ replicate 32 0))

abbrev array_volume : ℕ → Btrfs
array_volume size = record {
  block_io = device;
  sb = record (decode_super_block []) {
    sys_chunk_array = chunk_array;
    sys_chunk_array_size = size;
  };
  chunks = [];
}

abbrev one_entry : SysEntry
one_entry = record {
  key = decode_key (take 17 chunk_array);
  chunk = decode_chunk (take 48 (drop 17 chunk_array));
  stripe = decode_stripe (drop 65 chunk_array);
}

one_entry-stored : EntriesFrom chunk_array 97 0 97 (one_entry ∷ [])
unfolding read_key read_chunk read_stripe decode_key decode_chunk decode_stripe peek from_le_bytes
one_entry-stored = (
  record {
    inside = omega arith;
    key_read = refl;
    is_chunk = refl;
    chunk_read = refl;
    stripe_read = refl;
  },
  refl,
)

load_sys_chunks_lem_example :
    load_sys_chunks (array_volume 97)
    ≡ ok (record (array_volume 97) { chunks = chunk_maps (one_entry ∷ []) })
load_sys_chunks_lem_example =
    load_sys_chunks_lem (array_volume 97) (one_entry ∷ []) 97 one_entry-stored (omega arith)

one_entry-before : EntriesFrom chunk_array 100 0 97 (one_entry ∷ [])
unfolding read_key read_chunk read_stripe decode_key decode_chunk decode_stripe peek from_le_bytes
one_entry-before = (
  record {
    inside = omega arith;
    key_read = refl;
    is_chunk = refl;
    chunk_read = refl;
    stripe_read = refl;
  },
  refl,
)

-- The size that the super block states passes the end of the array.
load_sys_chunks_overrun_example : load_sys_chunks (array_volume 100) ≡ fault wild
load_sys_chunks_overrun_example =
    load_sys_chunks_overrun (array_volume 100) (one_entry ∷ []) 97 one_entry-before (omega arith)
      (omega arith)

-- Two fragments with a gap between, in the wrong order.
abbrev late : Frag
late = (3, 1 ∷ 2 ∷ [])

abbrev early : List Frag
early = (0, 9 ∷ []) ∷ []

assemble_lem_example :
    (out : List ℕ) × (assemble (late ∷ early) ≡ ok out)
    × All (Placed out) (late ∷ early)
    × ((i : ℕ) → i < length out → All (Outside i) (late ∷ early) → get_elem? out i ≡ some 0)
    × ((n : ℕ) → All (λ (g : Frag). stop g ≤ n) (late ∷ early) → length out ≤ n)
assemble_lem_example =
    assemble_lem late early (omega arith, (omega arith, tt)) ((inr (omega arith), tt), (tt, tt))
