-- ===== src/Btrfs/TreeExamples.antt =====
-- The theorems on the walk of src/fs/btrfs.rs at volumes of one leaf.
use rignite.Common.{
  ℕ, ◌*◌, ◌≡◌, ◌⊎◌, inr, refl, some, none, List, [], ◌∷◌, ◌++◌, ok, arith, length, take, drop,
  replicate, All, In,
}
use rignite.Common.Bytes.{slice, from_le_bytes}
use rignite.Btrfs.Layout.{BtrfsItem, peek}
use rignite.Btrfs.Decode.{
  decode_key, decode_header, decode_item, decode_super_block, decode_file_extent_item, read_header,
  read_item,
}
use rignite.Btrfs.Volume.{Btrfs, read_logical}
use rignite.Btrfs.Tree.{Entry, LeafAt}
use rignite.Btrfs.Dir.{Location, find_file_in_dir}
use rignite.Btrfs.File.{Frag, read_file}
use rignite.Btrfs.DirTree.{HasDirItem, IsNamed, IsUnnamed, find_file_in_dir_lem}
use rignite.Btrfs.Extents.{FragsOf, take_frag, none_left}
use rignite.Btrfs.FileTree.{IsFile, read_file_lem}

-- A volume of one block, a leaf at the logical address 1000.
abbrev volume_of : List ℕ → Btrfs
volume_of bytes = record {
  block_io = record {
    block_size = length bytes;
    read_blocks = λ lba n. ok (take n (drop (lba * length bytes) bytes));
  };
  sb = record (decode_super_block []) { nodesize = length bytes };
  chunks = record { logical = 1000; length = length bytes; physical = 0 } ∷ [];
}

-- The header, and one item with its data behind.
abbrev leaf_of : List ℕ → List ℕ → List ℕ
leaf_of key data_ =
    replicate 96 0
    ++ (1 ∷ 0 ∷ 0 ∷ 0 ∷ 0 ∷ key ++ (25 ∷ 0 ∷ 0 ∷ 0 ∷ length data_ ∷ 0 ∷ 0 ∷ 0 ∷ data_))

-- A file "a" with the inode 257 in the directory 256.
abbrev dir_leaf : List ℕ
dir_leaf =
    leaf_of (0 ∷ 1 ∷ replicate 6 0 ++ (84 ∷ 7 ∷ replicate 7 0))
      (1 ∷ 1 ∷ replicate 6 0 ++ (1 ∷ replicate 18 0 ++ (1 ∷ 0 ∷ 1 ∷ b'a' ∷ [])))

abbrev dir_item : BtrfsItem
dir_item = decode_item (drop 101 dir_leaf)

dir_leaf-LeafAt : LeafAt (volume_of dir_leaf) 1000 ((dir_leaf, dir_item) ∷ [])
unfolding read_logical read_header read_item decode_header decode_item decode_key peek slice
    from_le_bytes
dir_leaf-LeafAt = record {
  node = dir_leaf;
  header = decode_header dir_leaf;
  at = record { node_read = refl; header_read = refl };
  items = dir_item ∷ [];
  is_leaf = refl;
  count = refl;
  stored = (refl, tt);
  sorted = (tt, tt);
  entries = refl;
}

dir_item-inside : All (HasDirItem 157 256) ((dir_leaf, dir_item) ∷ [])
unfolding decode_item decode_key from_le_bytes
dir_item-inside = ((λ k. omega arith), tt)

find_file_in_dir_lem_example :
    ((e : Entry) × (l : Location) × In e ((dir_leaf, dir_item) ∷ [])
      × IsNamed 157 256 (b'a' ∷ []) e l
      × (find_file_in_dir 1 (volume_of dir_leaf) 1000 256 (b'a' ∷ []) ≡ ok (some l)))
    ⊎ (All (IsUnnamed 157 256 (b'a' ∷ [])) ((dir_leaf, dir_item) ∷ [])
        × (find_file_in_dir 1 (volume_of dir_leaf) 1000 256 (b'a' ∷ []) ≡ ok none))
find_file_in_dir_lem_example =
    find_file_in_dir_lem (volume_of dir_leaf) 256 (b'a' ∷ []) 0 1000 1 ((dir_leaf, dir_item) ∷ [])
      dir_leaf-LeafAt (omega arith) (omega arith) dir_item-inside

-- The inode 257 with one extent: 4 bytes at the logical address 1096.
abbrev file_leaf : List ℕ
file_leaf =
    leaf_of (1 ∷ 1 ∷ replicate 6 0 ++ (108 ∷ replicate 8 0))
      (replicate 20 0 ++ (1 ∷ 72 ∷ 4 ∷ replicate 22 0 ++ (4 ∷ replicate 7 0)))

abbrev file_item : BtrfsItem
file_item = decode_item (drop 101 file_leaf)

file_leaf-LeafAt : LeafAt (volume_of file_leaf) 1000 ((file_leaf, file_item) ∷ [])
unfolding read_logical read_header read_item decode_header decode_item decode_key peek slice
    from_le_bytes
file_leaf-LeafAt = record {
  node = file_leaf;
  header = decode_header file_leaf;
  at = record { node_read = refl; header_read = refl };
  items = file_item ∷ [];
  is_leaf = refl;
  count = refl;
  stored = (refl, tt);
  sorted = (tt, tt);
  entries = refl;
}

abbrev frag : Frag
frag = (0, 1 ∷ 0 ∷ 0 ∷ 0 ∷ [])

file_leaf-FragsOf : FragsOf (volume_of file_leaf) 257 ((file_leaf, file_item) ∷ []) (frag ∷ [])
unfolding read_logical decode_item decode_key decode_file_extent_item slice from_le_bytes
file_leaf-FragsOf =
    take_frag _ frag (refl, refl)
      (record {
        inside = omega arith;
        plain = refl;
        regular = refl;
        unshifted = refl;
        small = omega arith;
        start = refl;
        bytes = inr ((λ e. cc), refl);
      })
      none_left

read_file_lem_example :
    (out : List ℕ) × (read_file 1 (volume_of file_leaf) 1000 257 ≡ ok out) × IsFile (frag ∷ []) out
read_file_lem_example =
    read_file_lem (volume_of file_leaf) 0 1000 257 1 ((file_leaf, file_item) ∷ []) (frag ∷ [])
      file_leaf-LeafAt (omega arith) (omega arith) file_leaf-FragsOf (λ e. cc) (omega arith, tt)
      (tt, tt)
