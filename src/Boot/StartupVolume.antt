-- ===== src/Boot/StartupVolume.antt =====
-- src/fs/btrfs.rs: the bytes of a device whose Btrfs holds /Core/Startup/vmlinuz-runixos, and the
-- leaves that they are.
use rignite.Common.{
  ℕ, ◌+◌, ◌*◌, ◌≡◌, refl, inl, some, List, [], ◌∷◌, ◌++◌, ok, arith, ◌==◌, length, take, drop,
  replicate, bytes_eq, if◌then◌else◌,
}
use rignite.Common.Bytes.{slice, from_le_bytes}
use rignite.Common.Text.{codes}
use rignite.Btrfs.Layout.{BtrfsItem, btrfs_signature, peek}
use rignite.Btrfs.Decode.{
  decode_key, decode_header, decode_item, decode_super_block, decode_chunk, decode_stripe,
  read_header, read_item, read_key, read_chunk, read_stripe,
}
use rignite.Btrfs.Volume.{BlockIo, Btrfs, read_logical}
use rignite.Btrfs.Mount.{new, load_sys_chunks, load_chunk_tree}
use rignite.Btrfs.Tree.{Entry, LeafAt}

-- A number below 2^16 in 8 bytes.
abbrev pub word : ℕ → ℕ → List ℕ
word lo hi = lo ∷ hi ∷ replicate 6 0

abbrev pub padded : ℕ → List ℕ → List ℕ
padded n bytes = take n (bytes ++ replicate n 0)

-- An item of a leaf: its key, and where its data stands behind the header.
abbrev pub item_bytes : List ℕ → ℕ → ℕ → ℕ → List ℕ
item_bytes objectid type_ offset size =
    objectid ++ (type_ ∷ word 0 0 ++ (offset ∷ 0 ∷ 0 ∷ 0 ∷ size ∷ 0 ∷ 0 ∷ 0 ∷ []))

abbrev pub leaf_of : ℕ → List ℕ → List ℕ
leaf_of nritems rest = padded 512 (replicate 96 0 ++ (nritems ∷ 0 ∷ 0 ∷ 0 ∷ 0 ∷ rest))

-- A directory item that leads to an inode 256 + `inode`.
abbrev pub dir_bytes : ℕ → List ℕ → List ℕ
dir_bytes inode name =
    word inode 1 ++ (1 ∷ word 0 0 ++ (word 0 0 ++ (0 ∷ 0 ∷ length name ∷ 0 ∷ 1 ∷ name)))

-- The tree of roots: the tree 5 stands at 4608.
abbrev pub root_leaf : List ℕ
root_leaf = leaf_of 1 (item_bytes (word 5 0) 132 25 239 ++ (replicate 176 0 ++ word 0 18))

-- The directories 256, 257 and 258, and the inode 259, whose 4 bytes stand at 4192.
abbrev pub fs_leaf : List ℕ
fs_leaf = leaf_of 4 (
    item_bytes (word 0 1) 84 100 34
    ++ (item_bytes (word 1 1) 84 134 37
        ++ (item_bytes (word 2 1) 84 171 45
            ++ (item_bytes (word 3 1) 108 216 53
                ++ (dir_bytes 1 (codes "Core")
                    ++ (dir_bytes 2 (codes "Startup")
                        ++ (dir_bytes 3 (codes "vmlinuz-runixos")
                            ++ (replicate 20 0
                                ++ (1 ∷ word 96 16 ++ (word 4 0 ++ (word 0 0 ++ word 4 0)))))))))))

abbrev pub chunk_bytes : List ℕ
chunk_bytes =
    word 0 0
    ++ (228 ∷ word 0 16 ++ (word 0 4 ++ (replicate 36 0 ++ (1 ∷ 0 ∷ 0 ∷ 0 ∷ replicate 32 0))))

abbrev pub super_bytes : List ℕ
super_bytes = padded 4096 (
    replicate 64 0
    ++ (btrfs_signature
        ++ (word 0 0
            ++ (word 0 16
                ++ (replicate 60 0
                    ++ (0 ∷ 2 ∷ 0 ∷ 0 ∷ replicate 8 0 ++ (97 ∷ replicate 650 0 ++ chunk_bytes)))))))

abbrev pub block_of : ℕ → List ℕ
block_of lba = if lba == 128 then super_bytes else if lba == 0 then root_leaf else fs_leaf

abbrev pub io : BlockIo
io = record { block_size = 512; read_blocks = λ lba n. ok (take n (block_of lba)) }

abbrev pub volume : Btrfs
volume = record {
  block_io = io;
  sb = decode_super_block super_bytes;
  chunks = record { logical = 4096; length = 1024; physical = 0 } ∷ [];
}

pub volume_opens : new io ≡ ok (some volume)
unfolding new load_sys_chunks load_chunk_tree read_key read_chunk read_stripe decode_key
    decode_chunk decode_stripe decode_super_block peek slice from_le_bytes read_logical bytes_eq
volume_opens = refl

abbrev pub item_of : List ℕ → ℕ → BtrfsItem
item_of leaf n = decode_item (drop (101 + 25 * n) leaf)

pub root_leaf-LeafAt : LeafAt volume 4096 ((root_leaf, item_of root_leaf 0) ∷ [])
unfolding read_logical read_header read_item decode_header decode_item decode_key peek slice
    from_le_bytes decode_super_block
root_leaf-LeafAt = record {
  node = root_leaf;
  header = decode_header root_leaf;
  at = record { node_read = refl; header_read = refl };
  items = item_of root_leaf 0 ∷ [];
  is_leaf = refl;
  count = refl;
  stored = (refl, tt);
  sorted = (tt, tt);
  entries = refl;
}

abbrev pub fs_entries : List Entry
fs_entries =
    (fs_leaf, item_of fs_leaf 0)
    ∷ (fs_leaf, item_of fs_leaf 1)
    ∷ (fs_leaf, item_of fs_leaf 2)
    ∷ (fs_leaf, item_of fs_leaf 3)
    ∷ []

pub fs_leaf-LeafAt : LeafAt volume 4608 fs_entries
unfolding read_logical read_header read_item decode_header decode_item decode_key peek slice
    from_le_bytes decode_super_block
fs_leaf-LeafAt = record {
  node = fs_leaf;
  header = decode_header fs_leaf;
  at = record { node_read = refl; header_read = refl };
  items = item_of fs_leaf 0 ∷ item_of fs_leaf 1 ∷ item_of fs_leaf 2 ∷ item_of fs_leaf 3 ∷ [];
  is_leaf = refl;
  count = refl;
  stored = (refl, (refl, (refl, (refl, tt))));
  sorted = (
    (inl (omega arith), (inl (omega arith), (inl (omega arith), tt))),
    ((inl (omega arith), (inl (omega arith), tt)), ((inl (omega arith), tt), (tt, tt))),
  );
  entries = refl;
}
