-- ===== src/Btrfs/Dir.antt =====
-- src/fs/btrfs.rs: `find_file_in_dir`. A name is its bytes.
use rignite.Common.{
  ℕ, zero, suc, ◌+◌, ◌*◌, Option, none, some, List, [], ◌∷◌, ok, ◌>>=◌, ◌>>◌, ◌&&◌, ◌||◌, not, leb,
  ◌==◌, bytes_eq, if◌then◌else◌,
}
use rignite.Btrfs.Layout.{
  BtrfsItem, M, header_size, item_size, dir_item_size, dir_item_key, dir_index_key, peek,
}
use rignite.Btrfs.Decode.{read_item, read_dir_item}
use rignite.Btrfs.Volume.{Btrfs, allocate}
use rignite.Btrfs.Walk.{Scan, go_on, return_, walk}

-- The object of an entry, and the type of its key.
abbrev pub Location : Type 0
Location = ℕ × ℕ

-- One directory item of a node of `node_size` bytes: its location, if it has the name.
unfoldable pub match_entry : ℕ → List ℕ → BtrfsItem → List ℕ → M (Option Location)
match_entry node_size node item name_to_find = do
  let data_off = header_size + item.offset
  dir_item ← read_dir_item node data_off
  if not (leb (data_off + dir_item_size + dir_item.name_len) node_size) then ok none else do
    name ← peek node (data_off + dir_item_size) dir_item.name_len
    ok (
        if bytes_eq name name_to_find
        then some (dir_item.location.objectid, dir_item.location.type_)
        else none)

-- The loop over the items of a leaf.
unfoldable pub dir_items : ℕ → ℕ → List ℕ → List ℕ → ℕ → ℕ → M (Scan (Unit {0}) (Option Location))
unfolding match_entry
dir_items node_size dir_objectid name_to_find node zero i = ok (go_on tt)
dir_items node_size dir_objectid name_to_find node (suc n) i = do
  item ← read_item node (header_size + i * item_size)
  let rest = dir_items node_size dir_objectid name_to_find node n (i + 1)
  if not (
        item.key.objectid == dir_objectid
        && (item.key.type_ == dir_index_key || item.key.type_ == dir_item_key))
      then rest
      else do
        entry ← match_entry node_size node item name_to_find
        elim entry [ none ↦ rest | some location ↦ ok (return_ (some location)) ]

unfoldable pub find_file_in_dir : ℕ → Btrfs → ℕ → ℕ → List ℕ → M (Option Location)
unfolding walk dir_items
find_file_in_dir fuel fs fs_root_logical dir_objectid name_to_find = do
  allocate fs.sb.nodesize
  walk fs dir_objectid
      (λ node nritems s. dir_items fs.sb.nodesize dir_objectid name_to_find node nritems 0)
      (λ s. ok none) fuel (fs_root_logical ∷ []) tt
