-- ===== src/Btrfs/RootFiles.antt =====
-- src/fs/btrfs.rs: `list_root_files`. The text of an error and `String::from_utf8_lossy` are
-- arguments; a text is its code points.
use rignite.Common.{
  ℕ, zero, suc, ◌+◌, ◌*◌, List, [], ◌∷◌, ◌++◌, ok, err, fault, out_of_fuel, ◌>>=◌, ◌>>◌, not, leb,
  ◌==◌, if◌then◌else◌,
}
use rignite.Common.Text.{Text, codes}
use rignite.Btrfs.Layout.{
  BtrfsHeader, M, Status, ft_dir, dir_index_key, header_size, item_size, dir_item_size, peek,
}
use rignite.Btrfs.Decode.{read_header, read_key_ptr, read_item, read_dir_item}
use rignite.Btrfs.Volume.{Btrfs, allocate, read_logical}
use rignite.Btrfs.Search.{get_fs_root}

-- The loop down to a leaf, on fuel: the first child of every node.
unfoldable pub descend : ℕ → Btrfs → List ℕ → BtrfsHeader → M (List ℕ × BtrfsHeader)
descend zero fs node header = fault out_of_fuel
descend (suc fuel) fs node header = if header.level == 0 then ok (node, header) else do
  kp ← read_key_ptr node header_size
  child ← read_logical fs kp.blockptr fs.sb.nodesize fs.sb.nodesize
  child_header ← read_header child 0
  descend fuel fs child child_header

module _ (debug : Status → Text) (from_utf8_lossy : List ℕ → Text) where
  -- The name of an item, with "/" behind that of a directory: `files`, with the names that follow.
  unfoldable pub add_name : ℕ → List ℕ → ℕ → M (List Text) → M (List Text)
  add_name node_size node data_off rest = do
    dir_item ← read_dir_item node data_off
    if not (leb (data_off + dir_item_size + dir_item.name_len) node_size) then rest else do
      name ← peek node (data_off + dir_item_size) dir_item.name_len
      files ← rest
      ok ((from_utf8_lossy name ++ (if dir_item.type_ == ft_dir then codes "/" else [])) ∷ files)

  -- The loop over the items of the leaf: `n` items are left, from the item `i` on.
  unfoldable pub list_items : ℕ → List ℕ → ℕ → ℕ → M (List Text)
  unfolding add_name
  list_items node_size node zero i = ok []
  list_items node_size node (suc n) i = do
    item ← read_item node (header_size + i * item_size)
    let rest = list_items node_size node n (i + 1)
    if item.key.type_ == dir_index_key
        then add_name node_size node (header_size + item.offset) rest
        else rest

  abbrev pub or_message : List Text → List Text
  or_message [] = codes "<Empty or Nav Failed>" ∷ []
  or_message (f ∷ fs) = f ∷ fs

  unfoldable pub list_from : ℕ → Btrfs → M ℕ → M (List Text)
  unfolding descend list_items
  list_from fuel fs (err e) = ok ((codes "ERR: FS Root Not Found: " ++ debug e) ∷ [])
  list_from fuel fs (fault x) = fault x
  list_from fuel fs (ok fs_root_logical) = do
    allocate fs.sb.nodesize
    node ← read_logical fs fs_root_logical fs.sb.nodesize fs.sb.nodesize
    header ← read_header node 0
    (leaf, cur_header) ← descend fuel fs node header
    files ← list_items fs.sb.nodesize leaf cur_header.nritems 0
    ok (or_message files)

  unfoldable pub list_root_files : ℕ → Btrfs → M (List Text)
  unfolding list_from
  list_root_files fuel fs = list_from fuel fs (get_fs_root fuel fs)
