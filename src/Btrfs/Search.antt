-- ===== src/Btrfs/Search.antt =====
-- src/fs/btrfs.rs: `search_slot` and the tree roots.
use rignite.Common.{
  ℕ, zero, suc, ◌+◌, ◌-◌, ◌*◌, Option, none, some, List, ok, err, fault, wild, out_of_fuel, ◌>>=◌,
  ◌>>◌, ◌&&◌, ◌==◌, if◌then◌else◌, Bool, true, false,
}
use Prim.Native.Nat.{Ordering}
use rignite.Btrfs.Key
use rignite.Btrfs.Key.{BtrfsKey, cmp}
use rignite.Btrfs.Layout.{
  BtrfsItem, M, not_found, header_size, item_size, key_ptr_size, root_item_key, fs_tree_objectid,
}
use rignite.Btrfs.Decode.{read_header, read_item, read_key_ptr, read_root_item}
use rignite.Btrfs.Volume.{Btrfs, allocate, read_logical}

abbrev pub is_greater : BtrfsKey → BtrfsKey → Bool
is_greater a b = elim (cmp a b) [ Ordering.gt ↦ true | _ ↦ false ]

abbrev pub same_key : BtrfsKey → BtrfsKey → Bool
same_key a b = a.objectid == b.objectid && a.type_ == b.type_ && a.offset == b.offset

-- The scan of a leaf: `n` items are left, from the item `i` on.
unfoldable pub leaf_scan : List ℕ → BtrfsKey → ℕ → ℕ → M (Option BtrfsItem)
leaf_scan node key zero i = ok none
leaf_scan node key (suc n) i = do
  item ← read_item node (header_size + i * item_size)
  let rest = leaf_scan node key n (i + 1)
  if same_key item.key key
      then ok (some item)
      else if is_greater item.key key
      then ok none
      else rest

-- The scan of an internal node for the first key above `key`; `none` if there is none.
unfoldable pub child_scan : List ℕ → BtrfsKey → ℕ → ℕ → M (Option ℕ)
child_scan node key zero i = ok none
child_scan node key (suc n) i = do
  kp ← read_key_ptr node (header_size + i * key_ptr_size)
  let rest = child_scan node key n (i + 1)
  if is_greater kp.key key
      then (if i == 0 then ok (some kp.blockptr) else do
        prev ← read_key_ptr node (header_size + (i - 1) * key_ptr_size)
        ok (some prev.blockptr))
      else rest

-- The last child where no key is above. With no child the index wraps to the end of the address
-- space.
unfoldable pub next_child : List ℕ → BtrfsKey → ℕ → M ℕ
unfolding child_scan
next_child node key nritems = do
  found ← child_scan node key nritems 0
  elim found [
    | some next_logical ↦ ok next_logical
    | none ↦ if nritems == 0 then fault wild else do
      last ← read_key_ptr node (header_size + (nritems - 1) * key_ptr_size)
      ok last.blockptr
  ]

-- The loop over the nodes of a path, on fuel: one round a level.
unfoldable pub search_loop : ℕ → Btrfs → ℕ → BtrfsKey → M (Option (List ℕ × BtrfsItem))
search_loop zero fs cur_logical key = fault out_of_fuel
search_loop (suc fuel) fs cur_logical key = do
  let node_size = fs.sb.nodesize
  node ← read_logical fs cur_logical node_size node_size
  header ← read_header node 0
  if header.level == 0
      then (do
        found ← leaf_scan node key header.nritems 0
        ok (elim found [ none ↦ none | some item ↦ some (node, item) ]))
      else do
        next_logical ← next_child node key header.nritems
        search_loop fuel fs next_logical key

unfoldable pub search_slot : ℕ → Btrfs → ℕ → BtrfsKey → M (Option (List ℕ × BtrfsItem))
unfolding search_loop
search_slot fuel fs root_logical key = do
  allocate fs.sb.nodesize
  search_loop fuel fs root_logical key

unfoldable pub get_tree_root : ℕ → Btrfs → ℕ → M ℕ
unfolding Key.new
get_tree_root fuel fs tree_id = do
  found ← search_slot fuel fs fs.sb.root (Key.new tree_id root_item_key 0)
  elim found [
    | none ↦ err not_found
    | some (leaf, item) ↦ do
      root_item ← read_root_item leaf (header_size + item.offset)
      ok root_item.bytenr
  ]

unfoldable pub get_fs_root : ℕ → Btrfs → M ℕ
unfolding get_tree_root
get_fs_root fuel fs = get_tree_root fuel fs fs_tree_objectid
