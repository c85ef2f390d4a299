-- ===== src/Btrfs/File.antt =====
-- src/fs/btrfs.rs: `read_file`.
use rignite.Common.{
  ℕ, zero, suc, ◌+◌, ◌-◌, ◌*◌, ◌^◌, List, [], ◌∷◌, ◌++◌, ok, err, fault, panic, ◌>>=◌, ◌>>◌, ◌&&◌,
  not, leb, ◌==◌, if◌then◌else◌, length, take, drop, replicate,
}
use rignite.Btrfs.Layout.{
  BtrfsItem, M, not_found, unsupported, header_size, item_size, file_extent_item_size,
  extent_data_key, file_extent_inline, file_extent_reg, num_at, peek,
}
use rignite.Btrfs.Decode.{read_item, read_file_extent_item}
use rignite.Btrfs.Volume.{Btrfs, u64, allocate, read_logical}
use rignite.Btrfs.Walk.{Scan, go_on, return_, walk}

-- A fragment: its offset in the file and its bytes.
abbrev pub Frag : Type 0
Frag = ℕ × List ℕ

-- A regular extent: a hole, or bytes of the device.
unfoldable pub read_extent : Btrfs → ℕ → ℕ → M (List ℕ)
read_extent fs disk_bytenr num_bytes = do
  allocate num_bytes
  if disk_bytenr == 0
      then ok (replicate num_bytes 0)
      else read_logical fs disk_bytenr num_bytes num_bytes

-- One EXTENT_DATA item, whose structure stands at `data_off`.
unfoldable pub read_extent_item :
    Btrfs → List ℕ → BtrfsItem → List Frag → M (Scan (List Frag) (List ℕ))
unfolding read_extent
read_extent_item fs node item frags = do
  let data_off = header_size + item.offset
  extent ← read_file_extent_item node data_off
  if not (extent.compression == 0)
      then err unsupported
      else if extent.type_ == file_extent_inline
      then (do
        bytes ←
            peek node (data_off + file_extent_item_size)
              (u64 (item.size + 2 ^ 64 - file_extent_item_size))
        ok (return_ bytes))
      else if extent.type_ == file_extent_reg
      then (do
        disk ← peek node (data_off + file_extent_item_size) 8
        num ← peek node (data_off + file_extent_item_size + 3 * 8) 8
        bytes ← read_extent fs (num_at disk 0 8) (num_at num 0 8)
        ok (go_on (frags ++ ((item.key.offset, bytes) ∷ []))))
      else ok (go_on frags)

-- The loop over the items of a leaf.
unfoldable pub file_items : Btrfs → ℕ → List ℕ → ℕ → ℕ → List Frag → M (Scan (List Frag) (List ℕ))
unfolding read_extent_item
file_items fs inode node zero i frags = ok (go_on frags)
file_items fs inode node (suc n) i frags = do
  item ← read_item node (header_size + i * item_size)
  let rest = file_items fs inode node n (i + 1)
  if not (item.key.objectid == inode && item.key.type_ == extent_data_key) then rest frags else do
    out ← read_extent_item fs node item frags
    elim out [ go_on frags' ↦ rest frags' | return_ bytes ↦ ok (return_ bytes) ]

-- `sort_by_key`, which is stable.
unfoldable pub insert_frag : Frag → List Frag → List Frag
insert_frag f [] = f ∷ []
insert_frag f (g ∷ gs) = if leb f.0 g.0 then f ∷ g ∷ gs else g ∷ insert_frag f gs

unfoldable pub sort_frags : List Frag → List Frag
unfolding insert_frag
sort_frags [] = []
sort_frags (f ∷ fs) = insert_frag f (sort_frags fs)

abbrev pub frag_end : Frag → ℕ
frag_end f = u64 (f.0 + length f.1)

-- `max().unwrap_or(0)` over the ends.
unfoldable pub total_size : List Frag → ℕ
total_size [] = 0
total_size (f ∷ fs) = let rest = total_size fs in if leb rest (frag_end f) then frag_end f else rest

-- `out[start..start + data.len()].copy_from_slice(&data)`
unfoldable pub copy_into : List ℕ → Frag → M (List ℕ)
copy_into out f =
    if leb f.0 (frag_end f) && leb (frag_end f) (length out)
    then (if frag_end f - f.0 == length f.1
        then ok (take f.0 out ++ (f.1 ++ drop (frag_end f) out))
        else fault panic)
    else fault panic

unfoldable pub place_all : List Frag → List ℕ → M (List ℕ)
unfolding copy_into
place_all [] out = ok out
place_all (f ∷ fs) out = do out' ← copy_into out f; place_all fs out'

-- The end of `read_file`, from the fragments.
unfoldable pub assemble : List Frag → M (List ℕ)
unfolding sort_frags total_size place_all
assemble [] = err not_found
assemble (f ∷ fs) = do
  let sorted = sort_frags (f ∷ fs)
  allocate (total_size sorted)
  place_all sorted (replicate (total_size sorted) 0)

unfoldable pub read_file : ℕ → Btrfs → ℕ → ℕ → M (List ℕ)
unfolding walk file_items assemble
read_file fuel fs fs_root_logical inode = do
  allocate fs.sb.nodesize
  walk fs inode (λ node nritems frags. file_items fs inode node nritems 0 frags) assemble fuel
      (fs_root_logical ∷ []) []
