-- ===== src/Btrfs/Extents.antt =====
-- src/fs/btrfs.rs: what `read_file` collects from the items of a leaf, and in which order.
use rignite.Common.{
  ℕ, ◌+◌, ◌*◌, ◌^◌, ◌≤◌, ◌<◌, ◌≡◌, ◌≢◌, ◌⊎◌, inl, inr, refl, sym, ◌∙◌, List, [], ◌∷◌, ◌++◌, ok,
  arith, ◌==◌, ◌&&◌, true, false, leb, le→leb, lt→ltb, length, take, drop, replicate, All,
}
use mathlib.Core.List.{append_assoc, append-nil}
use rignite.Btrfs.Layout.{
  BtrfsItem, BtrfsFileExtentItem, header_size, file_extent_item_size, extent_data_key,
  file_extent_reg, num_at, peek,
}
use rignite.Btrfs.Decode.{read_file_extent_item, decode_file_extent_item}
use rignite.Btrfs.Volume.{Btrfs, read_logical}
use rignite.Btrfs.Walk.{go_on}
use rignite.Btrfs.Tree.{Entry, ItemsFrom, entries_of}
use rignite.Btrfs.File.{Frag, read_extent, read_extent_item, file_items}

abbrev pub IsExtent : ℕ → Entry → Type 0
IsExtent inode (node, item) = (item.key.objectid ≡ inode) × (item.key.type_ ≡ extent_data_key)

abbrev data_at : BtrfsItem → ℕ
data_at item = header_size + item.offset

abbrev extent_of : Entry → BtrfsFileExtentItem
extent_of (node, item) =
    decode_file_extent_item (take file_extent_item_size (drop (data_at item) node))

-- The numbers behind the structure: `disk_bytenr`, `offset`, which is where the item's bytes begin
-- in the extent on the disk and which `read_file` does not read, and `num_bytes`.
abbrev disk_of : Entry → ℕ
disk_of (node, item) = num_at (take 8 (drop (data_at item + file_extent_item_size) node)) 0 8

abbrev offset_of : Entry → ℕ
offset_of (node, item) =
    num_at (take 8 (drop (data_at item + file_extent_item_size + 2 * 8) node)) 0 8

abbrev count_of : Entry → ℕ
count_of (node, item) =
    num_at (take 8 (drop (data_at item + file_extent_item_size + 3 * 8) node)) 0 8

-- The bytes of an item, by the format: zeros for a hole, else what the volume holds from the item's
-- offset in the extent on the disk.
abbrev HasBytes : Btrfs → Entry → List ℕ → Type 0
HasBytes fs e bytes =
    ((disk_of e ≡ 0) × (bytes ≡ replicate (count_of e) 0))
    ⊎ ((disk_of e ≢ 0)
        × (read_logical fs (disk_of e + offset_of e) (count_of e) (count_of e) ≡ ok bytes))

-- An uncompressed regular extent that lies inside its node and that is used from its begin on (its
-- `offset` is 0), and the fragment that it stands for.
pub record HasFrag (fs : Btrfs) (e : Entry) (f : Frag) : Type 0 where
  pub inside : data_at e.1 + file_extent_item_size + 32 ≤ length e.0
  pub plain : (extent_of e).compression ≡ 0
  pub regular : (extent_of e).type_ ≡ file_extent_reg
  pub unshifted : offset_of e ≡ 0
  pub small : count_of e < 2 ^ 63
  pub start : f.0 ≡ e.1.key.offset
  pub bytes : HasBytes fs e f.1

same_bytes : (fs : Btrfs) (e : Entry) (b c : List ℕ) → HasBytes fs e b → HasBytes fs e c → b ≡ c
same_bytes fs e b c (inl (z, p)) (inl (y, q)) = p ∙ sym q
same_bytes fs e b c (inl (z, p)) (inr (y, q)) = absurd (y z)
same_bytes fs e b c (inr (z, p)) (inl (y, q)) = absurd (z y)
same_bytes fs e b c (inr (z, p)) (inr (y, q)) = cc (p, q)

read_extent_lem :
    (fs : Btrfs) (e : Entry) (b : List ℕ)
    → count_of e < 2 ^ 63
    → offset_of e ≡ 0
    → HasBytes fs e b
    → read_extent fs (disk_of e) (count_of e) ≡ ok b
unfolding read_extent
read_extent_lem fs e b h o (inl (z, p)) = rw (lt→ltb _ _ h, z, p)
read_extent_lem fs e b h o (inr (z, p)) =
    let n : (disk_of e == 0) ≡ false = ground (arith, z) in
    let at_disk : disk_of e ≡ disk_of e + offset_of e = omega (arith, o) in
    let q : read_logical fs (disk_of e) (count_of e) (count_of e) ≡ ok b =
      (λ i. read_logical fs (at_disk i) (count_of e) (count_of e)) ∙ p in
    rw (lt→ltb _ _ h, n, q)

HasFrag-unique : (fs : Btrfs) (e : Entry) (f g : Frag) → HasFrag fs e f → HasFrag fs e g → f ≡ g
HasFrag-unique fs e f g h k =
    let p : f.0 ≡ g.0 = h.start ∙ sym k.start in
    let q : f.1 ≡ g.1 = same_bytes fs e f.1 g.1 h.bytes k.bytes in λ i. (p i, q i)

read_extent_item_lem :
    (fs : Btrfs) (node : List ℕ) (item : BtrfsItem) (f : Frag) (frags : List Frag)
    → HasFrag fs (node, item) f
    → read_extent_item fs node item frags ≡ ok (go_on (frags ++ (f ∷ [])))
unfolding read_extent_item read_file_extent_item peek
read_extent_item_lem fs node item f frags h =
    let n = length node in
    let a : leb (data_at item + file_extent_item_size) n ≡ true =
      le→leb _ _ (omega (arith, h.inside)) in
    let b : leb (data_at item + file_extent_item_size + 8) n ≡ true =
      le→leb _ _ (omega (arith, h.inside)) in
    let c : leb (data_at item + file_extent_item_size + 3 * 8 + 8) n ≡ true =
      le→leb _ _ (omega (arith, h.inside)) in
    rw (
      a,
      b,
      c,
      h.plain,
      h.regular,
      read_extent_lem fs (node, item) f.1 h.small h.unshifted h.bytes,
      sym h.start,
    )

-- The fragments of some entries, in the order of the entries: every extent of the inode has one.
pub data FragsOf (fs : Btrfs) (inode : ℕ) : List Entry → List Frag → Type 0 where
  none_left : FragsOf fs inode [] []
  skip :
      (e : Entry) {es : List Entry} {l : List Frag}
      → ¬ IsExtent inode e
      → FragsOf fs inode es l
      → FragsOf fs inode (e ∷ es) l
  take_frag :
      (e : Entry) (f : Frag) {es : List Entry} {l : List Frag}
      → IsExtent inode e
      → HasFrag fs e f
      → FragsOf fs inode es l
      → FragsOf fs inode (e ∷ es) (f ∷ l)

module _ (fs : Btrfs) (inode : ℕ) where
  pub FragsOf-append :
      {es later : List Entry} {l m : List Frag}
      → FragsOf fs inode es l
      → FragsOf fs inode later m
      → FragsOf fs inode (es ++ later) (l ++ m)
  FragsOf-append none_left q = q
  FragsOf-append (skip e n p) q = skip e n (FragsOf-append p q)
  FragsOf-append (take_frag e f k h p) q = take_frag e f k h (FragsOf-append p q)

  -- An entry whose extent, if it is one of the inode, has a fragment.
  abbrev pub IsRead : Entry → Type 0
  IsRead e = (¬ IsExtent inode e) ⊎ (IsExtent inode e × (f : Frag) × HasFrag fs e f)

  pub FragsOf-IsRead : {es : List Entry} {l : List Frag} → FragsOf fs inode es l → All IsRead es
  FragsOf-IsRead none_left = tt
  FragsOf-IsRead (skip e n p) = (inl n, FragsOf-IsRead p)
  FragsOf-IsRead (take_frag e f k h p) = (inr (k, f, h), FragsOf-IsRead p)

  pub FragsOf-unique :
      {es : List Entry} {l m : List Frag} → FragsOf fs inode es l → FragsOf fs inode es m → l ≡ m
  FragsOf-unique none_left none_left = refl
  FragsOf-unique (skip e n p) (skip _ n' q) = FragsOf-unique p q
  FragsOf-unique (skip e n p) (take_frag _ f k h q) = absurd (n k)
  FragsOf-unique (take_frag e f k h p) (skip _ n q) = absurd (n k)
  FragsOf-unique (take_frag e f k h p) (take_frag _ g k' h' q) =
      let a = HasFrag-unique fs e f g h h' in let b = FragsOf-unique p q in λ i. a i ∷ b i

  IsExtent-cases :
      (item : BtrfsItem) (node : List ℕ)
      → (((item.key.objectid == inode && item.key.type_ == extent_data_key) ≡ true)
          × IsExtent inode (node, item))
        ⊎ (((item.key.objectid == inode && item.key.type_ == extent_data_key) ≡ false)
            × ¬ IsExtent inode (node, item))
  IsExtent-cases item node = ground arith

  -- The scan of a leaf appends the fragments of its items.
  pub file_items_lem :
      (node : List ℕ) (items : List BtrfsItem) (i : ℕ) (frags : List Frag)
      → ItemsFrom node i items
      → All IsRead (entries_of node items)
      → (l : List Frag) × FragsOf fs inode (entries_of node items) l
        × (file_items fs inode node (length items) i frags ≡ ok (go_on (frags ++ l)))
  unfolding file_items
  file_items_lem node [] i frags h g = ([], none_left, rw append-nil)
  file_items_lem node (x ∷ xs) i frags (h, hs) (g, gs) = elim (IsExtent-cases x node) [
    | inr (b, n) ↦
        let (l, p, e) = file_items_lem node xs (i + 1) frags hs gs in
        (l, skip (node, x) n p, rw (h, b, e))
    | inl (b, k) ↦ elim g [
      | inl n ↦ absurd (n k)
      | inr (k', f, r) ↦
          let (l, p, e) = file_items_lem node xs (i + 1) (frags ++ (f ∷ [])) hs gs in
          (
            f ∷ l,
            take_frag (node, x) f k r p,
            rw (h, b, read_extent_item_lem fs node x f frags r, e, append_assoc),
          )
    ]
  ]
