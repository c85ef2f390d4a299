-- ===== src/Btrfs/DirTree.antt =====
-- src/fs/btrfs.rs: on a well-formed tree `find_file_in_dir` finds an entry with the name.
use rignite.Common.{
  ℕ, ◌+◌, ◌^◌, ◌≤◌, ◌<◌, ◌≡◌, ◌⊎◌, inl, inr, refl, sym, ap, ◌∙◌, Option, none, some, List, [], ◌∷◌,
  ◌++◌, ok, leb→le, arith, ◌==◌, ◌&&◌, ◌||◌, true, false, leb, le→leb, lt→ltb, length, take, drop,
  All, In, In-append_left, In-append_right, Bool-cases, bytes_eq, bytes_eq→eq, bytes_eq_refl,
}
use mathlib.Core.Bool.{false≢true}
use rignite.Btrfs.Layout.{
  BtrfsItem, BtrfsDirItem, M, header_size, dir_item_size, dir_item_key, dir_index_key, peek,
}
use rignite.Btrfs.Decode.{decode_dir_item, read_dir_item}
use rignite.Btrfs.Volume.{Btrfs}
use rignite.Btrfs.Walk.{Scan, go_on, return_}
use rignite.Btrfs.WalkTree.{nodes, Scanned, IsScan, IsOther, walk_lem}
use rignite.Btrfs.ReadLength.{read_logical-length}
use rignite.Btrfs.Tree.{Entry, ItemsFrom, entries_of, LeafAt, TreeAt}
use rignite.Btrfs.Dir.{Location, match_entry, dir_items, find_file_in_dir}

abbrev IsDirKey : ℕ → BtrfsItem → Type 0
IsDirKey dir item =
    (item.key.objectid ≡ dir) × ((item.key.type_ ≡ dir_index_key) ⊎ (item.key.type_ ≡ dir_item_key))

abbrev dir_item_of : Entry → BtrfsDirItem
dir_item_of (node, item) =
    decode_dir_item (take dir_item_size (drop (header_size + item.offset) node))

abbrev name_at : BtrfsItem → ℕ
name_at item = header_size + item.offset + dir_item_size

-- The entry is one of the directory `dir`, its name lies inside the node and is `name`, and it leads to
-- `location`.
abbrev pub IsNamed : ℕ → ℕ → List ℕ → Entry → Location → Type 0
IsNamed node_size dir name (node, item) location =
    IsDirKey dir item
    × (name_at item + (dir_item_of (node, item)).name_len ≤ node_size)
    × (take (dir_item_of (node, item)).name_len (drop (name_at item) node) ≡ name)
    × (location
        ≡ ((dir_item_of (node, item)).location.objectid, (dir_item_of (node, item)).location.type_))

-- The entry is of another kind, or its directory item lies inside the node.
abbrev pub HasDirItem : ℕ → ℕ → Entry → Type 0
HasDirItem node_size dir (node, item) = IsDirKey dir item → name_at item ≤ node_size

-- What `match_entry` says of an entry of the directory.
Answers : ℕ → ℕ → List ℕ → Entry → Option Location → Type 0
Answers node_size dir name e none = (l : Location) → ¬ IsNamed node_size dir name e l
Answers node_size dir name e (some l) = IsNamed node_size dir name e l

match_entry_lem :
    (node_size dir : ℕ) (name node : List ℕ) (item : BtrfsItem)
    → length node ≡ node_size
    → IsDirKey dir item
    → name_at item ≤ node_size
    → (o : Option Location) × (match_entry node_size node item name ≡ ok o)
      × Answers node_size dir name (node, item) o
unfolding match_entry read_dir_item peek Answers
match_entry_lem node_size dir name node item size key h =
    let a : leb (header_size + item.offset + dir_item_size) (length node) ≡ true =
      le→leb _ _ (omega (arith, size, h)) in
    let d = dir_item_of (node, item) in
    elim (Bool-cases (leb (name_at item + d.name_len) node_size)) [
      | inr far ↦ (none, rw (a, far), λ l n. ground (arith, n.1))
      | inl near ↦
          let b : leb (name_at item + d.name_len) (length node) ≡ true = rw size near in
          elim (Bool-cases (bytes_eq (take d.name_len (drop (name_at item) node)) name)) [
            | inl same ↦ (
              some (d.location.objectid, d.location.type_),
              rw (a, near, b, same),
              (key, leb→le _ _ near, bytes_eq→eq _ _ same, refl),
            )
            | inr other ↦ (
              none,
              rw (a, near, b, other),
              λ l n. false≢true (sym other ∙ rw n.2 (bytes_eq_refl name)),
            )
          ]
    ]

IsDirKey-cases :
    (dir : ℕ) (item : BtrfsItem)
    → (((item.key.objectid == dir
            && (item.key.type_ == dir_index_key || item.key.type_ == dir_item_key))
          ≡ true)
        × IsDirKey dir item)
      ⊎ (((item.key.objectid == dir
              && (item.key.type_ == dir_index_key || item.key.type_ == dir_item_key))
            ≡ false)
          × ¬ IsDirKey dir item)
IsDirKey-cases dir item = ground arith

module _ (node_size dir : ℕ) (name : List ℕ) where
  abbrev pub IsUnnamed : Entry → Type 0
  IsUnnamed e = (l : Location) → ¬ IsNamed node_size dir name e l

  abbrev Unnamed : List Entry → Unit {0} → Unit {0} → Type 0
  Unnamed es s t = All IsUnnamed es

  abbrev Named : List Entry → Unit {0} → Option Location → Type 0
  Named es s r =
      (e : Entry) × (l : Location) × In e es × IsNamed node_size dir name e l × (r ≡ some l)

  abbrev Outcome : List Entry → Scan (Unit {0}) (Option Location) → Type 0
  Outcome es (go_on s) = Unnamed es tt s
  Outcome es (return_ r) = Named es tt r

  -- An outcome, seen with an entry before that does not have the name.
  later :
      (e : Entry) (es : List Entry) (out : Scan (Unit {0}) (Option Location))
      → IsUnnamed e
      → Outcome es out
      → Outcome (e ∷ es) out
  later e es (go_on s) u k = (u, k)
  later e es (return_ r) u (e', l, m, n, q) = (e', l, inr m, n, q)

  abbrev Scans : List Entry → M (Scan (Unit {0}) (Option Location)) → Type 0
  Scans es m = (out : Scan (Unit {0}) (Option Location)) × (m ≡ ok out) × Outcome es out

  conclude :
      (e : Entry) (es : List Entry) (o : Option Location)
      (rest : M (Scan (Unit {0}) (Option Location)))
      → Answers node_size dir name e o
      → Scans es rest
      → Scans (e ∷ es) (elim o [ none ↦ rest | some location ↦ ok (return_ (some location)) ])
  unfolding Answers
  conclude e es none rest a (out, q, k) = (out, q, later e es out a k)
  conclude e es (some l) rest a k = (return_ (some l), refl, (e, l, inl refl, a, refl))

  dir_items_lem :
      (node : List ℕ) (items : List BtrfsItem) (i : ℕ)
      → length node ≡ node_size
      → ItemsFrom node i items
      → All (HasDirItem node_size dir) (entries_of node items)
      → Scans (entries_of node items) (dir_items node_size dir name node (length items) i)
  unfolding dir_items
  dir_items_lem node [] i size h g = (go_on tt, refl, tt)
  dir_items_lem node (x ∷ xs) i size (h, hs) (g, gs) = elim (IsDirKey-cases dir x) [
    | inr (f, other) ↦
        let (out, e, k) = dir_items_lem node xs (i + 1) size hs gs in
        rw (h, f, e) (out, refl, later (node, x) (entries_of node xs) out (λ l n. other n.0) k)
    | inl (f, key) ↦
        let (o, e, a) = match_entry_lem node_size dir name node x size key (g key) in
        rw (h, f, e)
          (conclude (node, x) (entries_of node xs) o _ a (dir_items_lem node xs (i + 1) size hs gs))
  ]

  IsUnnamed-others : (es : List Entry) → All (IsOther dir) es → All IsUnnamed es
  IsUnnamed-others [] h = tt
  IsUnnamed-others (e ∷ es) (h, hs) = ((λ l n. h n.0.0), IsUnnamed-others es hs)

  Named-left :
      (es later' : List Entry) (r : Option Location) → Named es tt r → Named (es ++ later') tt r
  Named-left es later' r (e, l, m, n, q) = (e, l, In-append_left e es later' m, n, q)

  Named-right :
      (es later' : List Entry) (r : Option Location) → Named later' tt r → Named (es ++ later') tt r
  Named-right es later' r (e, l, m, n, q) = (e, l, In-append_right e es later' m, n, q)

All-join :
    (P : Entry → Type 0) (es later : List Entry) → All P es → All P later → All P (es ++ later)
All-join P [] later h k = k
All-join P (e ∷ es) later (h, hs) k = (h, All-join P es later hs k)

module _ (fs : Btrfs) (dir : ℕ) (name : List ℕ) where
  abbrev size : ℕ
  size = fs.sb.nodesize

  abbrev leaf : List ℕ → ℕ → Unit {0} → M (Scan (Unit {0}) (Option Location))
  leaf node nritems s = dir_items size dir name node nritems 0

  abbrev LeafScanned : List Entry → Unit {0} → Scan (Unit {0}) (Option Location) → Type 0
  LeafScanned =
      Scanned fs dir leaf (λ s. ok none) (HasDirItem size dir) (Unnamed size dir name)
        (Named size dir name)

  as_scanned :
      (es : List Entry) (s : Unit {0}) (out : Scan (Unit {0}) (Option Location))
      → Outcome size dir name es out
      → LeafScanned es s out
  as_scanned es s (go_on t) h = h
  as_scanned es s (return_ r) h = h

  leaf_scans :
      (logical : ℕ) (es : List Entry) (t : LeafAt fs logical es) (s : Unit {0})
      → All (HasDirItem size dir) es
      → (out : Scan (Unit {0}) (Option Location)) × (leaf t.node t.header.nritems s ≡ ok out)
        × LeafScanned es s out
  leaf_scans logical es t s g =
      let (out, q, k) =
        dir_items_lem size dir name t.node t.items 0
          (read_logical-length fs logical size t.node t.at.node_read) t.stored
          (rw t.entries at g) in
      (out, rw t.count q, as_scanned es s out (rw (sym t.entries) at k))

  dir_scan :
      IsScan fs dir leaf
        (λ s. ok none)
        (HasDirItem size dir)
        (Unnamed size dir name)
        (Named size dir name)
  dir_scan = record {
    scans = leaf_scans;
    skips = λ es s h. IsUnnamed-others size dir name es h;
    joins = λ es later s t u k h. All-join (IsUnnamed size dir name) es later h k;
    finds = λ es later s t r k h. Named-left size dir name es later r h;
    keeps = λ es later s r h. Named-right size dir name es later r h;
  }

  -- On a well-formed tree whose nodes have less than 2^63 bytes, and whose directory items of the
  -- directory lie inside their nodes, `find_file_in_dir` ends without a fault or an error, within one
  -- round for each node of the tree. What it returns is where an entry of the directory with that name
  -- leads to; it returns nothing exactly when no entry of the directory has the name. The children that
  -- it leaves out hold none.
  pub find_file_in_dir_lem :
      (level root fuel : ℕ) (es : List Entry) (t : TreeAt fs level root es)
      → fs.sb.nodesize < 2 ^ 63
      → nodes fs level root es t ≤ fuel
      → All (HasDirItem size dir) es
      → ((e : Entry) × (l : Location) × In e es
          × IsNamed size dir name e l
          × (find_file_in_dir fuel fs root dir name ≡ ok (some l)))
        ⊎ (All (IsUnnamed size dir name) es × (find_file_in_dir fuel fs root dir name ≡ ok none))
  unfolding find_file_in_dir
  find_file_in_dir_lem level root fuel es t small h g =
      rw (lt→ltb fs.sb.nodesize (2 ^ 63) small)
        (elim (walk_lem fs dir _ _ _ _ _ dir_scan level root fuel es t tt g h) [
          | inl (r, q, (e, l, m, n, p)) ↦ inl (e, l, m, n, q ∙ ap ok p)
          | inr (u, q, k) ↦ inr (k, q)
        ])
