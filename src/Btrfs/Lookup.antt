-- ===== src/Btrfs/Lookup.antt =====
-- src/fs/btrfs.rs: what the lookups give on a volume that is described by its trees: a root, a name
-- in a directory, and a file.
use rignite.Common.{
  ℕ, ◌+◌, ◌^◌, ◌≤◌, ◌<◌, ◌≡◌, ◌≢◌, inl, inr, refl, ap, ◌∙◌, none, some, List, [], ◌∷◌, All, In, ok,
}
use rignite.Btrfs.Key.{BtrfsKey}
use rignite.Btrfs.Key
use rignite.Btrfs.Layout.{BtrfsItem, BtrfsRootItem, header_size, root_item_key}
use rignite.Btrfs.Decode.{read_root_item}
use rignite.Btrfs.Volume.{Btrfs}
use rignite.Btrfs.Search.{get_tree_root}
use rignite.Btrfs.SearchTree.{search_slot_lem}
use rignite.Btrfs.Tree.{Entry, TreeAt, find_entry}
use rignite.Btrfs.WalkTree.{nodes}
use rignite.Btrfs.Dir.{Location, find_file_in_dir}
use rignite.Btrfs.DirTree.{HasDirItem, IsNamed, IsUnnamed, find_file_in_dir_lem}
use rignite.Btrfs.File.{Frag, read_file}
use rignite.Btrfs.Assemble.{IsShort, Disjoint}
use rignite.Btrfs.Extents.{FragsOf}
use rignite.Btrfs.FileTree.{IsFile, read_file_lem}

module _ (fs : Btrfs) (fuel : ℕ) where
  -- A tree at a logical address, small enough for the fuel.
  pub record TreeOf (root : ℕ) : Type 0 where
    pub level : ℕ
    pub entries : List Entry
    pub tree : TreeAt fs level root entries
    pub level_small : level < fuel
    pub nodes_small : nodes fs level root entries tree ≤ fuel

  -- The tree of roots says that the tree `id` stands at `logical`.
  pub record RootOf (top : TreeOf fs.sb.root) (id logical : ℕ) : Type 0 where
    pub leaf : List ℕ
    pub item : BtrfsItem
    pub root_item : BtrfsRootItem
    pub found :
        find_entry (record { objectid = id; type_ = root_item_key; offset = 0 }) top.entries
        ≡ some (leaf, item)
    pub item_read : read_root_item leaf (header_size + item.offset) ≡ ok root_item
    pub stands : root_item.bytenr ≡ logical

  -- The directory items lie inside their nodes, and exactly one location has the name; or none has.
  pub record Leads (es : List Entry) (dir : ℕ) (name : List ℕ) (l : Location) : Type 0 where
    pub inside : All (HasDirItem fs.sb.nodesize dir) es
    pub entry : Entry
    pub present : In entry es
    pub named : IsNamed fs.sb.nodesize dir name entry l
    pub unique :
        All (λ (e : Entry). (l' : Location) → IsNamed fs.sb.nodesize dir name e l' → l' ≡ l) es

  pub record Lacks (es : List Entry) (dir : ℕ) (name : List ℕ) : Type 0 where
    pub inside : All (HasDirItem fs.sb.nodesize dir) es
    pub unnamed : All (IsUnnamed fs.sb.nodesize dir name) es

  -- The extents of an inode.
  pub record HasExtents (es : List Entry) (inode : ℕ) : Type 0 where
    pub frags : List Frag
    pub each : FragsOf fs inode es frags
    pub some_extent : frags ≢ []
    pub short : All IsShort frags
    pub disjoint : Disjoint frags

  All-In : (P : Entry → Type 0) (e : Entry) (es : List Entry) → All P es → In e es → P e
  All-In P e [] a i = absurd i
  All-In P e (x ∷ es) (p, a) (inl q) = rw q p
  All-In P e (x ∷ es) (p, a) (inr i) = All-In P e es a i

  module _ (small : fs.sb.nodesize < 2 ^ 63) where
    pub get_tree_root_lem :
        (top : TreeOf fs.sb.root) (id logical : ℕ)
        → RootOf top id logical
        → get_tree_root fuel fs id ≡ ok logical
    unfolding get_tree_root Key.new
    get_tree_root_lem top id logical r =
        let key : BtrfsKey = record { objectid = id; type_ = root_item_key; offset = 0 } in
        let s =
          search_slot_lem fs top.level fuel fs.sb.root key top.entries small top.level_small
            top.tree in
        rw (s, r.found, r.item_read, r.stands) refl

    pub find_file_in_dir-Leads :
        (root : ℕ) (t : TreeOf root) (dir : ℕ) (name : List ℕ) (l : Location)
        → Leads t.entries dir name l
        → find_file_in_dir fuel fs root dir name ≡ ok (some l)
    find_file_in_dir-Leads root t dir name l h =
        elim (find_file_in_dir_lem fs dir name t.level root fuel t.entries t.tree small
          t.nodes_small h.inside) [
            | inl (e, l', i, n, q) ↦
                q ∙ ap (λ z. ok (some z)) (All-In _ e t.entries h.unique i l' n)
            | inr (u, q) ↦ absurd (All-In _ h.entry t.entries u h.present l h.named)
          ]

    pub find_file_in_dir-Lacks :
        (root : ℕ) (t : TreeOf root) (dir : ℕ) (name : List ℕ)
        → Lacks t.entries dir name
        → find_file_in_dir fuel fs root dir name ≡ ok none
    find_file_in_dir-Lacks root t dir name h =
        elim (find_file_in_dir_lem fs dir name t.level root fuel t.entries t.tree small
          t.nodes_small h.inside) [
            | inl (e, l, i, n, q) ↦ absurd (All-In _ e t.entries h.unnamed i l n)
            | inr (u, q) ↦ q
          ]

    pub read_file-HasExtents :
        (root : ℕ) (t : TreeOf root) (inode : ℕ) (x : HasExtents t.entries inode)
        → (out : List ℕ) × (read_file fuel fs root inode ≡ ok out) × IsFile x.frags out
    read_file-HasExtents root t inode x =
        read_file_lem fs t.level root inode fuel t.entries x.frags t.tree small t.nodes_small x.each
          x.some_extent x.short x.disjoint
