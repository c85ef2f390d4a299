-- ===== src/Btrfs/Tree.antt =====
-- What a B-tree is on the device, as src/fs/btrfs.rs reads it: nodes of a level, whose children are
-- the trees of the level below, with the items of the leaves in the order of their keys.
use rignite.Common.{
  ℕ, zero, suc, ◌+◌, ◌*◌, ◌≡◌, ◌≢◌, ◌⊎◌, Option, none, some, List, [], ◌∷◌, ◌++◌, ok, arith,
  if◌then◌else◌, true, false, length, All,
}
use rignite.Btrfs.Key.{BtrfsKey, KeyLt, cmp_lexicographic}
use rignite.Btrfs.Layout.{BtrfsHeader, BtrfsItem, BtrfsKeyPtr, header_size, item_size, key_ptr_size}
use rignite.Btrfs.Decode.{read_header, read_item, read_key_ptr}
use rignite.Btrfs.Volume.{Btrfs, read_logical}
use rignite.Btrfs.Search.{same_key, is_greater}

-- An item, with the leaf that holds it.
abbrev pub Entry : Type 0
Entry = List ℕ × BtrfsItem

-- The items from number `i` on, and the child pointers.
abbrev pub ItemsFrom : List ℕ → ℕ → List BtrfsItem → Type 0
ItemsFrom node i [] = Unit
ItemsFrom node i (x ∷ xs) =
    (read_item node (header_size + i * item_size) ≡ ok x) × ItemsFrom node (i + 1) xs

abbrev pub Kid : Type 0
Kid = BtrfsKeyPtr × List Entry

abbrev pub PtrsFrom : List ℕ → ℕ → List Kid → Type 0
PtrsFrom node i [] = Unit
PtrsFrom node i ((p, es) ∷ ks) =
    (read_key_ptr node (header_size + i * key_ptr_size) ≡ ok p) × PtrsFrom node (i + 1) ks

-- The node at a logical address.
pub record NodeAt (fs : Btrfs) (logical : ℕ) (node : List ℕ) (h : BtrfsHeader) : Type 0 where
  pub node_read : read_logical fs logical fs.sb.nodesize fs.sb.nodesize ≡ ok node
  pub header_read : read_header node 0 ≡ ok h

abbrev pub SortedItems : List BtrfsItem → Type 0
SortedItems [] = Unit
SortedItems (x ∷ xs) = All (λ (y : BtrfsItem). KeyLt x.key y.key) xs × SortedItems xs

abbrev pub entries_of : List ℕ → List BtrfsItem → List Entry
entries_of node [] = []
entries_of node (x ∷ xs) = (node, x) ∷ entries_of node xs

abbrev pub all_entries : List Kid → List Entry
all_entries [] = []
all_entries ((p, es) ∷ ks) = es ++ all_entries ks

-- The items below a child are not below its key, and below the key of the next child; the keys of
-- the children ascend.
abbrev pub Ordered : List Kid → Type 0
Ordered [] = Unit
Ordered ((p, es) ∷ ks) =
    All (λ (e : Entry). ¬ KeyLt e.1.key p.key) es
    × All (λ (k : Kid). KeyLt p.key k.0.key × All (λ (e : Entry). KeyLt e.1.key k.0.key) es) ks
    × Ordered ks

pub record LeafAt (fs : Btrfs) (logical : ℕ) (es : List Entry) : Type 0 where
  pub node : List ℕ
  pub header : BtrfsHeader
  pub at : NodeAt fs logical node header
  pub items : List BtrfsItem
  pub is_leaf : header.level ≡ 0
  pub count : header.nritems ≡ length items
  pub stored : ItemsFrom node 0 items
  pub sorted : SortedItems items
  pub entries : es ≡ entries_of node items

pub record BranchAt (fs : Btrfs) (logical : ℕ) (Sub : ℕ → List Entry → Type 0) (es : List Entry)
    : Type 0 where
  pub node : List ℕ
  pub header : BtrfsHeader
  pub at : NodeAt fs logical node header
  pub first : Kid
  pub others : List Kid
  pub is_internal : header.level ≢ 0
  pub count : header.nritems ≡ suc (length others)
  pub stored : PtrsFrom node 0 (first ∷ others)
  pub ordered : Ordered (first ∷ others)
  pub below : All (λ (k : Kid). Sub k.0.blockptr k.1) (first ∷ others)
  pub entries : es ≡ all_entries (first ∷ others)

-- The tree of `level` at a logical address, with the entries of its leaves from left to right.
abbrev pub TreeAt : Btrfs → ℕ → ℕ → List Entry → Type 0
TreeAt fs zero logical es = LeafAt fs logical es
TreeAt fs (suc level) logical es = BranchAt fs logical (TreeAt fs level) es

-- The first entry with the key.
unfoldable pub find_entry : BtrfsKey → List Entry → Option Entry
find_entry key [] = none
find_entry key ((node, item) ∷ es) =
    if same_key item.key key then some (node, item) else find_entry key es

pub is_greater_cases :
    (a b : BtrfsKey)
    → ((is_greater a b ≡ true) × KeyLt b a) ⊎ ((is_greater a b ≡ false) × ¬ KeyLt b a)
is_greater_cases a b = ground (arith, cmp_lexicographic a b)

pub same_key-false : (a b : BtrfsKey) → KeyLt a b ⊎ KeyLt b a → same_key a b ≡ false
same_key-false a b h = ground arith
