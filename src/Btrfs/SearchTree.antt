-- ===== src/Btrfs/SearchTree.antt =====
-- src/fs/btrfs.rs: on a well-formed tree `search_slot` finds exactly the entry with the key.
use rignite.Common.{
  ℕ, zero, suc, ◌+◌, ◌-◌, ◌*◌, ◌^◌, ◌<◌, ◌≡◌, ◌⊎◌, inl, inr, refl, sym, ap, ◌∙◌, Option, none, some,
  List, [], ◌∷◌, ◌++◌, ok, arith, ◌==◌, if◌then◌else◌, true, false, length, All, Bool-cases, lt→ltb,
  ==_iff,
}
use mathlib.Core.List.{append-nil}
use rignite.Btrfs.Key.{BtrfsKey, KeyLt, lt-of-lt-le, lt-of-le-lt}
use rignite.Btrfs.Layout.{BtrfsItem, header_size, key_ptr_size}
use rignite.Btrfs.Decode.{read_key_ptr}
use rignite.Btrfs.Volume.{Btrfs}
use rignite.Btrfs.Search.{
  leaf_scan, child_scan, next_child, search_loop, search_slot, same_key, is_greater,
}
use rignite.Btrfs.Tree.{
  Entry, Kid, ItemsFrom, PtrsFrom, SortedItems, entries_of, all_entries, Ordered, TreeAt,
  find_entry, is_greater_cases, same_key-false,
}

find_entry-none :
    (key : BtrfsKey) (es : List Entry)
    → All (λ (e : Entry). KeyLt e.1.key key ⊎ KeyLt key e.1.key) es
    → find_entry key es ≡ none
unfolding find_entry
find_entry-none key [] h = refl
find_entry-none key ((node, item) ∷ es) (h, hs) =
    rw (same_key-false item.key key h) (find_entry-none key es hs)

find_entry-append :
    (key : BtrfsKey) (es fs : List Entry)
    → find_entry key es ≡ none
    → find_entry key (es ++ fs) ≡ find_entry key fs
unfolding find_entry
find_entry-append key [] fs h = refl
find_entry-append key ((node, item) ∷ es) fs h = ground (arith, find_entry-append key es fs)

find_entry-append_none :
    (key : BtrfsKey) (es fs : List Entry)
    → find_entry key fs ≡ none
    → find_entry key (es ++ fs) ≡ find_entry key es
unfolding find_entry
find_entry-append_none key [] fs h = h
find_entry-append_none key ((node, item) ∷ es) fs h =
    ground (arith, find_entry-append_none key es fs h)

abbrev item_of : Option Entry → Option BtrfsItem
item_of none = none
item_of (some (node, item)) = some item

above :
    (node : List ℕ) (key : BtrfsKey) (x : BtrfsItem) (xs : List BtrfsItem)
    → KeyLt key x.key
    → All (λ (y : BtrfsItem). KeyLt x.key y.key) xs
    → All (λ (e : Entry). KeyLt e.1.key key ⊎ KeyLt key e.1.key) (entries_of node xs)
above node key x [] h hs = tt
above node key x (y ∷ xs) h (hy, hs) = (inr (omega arith), above node key x xs h hs)

-- The break of the scan loses nothing in a sorted leaf.
leaf_scan_lem :
    (node : List ℕ) (key : BtrfsKey) (items : List BtrfsItem) (i : ℕ)
    → ItemsFrom node i items
    → SortedItems items
    → leaf_scan node key (length items) i ≡ ok (item_of (find_entry key (entries_of node items)))
unfolding leaf_scan find_entry
leaf_scan_lem node key [] i h s = refl
leaf_scan_lem node key (x ∷ xs) i (h, hs) (s, ss) = elim (Bool-cases (same_key x.key key)) [
  | inl e ↦ rw (h, e)
  | inr e ↦ elim (is_greater_cases x.key key) [
    | inl (g, lt) ↦
        rw (h, e, g, find_entry-none key (entries_of node xs) (above node key x xs lt s))
    | inr (g, le) ↦ rw (h, e, g) (leaf_scan_lem node key xs (i + 1) hs ss)
  ]
]

-- The last child whose key is not above `key`, or the first child.
choose : BtrfsKey → Kid → List Kid → Kid
choose key prev [] = prev
choose key prev (k ∷ ks) = if is_greater k.0.key key then prev else choose key k ks

child_scan_lem :
    (node : List ℕ) (key : BtrfsKey) (prev : Kid) (ks : List Kid) (i : ℕ)
    → read_key_ptr node (header_size + i * key_ptr_size) ≡ ok prev.0
    → PtrsFrom node (i + 1) ks
    → (child_scan node key (length ks) (i + 1) ≡ ok (some (choose key prev ks).0.blockptr))
      ⊎ ((child_scan node key (length ks) (i + 1) ≡ ok none)
          × (read_key_ptr node (header_size + (i + length ks) * key_ptr_size)
              ≡ ok (choose key prev ks).0))
unfolding child_scan choose
child_scan_lem node key prev [] i p h = let e : i + 0 ≡ i = omega arith in inr (refl, rw e p)
child_scan_lem node key prev (k ∷ ks) i p (h, hs) = elim (Bool-cases (is_greater k.0.key key)) [
  | inl g ↦
      let z : (i + 1 == 0) ≡ false = ground arith in
      let m : i + 1 - 1 ≡ i = omega arith in inl (rw (h, g, z, m, p))
  | inr g ↦
      let e : i + length (k ∷ ks) ≡ i + 1 + length ks = omega arith in
      elim (child_scan_lem node key k ks (i + 1) h hs) [
        | inl q ↦ inl (rw (h, g) q)
        | inr (q, r) ↦ inr (rw (h, g) q, rw (e, g) r)
      ]
]

-- A first child that is above `key` is chosen, since the later ones are too.
choose_first :
    (key : BtrfsKey) (k : Kid) (ks : List Kid)
    → KeyLt key k.0.key
    → Ordered (k ∷ ks)
    → choose key k ks ≡ k
unfolding choose
choose_first key k [] lt o = refl
choose_first key k (j ∷ js) lt (o, ((a, b), rest), os) = elim (is_greater_cases j.0.key key) [
  | inl (g, h) ↦ rw g
  | inr (g, h) ↦ absurd (h (omega arith))
]

next_child_lem :
    (node : List ℕ) (key : BtrfsKey) (k : Kid) (ks : List Kid)
    → PtrsFrom node 0 (k ∷ ks)
    → Ordered (k ∷ ks)
    → next_child node key (suc (length ks)) ≡ ok (choose key k ks).0.blockptr
unfolding next_child child_scan
next_child_lem node key k ks (p, ps) o = elim (is_greater_cases k.0.key key) [
  | inl (g, lt) ↦ rw (p, g, choose_first key k ks lt o)
  | inr (g, le) ↦ elim (child_scan_lem node key k ks 0 p ps) [
    | inl q ↦ rw (p, g, q)
    | inr (q, r) ↦
        let e : suc (length ks) - 1 ≡ 0 + length ks = omega arith in
        let z : (suc (length ks) == 0) ≡ false = ground arith in rw (p, g, q, z, e, r)
  ]
]

abbrev Apart : BtrfsKey → Entry → Type 0
Apart key e = KeyLt e.1.key key ⊎ KeyLt key e.1.key

All-append :
    (key : BtrfsKey) (xs ys : List Entry)
    → All (Apart key) xs
    → All (Apart key) ys
    → All (Apart key) (xs ++ ys)
All-append key [] ys hx hy = hy
All-append key (x ∷ xs) ys hx hy = (hx.0, All-append key xs ys hx.1 hy)

kid_above :
    (key p : BtrfsKey) (es : List Entry)
    → KeyLt key p
    → All (λ (e : Entry). ¬ KeyLt e.1.key p) es
    → All (Apart key) es
kid_above key p [] lt h = tt
kid_above key p (e ∷ es) lt (h, hs) =
    (inr (lt-of-lt-le key p e.1.key lt h), kid_above key p es lt hs)

kid_below :
    (key p : BtrfsKey) (es : List Entry)
    → ¬ KeyLt key p
    → All (λ (e : Entry). KeyLt e.1.key p) es
    → All (Apart key) es
kid_below key p [] le h = tt
kid_below key p (e ∷ es) le (h, hs) =
    (inl (lt-of-le-lt e.1.key p key h le), kid_below key p es le hs)

later_above :
    (key p : BtrfsKey) (ks : List Kid) (es : List Entry)
    → KeyLt key p
    → All (λ (k : Kid). KeyLt p k.0.key × All (λ (e : Entry). KeyLt e.1.key k.0.key) es) ks
    → All (λ (k : Kid). KeyLt key k.0.key) ks
later_above key p [] es lt h = tt
later_above key p (k ∷ ks) es lt ((h, _), hs) = (omega arith, later_above key p ks es lt hs)

-- All entries below children that are above `key` are above it.
All-above :
    (key : BtrfsKey) (ks : List Kid)
    → All (λ (k : Kid). KeyLt key k.0.key) ks
    → Ordered ks
    → All (Apart key) (all_entries ks)
All-above key [] h o = tt
All-above key ((p, es) ∷ ks) (h, hs) (o, _, os) =
    All-append key es (all_entries ks) (kid_above key p.key es h o) (All-above key ks hs os)

-- The search may forget all children but the chosen one.
find_entry-choose :
    (key : BtrfsKey) (k : Kid) (ks : List Kid)
    → Ordered (k ∷ ks)
    → find_entry key (all_entries (k ∷ ks)) ≡ find_entry key (choose key k ks).1
unfolding choose
find_entry-choose key (p, es) [] o = rw append-nil
find_entry-choose key (p, es) (j ∷ js) (o, ((a, b), rest), os) =
    elim (is_greater_cases j.0.key key) [
      | inl (g, lt) ↦ rw g (
          find_entry-append_none key es (all_entries (j ∷ js)) (
            find_entry-none key _
              (All-above key (j ∷ js) (lt, later_above key j.0.key js j.1 lt os.1) os)))
      | inr (g, le) ↦ rw g (
          find_entry-append key es (all_entries (j ∷ js))
            (find_entry-none key es (kid_below key j.0.key es le b))
          ∙ find_entry-choose key j js os)
    ]

choose_below :
    (Sub : ℕ → List Entry → Type 0) (key : BtrfsKey) (k : Kid) (ks : List Kid)
    → All (λ (j : Kid). Sub j.0.blockptr j.1) (k ∷ ks)
    → Sub (choose key k ks).0.blockptr (choose key k ks).1
unfolding choose
choose_below Sub key k [] (h, hs) = h
choose_below Sub key k (j ∷ js) (h, hs) = elim (Bool-cases (is_greater j.0.key key)) [
  | inl g ↦ rw g h
  | inr g ↦ rw g (choose_below Sub key j js hs)
]

entry_node :
    (key : BtrfsKey) (node : List ℕ) (items : List BtrfsItem)
    → find_entry key (entries_of node items)
      ≡ elim (item_of (find_entry key (entries_of node items))) [
        | none ↦ none
        | some item ↦ some (node, item)
      ]
unfolding find_entry
entry_node key node [] = refl
entry_node key node (x ∷ xs) = ground (arith, entry_node key node xs)

search_loop_lem :
    (fs : Btrfs) (level fuel logical : ℕ) (key : BtrfsKey) (es : List Entry)
    → level < fuel
    → TreeAt fs level logical es
    → search_loop fuel fs logical key ≡ ok (find_entry key es)
unfolding search_loop
search_loop_lem fs zero zero logical key es h t = absurd (omega arith)
search_loop_lem fs zero (suc fuel) logical key es h t =
    let z : (t.header.level == 0) ≡ true = (==_iff _ _).1 t.is_leaf in
    rw
      (
        t.at.node_read,
        t.at.header_read,
        z,
        t.count,
        leaf_scan_lem t.node key t.items 0 t.stored t.sorted,
        t.entries,
      )
      (ap ok (sym (entry_node key t.node t.items)))
search_loop_lem fs (suc level) zero logical key es h t = absurd (omega arith)
search_loop_lem fs (suc level) (suc fuel) logical key es h t =
    let z : (t.header.level == 0) ≡ false = ground (arith, t.is_internal) in
    rw
      (
        t.at.node_read,
        t.at.header_read,
        z,
        t.count,
        next_child_lem t.node key t.first t.others t.stored t.ordered,
      )
      (search_loop_lem fs level fuel _ key _ (omega arith)
          (choose_below (TreeAt fs level) key t.first t.others t.below)
        ∙ ap ok (
            sym (find_entry-choose key t.first t.others t.ordered)
            ∙ ap (find_entry key) (sym t.entries)))

-- On a well-formed tree, whose level is below the fuel and whose nodes have less than 2^63 bytes,
-- `search_slot` ends within one round for each level, without a fault or an error, and returns the
-- first item with the key, in its leaf, or nothing if no item has it. The early end of the scan of
-- a leaf and the choice of one child of each node lose nothing.
pub search_slot_lem :
    (fs : Btrfs) (level fuel root : ℕ) (key : BtrfsKey) (es : List Entry)
    → fs.sb.nodesize < 2 ^ 63
    → level < fuel
    → TreeAt fs level root es
    → search_slot fuel fs root key ≡ ok (find_entry key es)
unfolding search_slot
search_slot_lem fs level fuel root key es small h t =
    rw (lt→ltb fs.sb.nodesize (2 ^ 63) small) (search_loop_lem fs level fuel root key es h t)
