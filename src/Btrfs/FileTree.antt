-- ===== src/Btrfs/FileTree.antt =====
-- src/fs/btrfs.rs: on a well-formed tree `read_file` gives the file that the extents of the inode
-- make up.
use rignite.Common.{
  ℕ, ◌^◌, ◌≤◌, ◌<◌, ◌≡◌, ◌≢◌, inl, inr, refl, sym, ◌∙◌, some, List, [], ◌∷◌, ◌++◌, ok, lt→ltb,
  length, All, get_elem?,
}
use mathlib.Core.List.{append_assoc, append-nil}
use rignite.Btrfs.Layout.{M}
use rignite.Btrfs.Volume.{Btrfs}
use rignite.Btrfs.Walk.{Scan, go_on}
use rignite.Btrfs.WalkTree.{nodes, Scanned, IsScan, IsOther, walk_lem}
use rignite.Btrfs.Tree.{Entry, LeafAt, TreeAt}
use rignite.Btrfs.File.{Frag, file_items, assemble, read_file}
use rignite.Btrfs.Assemble.{stop, IsShort, Apart, Disjoint, Outside, Placed, assemble_lem}
use rignite.Btrfs.Extents.{
  FragsOf, none_left, skip, FragsOf-append, IsRead, FragsOf-IsRead, FragsOf-unique, file_items_lem,
}

-- The walk comes to the later leaves first, so that the fragments are collected in another order.
data Shuffled : List Frag → List Frag → Type 0 where
  same : (l : List Frag) → Shuffled l l
  flip :
      {a b : List Frag} (l m : List Frag) {c d : List Frag}
      → Shuffled l a
      → Shuffled m b
      → c ≡ l ++ m
      → d ≡ b ++ a
      → Shuffled c d

All-join : (P : Frag → Type 0) (l m : List Frag) → All P l → All P m → All P (l ++ m)
All-join P [] m h k = k
All-join P (f ∷ l) m (h, hs) k = (h, All-join P l m hs k)

All-left : (P : Frag → Type 0) (l m : List Frag) → All P (l ++ m) → All P l
All-left P [] m h = tt
All-left P (f ∷ l) m (h, hs) = (h, All-left P l m hs)

All-right : (P : Frag → Type 0) (l m : List Frag) → All P (l ++ m) → All P m
All-right P [] m h = h
All-right P (f ∷ l) m (h, hs) = All-right P l m hs

All-flip : (P : Frag → Type 0) (l m : List Frag) → All P (l ++ m) → All P (m ++ l)
All-flip P l m h = All-join P m l (All-right P l m h) (All-left P l m h)

All-Shuffled : (P : Frag → Type 0) {l m : List Frag} → Shuffled l m → All P l → All P m
All-Shuffled P (same l) h = h
All-Shuffled P (flip {a} {b} l m p q e f) h =
    let k = rw e at h in
    rw f
      (All-join P b a (All-Shuffled P q (All-right P l m k)) (All-Shuffled P p (All-left P l m k)))

All-Shuffled_back : (P : Frag → Type 0) {l m : List Frag} → Shuffled l m → All P m → All P l
All-Shuffled_back P (same l) h = h
All-Shuffled_back P (flip {a} {b} l m p q e f) h =
    let k = rw f at h in
    rw e (
      All-join P l m (All-Shuffled_back P p (All-right P b a k))
        (All-Shuffled_back P q (All-left P b a k)))

-- Every fragment of the first list is apart from every one of the second.
abbrev Cross : List Frag → List Frag → Type 0
Cross l m = All (λ f. All (Apart f) m) l

Disjoint-join : (l m : List Frag) → Disjoint l → Disjoint m → Cross l m → Disjoint (l ++ m)
Disjoint-join [] m d e c = e
Disjoint-join (f ∷ l) m (a, d) e (b, c) = (All-join (Apart f) l m a b, Disjoint-join l m d e c)

Disjoint-split : (l m : List Frag) → Disjoint (l ++ m) → Disjoint l × Disjoint m × Cross l m
Disjoint-split [] m d = (tt, d, tt)
Disjoint-split (f ∷ l) m (a, d) =
    let (p, q, c) = Disjoint-split l m d in
    ((All-left (Apart f) l m a, p), q, (All-right (Apart f) l m a, c))

Apart-sym : (f g : Frag) → Apart f g → Apart g f
Apart-sym f g (inl h) = inr h
Apart-sym f g (inr h) = inl h

heads : (f : Frag) (l m : List Frag) → Cross l (f ∷ m) → All (Apart f) l × Cross l m
heads f [] m h = (tt, tt)
heads f (g ∷ l) m ((h, hs), c) = let (a, b) = heads f l m c in ((Apart-sym g f h, a), (hs, b))

Cross-sym : (l m : List Frag) → Cross l m → Cross m l
Cross-sym l [] c = tt
Cross-sym l (f ∷ m) c = let (a, b) = heads f l m c in (a, Cross-sym l m b)

Cross-right : (l : List Frag) {m n : List Frag} → Shuffled m n → Cross l m → Cross l n
Cross-right [] p c = tt
Cross-right (f ∷ l) p (h, hs) = (All-Shuffled (Apart f) p h, Cross-right l p hs)

Disjoint-Shuffled : {l m : List Frag} → Shuffled l m → Disjoint l → Disjoint m
Disjoint-Shuffled (same l) d = d
Disjoint-Shuffled (flip {a} {b} l m p q e f) d =
    let (u, v, c) = Disjoint-split l m (rw e at d) in
    let w = Cross-right a q (All-Shuffled (λ g. All (Apart g) m) p c) in
    rw f (Disjoint-join b a (Disjoint-Shuffled q v) (Disjoint-Shuffled p u) (Cross-sym a b w))

module _ (fs : Btrfs) (inode : ℕ) where
  abbrev leaf : List ℕ → ℕ → List Frag → M (Scan (List Frag) (List ℕ))
  leaf node nritems frags = file_items fs inode node nritems 0 frags

  Collected : List Entry → List Frag → List Frag → Type 0
  Collected es s t =
      (l : List Frag) × (m : List Frag) × FragsOf fs inode es l × Shuffled l m × (t ≡ s ++ m)

  abbrev Never : List Entry → List Frag → List ℕ → Type 0
  Never es s r = ⊥

  others : (es : List Entry) → All (IsOther inode) es → FragsOf fs inode es []
  others [] h = none_left
  others (e ∷ es) (h, hs) = skip e (λ k. h k.0) (others es hs)

  leaf_scans :
      (logical : ℕ) (es : List Entry) (t : LeafAt fs logical es) (s : List Frag)
      → All (IsRead fs inode) es
      → (out : Scan (List Frag) (List ℕ)) × (leaf t.node t.header.nritems s ≡ ok out)
        × Scanned fs inode leaf assemble (IsRead fs inode) Collected Never es s out
  unfolding Collected
  leaf_scans logical es t s g =
      let (l, p, e) = file_items_lem fs inode t.node t.items 0 s t.stored (rw t.entries at g) in
      (go_on (s ++ l), rw t.count e, (l, l, rw (sym t.entries) at p, same l, refl))

  file_scan : IsScan fs inode leaf assemble (IsRead fs inode) Collected Never
  unfolding Collected
  file_scan = record {
    scans = leaf_scans;
    skips = λ es s h. ([], [], others es h, same [], sym (append-nil s));
    joins = λ es later s t u (l, m, p, q, e) (l', m', p', q', e'). (
      l' ++ l,
      m ++ m',
      FragsOf-append fs inode p' p,
      flip l' l q' q refl refl,
      rw (e', e, append_assoc),
    );
    finds = λ es later s t r k h. h;
    keeps = λ es later s r h. h;
  }

-- Some fragments in their places: the bytes of each stand at its offset, a position that none covers
-- holds 0, and the length is the least that holds them all.
pub record IsFile (frags : List Frag) (out : List ℕ) : Type 0 where
  pub placed : All (Placed out) frags
  pub zeros : (i : ℕ) → i < length out → All (Outside i) frags → get_elem? out i ≡ some 0
  pub least : (n : ℕ) → All (λ (g : Frag). stop g ≤ n) frags → length out ≤ n

nothing : (l : List Frag) → All (λ f. ⊥) l → l ≡ []
nothing [] h = refl
nothing (f ∷ l) (h, hs) = absurd h

collected-IsFile :
    (l m : List Frag)
    → Shuffled l m
    → l ≢ []
    → All IsShort l
    → Disjoint l
    → (out : List ℕ) × (assemble m ≡ ok out) × IsFile l out
collected-IsFile l [] p n h d = absurd (n (nothing l (All-Shuffled_back (λ f. ⊥) p tt)))
collected-IsFile l (f ∷ m) p n h d =
    let (out, e, a, z, k) = assemble_lem f m (All-Shuffled IsShort p h) (Disjoint-Shuffled p d) in
    (
      out,
      e,
      record {
        placed = All-Shuffled_back (Placed out) p a;
        zeros = λ i b o. z i b (All-Shuffled (Outside i) p o);
        least = λ q o. k q (All-Shuffled (λ (g : Frag). stop g ≤ q) p o);
      },
    )

-- On a well-formed tree whose nodes have less than 2^63 bytes, and in which every extent of the
-- inode is an uncompressed regular one with 0 in its field `offset` that can be read, at least one,
-- none of which overlap or pass 2^63, `read_file` ends without a fault or an error within one round
-- for each node, and gives the bytes of these extents in their places: each one's stand at its
-- position in the file, gaps hold 0, and the length is the least that holds them all. It is the end
-- of the last extent, which the size in the inode does not cut.
pub read_file_lem :
    (fs : Btrfs) (level root inode fuel : ℕ) (es : List Entry) (frags : List Frag)
    (t : TreeAt fs level root es)
    → fs.sb.nodesize < 2 ^ 63
    → nodes fs level root es t ≤ fuel
    → FragsOf fs inode es frags
    → frags ≢ []
    → All IsShort frags
    → Disjoint frags
    → (out : List ℕ) × (read_file fuel fs root inode ≡ ok out) × IsFile frags out
unfolding read_file Collected
read_file_lem fs level root inode fuel es frags t small h x n sh d =
    elim (walk_lem fs inode _ _ _ _ _ (file_scan fs inode) level root fuel es t []
      (FragsOf-IsRead fs inode x) h) [
        | inl (r, q, found) ↦ absurd found
        | inr (u, q, (l, m, y, p, e)) ↦
            let same_frags : l ≡ frags = FragsOf-unique fs inode y x in
            let (out, g, k) =
              collected-IsFile l m p (rw same_frags n) (rw same_frags sh) (rw same_frags d) in
            (out, rw (lt→ltb fs.sb.nodesize (2 ^ 63) small) (q ∙ rw e g), rw same_frags at k)
      ]
