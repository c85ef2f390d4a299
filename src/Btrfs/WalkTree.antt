-- ===== src/Btrfs/WalkTree.antt =====
-- src/fs/btrfs.rs: the walk of `read_file` and `find_file_in_dir` over a well-formed tree. It ends
-- within one round for each node, and leaves out no item of the object.
use rignite.Common.{
  ℕ, zero, suc, ◌+◌, ◌≤◌, ◌<◌, ◌≡◌, ◌≢◌, ◌⊎◌, inl, inr, refl, sym, ◌∙◌, List, [], ◌∷◌, ◌++◌, ok,
  arith, ◌==◌, ◌&&◌, Bool, true, false, ltb, leb, if◌then◌else◌, length, All, Bool-cases,
}
use rignite.Btrfs.Key.{KeyLt}
use rignite.Btrfs.Layout.{M}
use rignite.Btrfs.Volume.{Btrfs}
use rignite.Btrfs.Walk.{next_ge, push_children, Scan, go_on, return_, walk}
use rignite.Btrfs.Tree.{Entry, Kid, PtrsFrom, all_entries, Ordered, LeafAt, TreeAt}

-- The sum of a measure over the children of a node.
abbrev pub total {ℓ} : {P : Kid → Type ℓ} → ((k : Kid) → P k → ℕ) → (ks : List Kid) → All P ks → ℕ
total f [] h = 0
total f (k ∷ ks) (h, hs) = f k h + total f ks hs

-- The number of nodes of a tree.
abbrev pub nodes :
    (fs : Btrfs) (level logical : ℕ) (es : List Entry) → TreeAt fs level logical es → ℕ
nodes fs zero logical es t = 1
nodes fs (suc level) logical es t =
    suc (total (λ k. nodes fs level k.0.blockptr k.1) (t.first ∷ t.others) t.below)

-- The children that may hold the object, onto the stack.
abbrev next_reaches : ℕ → List Kid → Bool
next_reaches objectid [] = true
next_reaches objectid (k ∷ ks) = leb objectid k.0.key.objectid

abbrev relevant : ℕ → Kid → List Kid → Bool
relevant objectid k ks = leb k.0.key.objectid objectid && next_reaches objectid ks

pushed : ℕ → List Kid → List ℕ → List ℕ
pushed objectid [] stack = stack
pushed objectid (k ∷ ks) stack =
    pushed objectid ks (if relevant objectid k ks then k.0.blockptr ∷ stack else stack)

next_ge_lem :
    (node : List ℕ) (objectid i : ℕ) (ks : List Kid)
    → PtrsFrom node (i + 1) ks
    → next_ge node objectid (length ks) i ≡ ok (next_reaches objectid ks)
unfolding next_ge
next_ge_lem node objectid i [] h = refl
next_ge_lem node objectid i ((p, es) ∷ ks) (h, hs) =
    let z : (length {A = Kid} ((p, es) ∷ ks) == 0) ≡ false = ground arith in rw (h, z)

push_children_lem :
    (node : List ℕ) (objectid i : ℕ) (ks : List Kid) (stack : List ℕ)
    → PtrsFrom node i ks
    → push_children node objectid (length ks) i stack ≡ ok (pushed objectid ks stack)
unfolding push_children pushed
push_children_lem node objectid i [] stack h = refl
push_children_lem node objectid i ((p, es) ∷ ks) stack (h, hs) =
    rw (h, next_ge_lem node objectid i ks hs) (push_children_lem node objectid (i + 1) ks _ hs)

abbrev pub IsOther : ℕ → Entry → Type 0
IsOther objectid e = e.1.key.objectid ≢ objectid

-- A child that is left out holds no item of the object.
below_start :
    (objectid : ℕ) (k : Kid) (es : List Entry)
    → objectid < k.0.key.objectid
    → All (λ (e : Entry). ¬ KeyLt e.1.key k.0.key) es
    → All (IsOther objectid) es
below_start objectid k [] h hs = tt
below_start objectid k (e ∷ es) h (n, hs) =
    ((λ q. n (inl (omega arith))), below_start objectid k es h hs)

above_end :
    (objectid : ℕ) (k : Kid) (es : List Entry)
    → k.0.key.objectid < objectid
    → All (λ (e : Entry). KeyLt e.1.key k.0.key) es
    → All (IsOther objectid) es
above_end objectid k [] h hs = tt
above_end objectid k (e ∷ es) h (l, hs) = ((λ q. ground arith), above_end objectid k es h hs)

left_out :
    (objectid : ℕ) (k : Kid) (ks : List Kid)
    → Ordered (k ∷ ks)
    → relevant objectid k ks ≡ false
    → All (IsOther objectid) k.1
left_out objectid (p, es) [] o e = below_start objectid (p, es) es (ground arith) o.0
left_out objectid (p, es) (j ∷ js) (o, ((a, b), rest), os) e =
    elim (Bool-cases (leb p.key.objectid objectid)) [
      | inr f ↦ below_start objectid (p, es) es (ground arith) o
      | inl f ↦ above_end objectid j es (ground arith) b
    ]

All-split {ℓ} :
    {A : Type 0} (P : A → Type ℓ) (xs ys : List A) → All P (xs ++ ys) → All P xs × All P ys
All-split P [] ys h = (tt, h)
All-split P (x ∷ xs) ys (h, hs) = let (p, q) = All-split P xs ys hs in ((h, p), q)

-- `Kept` relates entries, what was collected before them and what after them, for a scan that goes
-- on; `Found` relates them to what a scan returns. The walk comes to the later entries first.
module _ {S R : Type 0} (fs : Btrfs) (objectid : ℕ) (leaf : List ℕ → ℕ → S → M (Scan S R))
    (finish : S → M R) (IsGood : Entry → Type 0) (Kept : List Entry → S → S → Type 0)
    (Found : List Entry → S → R → Type 0) where
  abbrev pub Scanned : List Entry → S → Scan S R → Type 0
  Scanned es s (go_on s') = Kept es s s'
  Scanned es s (return_ r) = Found es s r

  -- What the walk needs of its scan of a leaf.
  pub record IsScan : Type 0 where
    pub scans :
        (logical : ℕ) (es : List Entry) (t : LeafAt fs logical es) (s : S)
        → All IsGood es
        → (out : Scan S R) × (leaf t.node t.header.nritems s ≡ ok out) × Scanned es s out
    pub skips : (es : List Entry) (s : S) → All (IsOther objectid) es → Kept es s s
    pub joins :
        (es later : List Entry) (s t u : S) → Kept later s t → Kept es t u → Kept (es ++ later) s u
    pub finds :
        (es later : List Entry) (s t : S) (r : R)
        → Kept later s t
        → Found es t r
        → Found (es ++ later) s r
    pub keeps : (es later : List Entry) (s : S) (r : R) → Found later s r → Found (es ++ later) s r

  -- What a walk comes to after some entries: it returns what is found in them, or goes on from the
  -- rest of the stack with `fuel` rounds at least.
  abbrev Ends : ℕ → List ℕ → List Entry → S → M R → Type 0
  Ends fuel stack es s m =
      ((r : R) × (m ≡ ok r) × Found es s r)
      ⊎ ((rounds : ℕ) × (t : S) × (fuel ≤ rounds)
          × (m ≡ walk fs objectid leaf finish rounds stack t)
          × Kept es s t)

  -- `n` rounds are enough for what `push` puts on the stack.
  abbrev Walks : ℕ → (List ℕ → List ℕ) → List Entry → Type 0
  Walks n push es =
      (fuel rounds : ℕ) (stack : List ℕ) (s : S)
      → n + fuel ≤ rounds
      → Ends fuel stack es s (walk fs objectid leaf finish rounds (push stack) s)

  walk_nil : (rounds : ℕ) (s : S) → walk fs objectid leaf finish rounds [] s ≡ finish s
  unfolding walk
  walk_nil zero s = refl
  walk_nil (suc rounds) s = refl

  module _ (scan : IsScan) where
    after :
        (fuel : ℕ) (stack : List ℕ) (es later : List Entry) (s t : S) (m m' : M R)
        → m ≡ m'
        → Kept later s t
        → Ends fuel stack es t m'
        → Ends fuel stack (es ++ later) s m
    after fuel stack es later s t m m' e k (inl (r, f, h)) =
        inl (r, e ∙ f, scan.finds es later s t r k h)
    after fuel stack es later s t m m' e k (inr (rounds, u, l, f, h)) =
        inr (rounds, u, l, e ∙ f, scan.joins es later s t u k h)

    kid-Walks :
        (n m : ℕ) (k : Kid) (ks : List Kid)
        → Ordered (k ∷ ks)
        → Walks n (λ stack. k.0.blockptr ∷ stack) k.1
        → Walks m (pushed objectid ks) (all_entries ks)
        → Walks (n + m) (pushed objectid (k ∷ ks)) (k.1 ++ all_entries ks)
    unfolding pushed
    kid-Walks n m k ks o here there fuel rounds stack s h =
        elim (there (n + fuel) rounds
          (if relevant objectid k ks then k.0.blockptr ∷ stack else stack) s (omega (arith, h))) [
            | inl (r, e, f) ↦ inl (r, e, scan.keeps k.1 (all_entries ks) s r f)
            | inr (rounds', t, l, e, f) ↦
                after fuel stack k.1 (all_entries ks) s t _ _ e f
                  (elim (Bool-cases (relevant objectid k ks)) [
                    | inl b ↦ rw b (here fuel rounds' stack t l)
                    | inr b ↦ rw b (
                        inr (
                          rounds',
                          t,
                          omega (arith, l),
                          refl,
                          scan.skips k.1 t (left_out objectid k ks o b),
                        ))
                  ])
          ]

    kids_walk :
        (level : ℕ) (P : Kid → Type 0) (size : (k : Kid) → P k → ℕ) (ks : List Kid) (all : All P ks)
        → Ordered ks
        → ((k : Kid) (p : P k)
            → All IsGood k.1
            → Walks (size k p) (λ stack. k.0.blockptr ∷ stack) k.1)
        → All IsGood (all_entries ks)
        → Walks (total size ks all) (pushed objectid ks) (all_entries ks)
    kids_walk level P size [] all o step g = λ fuel rounds stack s h.
        unfold pushed in inr (rounds, s, omega (arith, h), refl, scan.skips [] s tt)
    kids_walk level P size ((p, es) ∷ ks) (h, hs) o step g =
        let (a, b) = All-split IsGood es (all_entries ks) g in
        kid-Walks (size (p, es) h) (total size ks hs) (p, es) ks o (step (p, es) h a)
          (kids_walk level P size ks hs o.2 step b)

    -- After the scan of a leaf.
    resume :
        (fuel rounds : ℕ) (stack : List ℕ) (es : List Entry) (s : S) (out : Scan S R)
        → fuel ≤ rounds
        → Scanned es s out
        → Ends fuel stack es s
            (elim out [ go_on t ↦ walk fs objectid leaf finish rounds stack t | return_ r ↦ ok r ])
    resume fuel rounds stack es s (go_on t) h k = inr (rounds, t, h, refl, k)
    resume fuel rounds stack es s (return_ r) h f = inl (r, refl, f)

    tree-Walks :
        (level logical : ℕ) (es : List Entry) (t : TreeAt fs level logical es)
        → All IsGood es
        → Walks (nodes fs level logical es t) (λ stack. logical ∷ stack) es
    unfolding walk
    tree-Walks zero logical es t g fuel zero stack s h = absurd (omega arith)
    tree-Walks zero logical es t g fuel (suc rounds) stack s h =
        let z : ltb 0 t.header.level ≡ false = let l = t.is_leaf in ground (arith, l) in
        let (out, e, k) = scan.scans logical es t s g in
        rw (t.at.node_read, t.at.header_read, z, e)
          (resume fuel rounds stack es s out (omega (arith, h)) k)
    tree-Walks (suc level) logical es t g fuel zero stack s h = absurd (omega (arith, h))
    tree-Walks (suc level) logical es t g fuel (suc rounds) stack s h =
        let z : ltb 0 t.header.level ≡ true = let l = t.is_internal in ground (arith, l) in
        let w =
          kids_walk level (λ k. TreeAt fs level k.0.blockptr k.1)
            (λ k. nodes fs level k.0.blockptr k.1) (t.first ∷ t.others) t.below t.ordered
            (λ k p. tree-Walks level k.0.blockptr k.1 p) (rw t.entries at g) in
        rw
          (
            t.at.node_read,
            t.at.header_read,
            z,
            t.count,
            push_children_lem t.node objectid 0 (t.first ∷ t.others) stack t.stored,
          )
          (rw (sym t.entries) at w fuel rounds stack s (omega (arith, h)))

    -- The walk of a whole tree, on one round for each node.
    pub walk_lem :
        (level logical rounds : ℕ) (es : List Entry) (t : TreeAt fs level logical es) (s : S)
        → All IsGood es
        → nodes fs level logical es t ≤ rounds
        → ((r : R) × (walk fs objectid leaf finish rounds (logical ∷ []) s ≡ ok r) × Found es s r)
          ⊎ ((u : S) × (walk fs objectid leaf finish rounds (logical ∷ []) s ≡ finish u)
              × Kept es s u)
    walk_lem level logical rounds es t s g h =
        elim (tree-Walks level logical es t g 0 rounds [] s (omega (arith, h))) [
          | inl found ↦ inl found
          | inr (rounds', u, l, e, k) ↦ inr (u, e ∙ walk_nil rounds' u, k)
        ]
