-- ===== src/Btrfs/Walk.antt =====
-- src/fs/btrfs.rs: the walk over a tree that `read_file` and `find_file_in_dir` share: a stack of
-- nodes, from which the children that may hold the object are pushed.
use rignite.Common.{
  ℕ, zero, suc, ◌+◌, ◌*◌, List, [], ◌∷◌, ok, fault, out_of_fuel, ◌>>=◌, ◌&&◌, ltb, leb, ◌==◌,
  if◌then◌else◌, Bool, true,
}
use rignite.Btrfs.Layout.{M, header_size, key_ptr_size}
use rignite.Btrfs.Decode.{read_header, read_key_ptr}
use rignite.Btrfs.Volume.{Btrfs, read_logical}

-- `next_ge`: the next child, if there is one, starts at or above the object.
unfoldable pub next_ge : List ℕ → ℕ → ℕ → ℕ → M Bool
next_ge node objectid n i = if n == 0 then ok true else do
  nk ← read_key_ptr node (header_size + (i + 1) * key_ptr_size)
  ok (leb objectid nk.key.objectid)

-- The children of an internal node onto the stack, whose top is the head of the list: `n` children
-- are left, from the child `i` on.
unfoldable pub push_children : List ℕ → ℕ → ℕ → ℕ → List ℕ → M (List ℕ)
unfolding next_ge
push_children node objectid zero i stack = ok stack
push_children node objectid (suc n) i stack = do
  kp ← read_key_ptr node (header_size + i * key_ptr_size)
  ge ← next_ge node objectid n i
  push_children node objectid n (i + 1)
      (if leb kp.key.objectid objectid && ge then kp.blockptr ∷ stack else stack)

-- `while let Some(logical) = stack.pop()`, on fuel. `leaf` scans a leaf from its bytes, its number
-- of items and what was collected so far; it goes on with what it collected, or returns.
pub data Scan {ℓ} (S R : Type ℓ) : Type ℓ where
  go_on : S → Scan S R
  return_ : R → Scan S R

module _ {S R : Type 0} (fs : Btrfs) (objectid : ℕ) (leaf : List ℕ → ℕ → S → M (Scan S R))
    (finish : S → M R) where
  unfoldable pub walk : ℕ → List ℕ → S → M R
  walk fuel [] s = finish s
  walk zero (logical ∷ stack) s = fault out_of_fuel
  walk (suc fuel) (logical ∷ stack) s = do
    let node_size = fs.sb.nodesize
    node ← read_logical fs logical node_size node_size
    header ← read_header node 0
    if ltb 0 header.level
        then (do pushed ← push_children node objectid header.nritems 0 stack; walk fuel pushed s)
        else do
          out ← leaf node header.nritems s
          elim out [ go_on s' ↦ walk fuel stack s' | return_ r ↦ ok r ]
