-- ===== src/Btrfs/Reads.antt =====
-- src/fs/btrfs.rs: what `logical_to_physical` and `read_logical` return.
use rignite.Common.{
  ℕ, suc, ◌+◌, ◌-◌, ◌*◌, ◌/◌, ◌%◌, ◌^◌, ◌≤◌, ◌<◌, ◌≡◌, refl, ap, ◌∙◌, ◌⊎◌, inl, inr, none, some,
  List, [], ◌∷◌, ◌++◌, ok, arith, true, false, ==_refl, ◌==◌, length, take, drop, All, length-take,
  length-drop, drop-drop, take-drop, lt→ltb,
}
use native.Mathlib.Nat.{div-lt_iff_lt-mul, lt-div-mul-add, div-mul-le_self, div-add-mod'}
use rignite.Common.Bytes.{slice_ok}
use rignite.Btrfs.Volume.{
  BlockIo, ChunkMap, Btrfs, u64, covers, map_logical, logical_to_physical, read_physical,
  read_logical,
}

-- The chunk holds the address. Neither end of a valid chunk passes 2^64.
abbrev pub Holds : ℕ → ChunkMap → Type 0
Holds logical c = (c.logical ≤ logical) × (logical < c.logical + c.length)

abbrev pub IsValidChunk : ChunkMap → Type 0
IsValidChunk c = (c.logical + c.length < 2 ^ 64) × (c.physical + c.length < 2 ^ 64)

covers_cases :
    (c : ChunkMap) (logical : ℕ)
    → IsValidChunk c
    → ((covers c logical ≡ true) × Holds logical c)
      ⊎ ((covers c logical ≡ false) × ¬ Holds logical c)
unfolding covers
covers_cases c logical v = ground arith

-- In a chunk map whose chunks end below 2^64 an address is translated by the first chunk that
-- holds it, to the same distance from the chunk's physical start; it has no translation exactly
-- when no chunk holds it.
pub map_logical_lem :
    (chunks : List ChunkMap) (logical : ℕ)
    → All IsValidChunk chunks
    → ((front : List ChunkMap) × (c : ChunkMap) × (back : List ChunkMap) × (chunks
          ≡ front ++ (c ∷ back))
        × All (λ d. ¬ Holds logical d) front
        × Holds logical c
        × (map_logical chunks logical ≡ some (c.physical + (logical - c.logical))))
      ⊎ (All (λ d. ¬ Holds logical d) chunks × (map_logical chunks logical ≡ none))
unfolding map_logical
map_logical_lem [] logical v = inr (tt, refl)
map_logical_lem (c ∷ chunks) logical (v, vs) = elim (covers_cases c logical v) [
  | inl (e, h) ↦
      let p : u64 (c.physical + (logical - c.logical)) ≡ c.physical + (logical - c.logical) =
        omega (arith, v.1, h.0, h.1) in
      inl ([], c, chunks, refl, tt, h, rw (e, p))
  | inr (e, n) ↦ elim (map_logical_lem chunks logical vs) [
    | inl (front, d, back, q, before, h, r) ↦
        inl (c ∷ front, d, back, ap (λ l. c ∷ l) q, (n, before), h, rw e r)
    | inr (before, r) ↦ inr ((n, before), rw e r)
  ]
]

-- A device of whole blocks that holds the bytes `disk`: a read of whole blocks inside it succeeds
-- and fills the buffer.
pub record IsDevice (io : BlockIo) (disk : List ℕ) : Type 0 where
  pub block_size_pos : 0 < io.block_size
  pub block_size_u32 : io.block_size < 2 ^ 32
  pub small : length disk < 2 ^ 63
  pub blocks : ℕ
  pub whole : length disk ≡ blocks * io.block_size
  pub reads :
      (lba n : ℕ)
      → lba * io.block_size + n * io.block_size ≤ length disk
      → io.read_blocks lba (n * io.block_size)
        ≡ ok (take (n * io.block_size) (drop (lba * io.block_size) disk))

==_ne_zero : {n : ℕ} → 0 < n → (n == 0) ≡ false
==_ne_zero h = ground arith

mul_mono : (a n b : ℕ) → a ≤ n → a * b ≤ n * b
mul_mono a n b h = grind arith

mul_sub : (a n b : ℕ) → a ≤ n → (n - a) * b ≡ n * b - a * b
mul_sub a n b h = grind arith

le_of_mul : (a n b : ℕ) → 0 < b → a * b ≤ n * b → a ≤ n
le_of_mul a n b hb h = grind arith

le_mul : (a b : ℕ) → 0 < b → a ≤ a * b
le_mul a b hb = grind arith

-- The end of the last block that a read touches, in blocks.
abbrev end_block : ℕ → ℕ → ℕ → ℕ
end_block b p len = (p + len + (b - 1)) / b

-- That block is inside the device.
end_block-le : (b p len n : ℕ) → 0 < b → p + len ≤ n * b → end_block b p len ≤ n
end_block-le b p len n hb h =
    let below : p + len + (b - 1) < suc n * b = grind arith in
    omega (arith, (div-lt_iff_lt-mul {k = b} {x = p + len + (b - 1)} {y = suc n} hb).1 below)

blocks_enough : (b p len : ℕ) → 0 < b → p + len ≤ end_block b p len * b
blocks_enough b p len hb = omega (arith, lt-div-mul-add {a = p + len + (b - 1)} {b = b} hb)

start-le-end : (b p len : ℕ) → 0 < b → p / b ≤ end_block b p len
start-le-end b p len hb =
    le_of_mul _ _ b hb (omega (arith, div-mul-le_self p b, blocks_enough b p len hb))

module _ (io : BlockIo) (disk : List ℕ) (d : IsDevice io disk) (p len : ℕ)
    (inside : p + len ≤ length disk) where
  abbrev b : ℕ
  b = io.block_size

  abbrev last : ℕ
  last = end_block b p len

  -- What the sums of `read_physical` come to: nothing wraps.
  last_inside : last * b ≤ length disk
  last_inside = omega (
    arith,
    d.whole,
    mul_mono last d.blocks b
        (end_block-le b p len d.blocks d.block_size_pos (omega (arith, d.whole, inside))),
  )

  size : (last - p / b) * b ≡ last * b - p / b * b
  size = mul_sub (p / b) last b (start-le-end b p len d.block_size_pos)

  start_below : p / b * b + p % b ≡ p
  start_below = div-add-mod' p b

  enough : p % b + len ≤ (last - p / b) * b
  enough = omega (arith, size, start_below, blocks_enough b p len d.block_size_pos)

  end_exact : u64 (u64 (p + len) + (b - 1)) / b ≡ last
  end_exact =
      let e : u64 (u64 (p + len) + (b - 1)) ≡ p + len + (b - 1) =
        omega (arith, inside, d.small, d.block_size_u32) in
      ap (λ (n : ℕ). n / b) e

  count_exact : u64 (last + 2 ^ 64 - p / b) ≡ last - p / b
  count_exact = omega (
    arith,
    start-le-end b p len d.block_size_pos,
    le_mul last b d.block_size_pos,
    last_inside,
    d.small,
  )

  size_exact : u64 ((last - p / b) * b) ≡ (last - p / b) * b
  size_exact = omega (arith, size, last_inside, d.small)

  part_exact : u64 (p % b + len) ≡ p % b + len
  part_exact = omega (arith, enough, size, last_inside, d.small)

  blocks_read :
      io.read_blocks (p / b) ((last - p / b) * b)
      ≡ ok (take ((last - p / b) * b) (drop (p / b * b) disk))
  blocks_read = d.reads (p / b) (last - p / b) (
      omega
        (arith, size, last_inside, mul_mono (p / b) last b (start-le-end b p len d.block_size_pos)))

  abbrev temp_buf : List ℕ
  temp_buf = take ((last - p / b) * b) (drop (p / b * b) disk)

  part : take (p % b + len - p % b) (drop (p % b) temp_buf) ≡ take len (drop p disk)
  part =
      let n : p % b + len - p % b ≡ len = omega arith in
      rw n (
        take-drop _ (p % b) len (drop (p / b * b) disk) enough
        ∙ rw (drop-drop (p / b * b) (p % b) disk, start_below))

  length_part : length (take len (drop p disk)) ≡ len
  length_part = omega (arith, length-take len (drop p disk), length-drop p disk, inside)

  length_temp : p % b + len ≤ length temp_buf
  length_temp = omega (
    arith,
    length-take ((last - p / b) * b) (drop (p / b * b) disk),
    length-drop (p / b * b) disk,
    size,
    last_inside,
    enough,
    mul_mono (p / b) last b (start-le-end b p len d.block_size_pos),
  )

  read_physical_lem : read_physical io p len len ≡ ok (take len (drop p disk))
  unfolding read_physical
  read_physical_lem = rw (
    (==_ne_zero d.block_size_pos),
    end_exact,
    count_exact,
    size_exact,
    lt→ltb ((last - p / b) * b) (2 ^ 63) (omega (arith, size, last_inside, d.small)),
    blocks_read,
    part_exact,
    slice_ok temp_buf (p % b) (p % b + len) (omega arith) length_temp,
    part,
    length_part,
    ==_refl len,
  )

-- On a device that holds the bytes `disk`, a read of a translated address whose range lies inside
-- the device returns the bytes at the physical address, for any block size: the blocks that are
-- read cover them, nothing wraps or panics, and the alignment of the address does not matter.
pub read_logical_lem :
    (fs : Btrfs) (disk : List ℕ) (logical p len : ℕ)
    → IsDevice fs.block_io disk
    → logical_to_physical fs logical ≡ some p
    → p + len ≤ length disk
    → read_logical fs logical len len ≡ ok (take len (drop p disk))
unfolding read_logical
read_logical_lem fs disk logical p len d e inside =
    rw (e, read_logical) (read_physical_lem fs.block_io disk d p len inside)
