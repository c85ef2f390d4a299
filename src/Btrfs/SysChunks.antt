-- ===== src/Btrfs/SysChunks.antt =====
-- src/fs/btrfs.rs: the loop of `load_sys_chunks`, and the items of `load_chunk_tree`.
use rignite.Common.{
  ℕ, zero, suc, ◌+◌, ◌-◌, ◌*◌, ◌≤◌, ◌<◌, ◌≡◌, ◌∙◌, List, [], ◌∷◌, ◌++◌, ok, fault, wild, arith,
  false, leb, lt→ltb, ltb-false, length,
}
use mathlib.Core.List.{append_assoc, append-nil}
use rignite.Btrfs.Key.{BtrfsKey}
use rignite.Btrfs.Layout.{
  BtrfsChunk, BtrfsStripe, peek, chunk_item_key, key_size, chunk_size, stripe_size,
}
use rignite.Btrfs.Decode.{read_key, read_chunk, read_stripe}
use rignite.Btrfs.Volume.{ChunkMap, Btrfs}
use rignite.Btrfs.Mount.{sys_chunks_loop, load_sys_chunks}

-- An entry of the `sys_chunk_array`, with its first stripe.
pub record SysEntry : Type 0 where
  pub key : BtrfsKey
  pub chunk : BtrfsChunk
  pub stripe : BtrfsStripe

abbrev pub entry_size : SysEntry → ℕ
entry_size e = key_size + chunk_size + e.chunk.num_stripes * stripe_size

pub record EntryAt (array : List ℕ) (limit offset : ℕ) (e : SysEntry) : Type 0 where
  pub inside : offset < limit
  pub key_read : read_key array offset ≡ ok e.key
  pub is_chunk : e.key.type_ ≡ chunk_item_key
  pub chunk_read : read_chunk array (offset + key_size) ≡ ok e.chunk
  pub stripe_read : read_stripe array (offset + key_size + chunk_size) ≡ ok e.stripe

-- Entries one after the other from `offset` up to `stop`.
abbrev pub EntriesFrom : List ℕ → ℕ → ℕ → ℕ → List SysEntry → Type 0
EntriesFrom array limit offset stop [] = offset ≡ stop
EntriesFrom array limit offset stop (e ∷ es) =
    EntryAt array limit offset e × EntriesFrom array limit (offset + entry_size e) stop es

abbrev pub chunk_map : SysEntry → ChunkMap
chunk_map e = record { logical = e.key.offset; length = e.chunk.length; physical = e.stripe.offset }

abbrev pub chunk_maps : List SysEntry → List ChunkMap
chunk_maps [] = []
chunk_maps (e ∷ es) = chunk_map e ∷ chunk_maps es

-- One round on an entry.
loop_step :
    (fuel : ℕ) (array : List ℕ) (limit offset : ℕ) (chunks : List ChunkMap) (e : SysEntry)
    → EntryAt array limit offset e
    → sys_chunks_loop (suc fuel) array limit offset chunks
      ≡ sys_chunks_loop fuel array limit (offset + entry_size e) (chunks ++ (chunk_map e ∷ []))
unfolding sys_chunks_loop
loop_step fuel array limit offset chunks e h =
    let n : offset + key_size + chunk_size + e.chunk.num_stripes * stripe_size
        ≡ offset + entry_size e =
      omega arith in
    rw (lt→ltb offset limit h.inside, h.key_read, h.is_chunk, h.chunk_read, h.stripe_read, n)

-- The loop after the entries is the loop from where they stop.
loop-entries :
    (es : List SysEntry) (fuel : ℕ) (array : List ℕ) (limit offset stop : ℕ)
    (chunks : List ChunkMap)
    → EntriesFrom array limit offset stop es
    → limit - offset < fuel
    → (rest : ℕ) × (limit - stop < rest)
      × (sys_chunks_loop fuel array limit offset chunks
          ≡ sys_chunks_loop rest array limit stop (chunks ++ chunk_maps es))
loop-entries [] fuel array limit offset stop chunks h k = (fuel, omega arith, rw (h, append-nil))
loop-entries (e ∷ es) zero array limit offset stop chunks (h, hs) k =
    absurd (omega (arith, h.inside))
loop-entries (e ∷ es) (suc fuel) array limit offset stop chunks (h, hs) k =
    let (rest, r, q) =
      loop-entries es fuel array limit (offset + entry_size e) stop (chunks ++ (chunk_map e ∷ []))
        hs (omega arith) in
    (rest, r, loop_step fuel array limit offset chunks e h ∙ q ∙ simp append_assoc)

-- The array is read to the end that its size states.
loop_end :
    (fuel : ℕ) (array : List ℕ) (limit stop : ℕ) (chunks : List ChunkMap)
    → limit - stop < fuel
    → limit ≤ stop
    → sys_chunks_loop fuel array limit stop chunks ≡ ok chunks
unfolding sys_chunks_loop
loop_end zero array limit stop chunks f h = absurd (omega arith)
loop_end (suc fuel) array limit stop chunks f h = rw (ltb-false stop limit h)

read_key-past :
    (array : List ℕ) (offset : ℕ)
    → length array < offset + key_size
    → read_key array offset ≡ fault wild
unfolding read_key peek
read_key-past array offset h =
    let e : leb (offset + key_size) (length array) ≡ false = ground arith in rw e

-- The entries stop inside the stated size, with too few bytes left for a key.
loop_past :
    (fuel : ℕ) (array : List ℕ) (limit stop : ℕ) (chunks : List ChunkMap)
    → limit - stop < fuel
    → stop < limit
    → length array < stop + key_size
    → sys_chunks_loop fuel array limit stop chunks ≡ fault wild
unfolding sys_chunks_loop
loop_past zero array limit stop chunks f h k = absurd (omega arith)
loop_past (suc fuel) array limit stop chunks f h k =
    rw (lt→ltb stop limit h, read_key-past array stop k)

-- The entries that stand one after the other from the start of the array, up to the size that the
-- superblock states, all become chunks, in their order; the loop ends within its fuel.
pub load_sys_chunks_lem :
    (fs : Btrfs) (es : List SysEntry) (stop : ℕ)
    → EntriesFrom fs.sb.sys_chunk_array fs.sb.sys_chunk_array_size 0 stop es
    → fs.sb.sys_chunk_array_size ≤ stop
    → load_sys_chunks fs ≡ ok (record fs { chunks = fs.chunks ++ chunk_maps es })
unfolding load_sys_chunks
load_sys_chunks_lem fs es stop h k =
    let limit = fs.sb.sys_chunk_array_size in
    let array = fs.sb.sys_chunk_array in
    let (rest, r, q) = loop-entries es (suc limit) array limit 0 stop fs.chunks h (omega arith) in
    rw (q, loop_end rest array limit stop (fs.chunks ++ chunk_maps es) r k)

-- The size is not checked against the array: if the entries stop before the stated size and fewer
-- than 17 bytes of the array are left there, the loop reads memory outside the array.
pub load_sys_chunks_overrun :
    (fs : Btrfs) (es : List SysEntry) (stop : ℕ)
    → EntriesFrom fs.sb.sys_chunk_array fs.sb.sys_chunk_array_size 0 stop es
    → stop < fs.sb.sys_chunk_array_size
    → length fs.sb.sys_chunk_array < stop + key_size
    → load_sys_chunks fs ≡ fault wild
unfolding load_sys_chunks
load_sys_chunks_overrun fs es stop h k o =
    let limit = fs.sb.sys_chunk_array_size in
    let array = fs.sb.sys_chunk_array in
    let (rest, r, q) = loop-entries es (suc limit) array limit 0 stop fs.chunks h (omega arith) in
    rw (q, loop_past rest array limit stop (fs.chunks ++ chunk_maps es) r k o)
