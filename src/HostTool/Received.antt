-- ===== src/HostTool/Received.antt =====
-- src/host_test_tool/src/main.rs: the transfer of an image in any packets.
use rignite.Common.{
  ℕ, ◌+◌, ◌-◌, ◌%◌, ◌^◌, ◌≤◌, ◌<◌, ◌≡◌, refl, sym, ap, ◌∙◌, none, some, List, [], ◌∷◌, ◌++◌, All,
  true, false, ok, err, ltb, ltb-false, lt→ltb, bytes_eq, if◌then◌else◌, length, take, drop,
  drop_front, drop-append, take-append, length-append, length-take, take-drop, arith, map,
}
use mathlib.Core.List.{append_assoc, append-nil}
use rignite.Common.Bytes.{
  slice, slice_ok, to_le_bytes, length-to_le_bytes, from_le_bytes-to_le_bytes,
}
use rignite.HostTool.Transfer.{
  ToolError, timeout, checksum_failed, Reading, packet, failed, magic, find_magic, scan, receive,
  transfer,
}
use rignite.HostTool.Magic.{find_magic_lem}

-- A call before the image: it runs out of time, or its bytes have no magic.
abbrev pub IsQuiet : Reading → Type 0
IsQuiet (failed e) = e ≡ timeout
IsQuiet (packet bytes) = find_magic bytes ≡ none

abbrev pub flat : List (List ℕ) → List ℕ
flat [] = []
flat (c ∷ cs) = c ++ flat cs

scan_lem :
    (before : List Reading) (bytes : List ℕ) (offset : ℕ) (later : List Reading)
    → All IsQuiet before
    → find_magic bytes ≡ some offset
    → scan (before ++ (packet bytes ∷ later)) ≡ ok (bytes, offset, later)
unfolding scan
scan_lem [] bytes offset later a e = rw (e, scan) refl
scan_lem (failed x ∷ before) bytes offset later (t, a) e =
    rw (t, scan) (scan_lem before bytes offset later a e)
scan_lem (packet b ∷ before) bytes offset later (n, a) e =
    rw (n, scan) (scan_lem before bytes offset later a e)

receive-done :
    (size total : ℕ) (hashed : List ℕ) (later : List Reading)
    → size ≤ total
    → receive size total hashed later ≡ ok hashed
unfolding receive
receive-done size total hashed [] h = let e = ltb-false total size h in rw e refl
receive-done size total hashed (packet b ∷ later) h = let e = ltb-false total size h in rw e refl
receive-done size total hashed (failed x ∷ later) h = let e = ltb-false total size h in rw e refl

receive_lem :
    (size total : ℕ) (hashed : List ℕ) (chunks : List (List ℕ)) (later : List Reading)
    → All (λ c. 0 < length c) chunks
    → total + length (flat chunks) ≡ size
    → size < 2 ^ 64
    → receive size total hashed (map packet chunks ++ later) ≡ ok (hashed ++ flat chunks)
unfolding receive
receive_lem size total hashed [] later a e h =
    rw append-nil (receive-done size total hashed later (omega arith))
receive_lem size total hashed (c ∷ cs) later (p, a) e h =
    let n = length-append c (flat cs) in
    let t : ltb total size ≡ true = lt→ltb total size (omega arith) in
    let w : (total + length c) % 2 ^ 64 ≡ total + length c = omega arith in
    rw
      (
        t,
        w,
        receive_lem size (total + length c) (hashed ++ c) cs later a (omega arith) h,
        append_assoc,
      )
      refl

-- A field behind `front`, inside the first `a` bytes.
field :
    (front mid back : List ℕ) (a k b : ℕ)
    → length front ≡ k
    → k + length mid ≡ b
    → b ≤ a
    → a ≤ length (front ++ (mid ++ back))
    → slice {E = ToolError} (take a (front ++ (mid ++ back))) k b ≡ ok mid
field front mid back a k b e f g h =
    let whole = front ++ (mid ++ back) in
    let behind : drop k whole ≡ mid ++ back = rw (sym e) (drop_front front (mid ++ back)) in
    let size : b - k ≡ length mid = omega arith in
    let inside : take (b - k) (drop k (take a whole)) ≡ mid =
      take-drop a k (b - k) whole (omega arith) ∙ rw (behind, size) (take-append mid back) in
    slice_ok (take a whole) k b (omega arith) (omega (arith, length-take a whole)) ∙ ap ok inside

skip : (front back : List ℕ) (j n : ℕ) → n ≡ length front + j → drop n (front ++ back) ≡ drop j back
skip front back j n e = rw e (drop-append front back j)

-- The header, its fields and what follows it.
module _ (size checksum reserved first : List ℕ) where
  abbrev pub from_magic : List ℕ
  from_magic = magic ++ (size ++ (checksum ++ (reserved ++ first)))

  module _ (s : length size ≡ 8) (c : length checksum ≡ 32) (r : length reserved ≡ 84) where
    pub length-from_magic : length from_magic ≡ 128 + length first
    length-from_magic = omega (
      arith,
      length-append size (checksum ++ (reserved ++ first)),
      length-append checksum (reserved ++ first),
      length-append reserved first,
    )

    pub size_field : slice {E = ToolError} (take 128 from_magic) 4 12 ≡ ok size
    size_field =
        field magic size (checksum ++ (reserved ++ first)) 128 4 12 refl (omega arith) (omega arith)
          (omega (arith, length-from_magic))

    pub checksum_field : slice {E = ToolError} (take 128 from_magic) 12 44 ≡ ok checksum
    checksum_field =
        let l = length-append magic size in
        field (magic ++ size) checksum (reserved ++ first) 128 12 44 (omega arith) (omega arith)
          (omega arith) (omega (arith, length-from_magic))

    pub behind_header : drop 128 from_magic ≡ first
    behind_header =
        skip size (checksum ++ (reserved ++ first)) 116 124 (omega arith)
        ∙ skip checksum (reserved ++ first) 84 116 (omega arith)
        ∙ skip reserved first 0 84 (omega arith)

-- The packet in which an image starts: whatever precedes the magic, the header of 128 bytes, with
-- the size and the checksum, and the first bytes of the image.
abbrev pub first_packet : List ℕ → ℕ → List ℕ → List ℕ → List ℕ → List ℕ
first_packet pre size checksum reserved first =
    pre ++ from_magic (to_le_bytes 8 size) checksum reserved first

module _ (sha256 : List ℕ → List ℕ) where
  -- An image is sent in a packet with its header and in further packets that are not empty, after
  -- packets without the magic and calls that time out. Then the tool succeeds exactly if the
  -- checksum of the header is that of the bytes of the image, in the order in which they came, and
  -- fails with the checksum error if not; what arrives after the image is not read.
  pub transfer_lem :
      (before : List Reading) (pre checksum reserved first : List ℕ) (chunks : List (List ℕ))
      (later : List Reading)
      → let image = first ++ flat chunks in
        All IsQuiet before
        → find_magic pre ≡ none
        → length checksum ≡ 32
        → length reserved ≡ 84
        → All (λ c. 0 < length c) chunks
        → length image < 2 ^ 64
        → transfer sha256 (
            before
            ++ (packet (first_packet pre (length image) checksum reserved first)
                ∷ (map packet chunks ++ later)))
          ≡ (if bytes_eq (sha256 image) checksum then ok tt else err checksum_failed)
  unfolding transfer
  transfer_lem before pre checksum reserved first chunks later q n c r a h =
      let image = first ++ flat chunks in
      let size = to_le_bytes 8 (length image) in
      let s = length-to_le_bytes 8 (length image) in
      let rest = from_magic size checksum reserved first in
      let found =
        scan_lem before (pre ++ rest) (length pre) (map packet chunks ++ later) q
          (find_magic_lem pre (size ++ (checksum ++ (reserved ++ first))) n) in
      let l = length-append pre rest in
      let k = length-from_magic size checksum reserved first s c r in
      let long : ltb (length (pre ++ rest) - length pre) 128 ≡ false =
        ltb-false _ _ (omega arith) in
      let two : length pre + 128 - length pre ≡ 128 = omega arith in
      let header : slice {E = ToolError} (pre ++ rest) (length pre) (length pre + 128)
          ≡ ok (take 128 rest) =
        slice_ok (pre ++ rest) _ _ (omega arith) (omega arith) ∙ rw (two, drop_front) refl in
      let behind : drop (length pre + 128) (pre ++ rest) ≡ first =
        drop-append pre rest 128 ∙ behind_header size checksum reserved first s c r in
      let number = from_le_bytes-to_le_bytes 8 (length image) (omega arith) in
      let bytes =
        receive_lem (length image) (length first) first chunks later a
          (sym (length-append first (flat chunks))) h in
      rw
        (
          found,
          long,
          header,
          size_field size checksum reserved first s c r,
          checksum_field size checksum reserved first s c r,
          behind,
          number,
          bytes,
        )
        refl
