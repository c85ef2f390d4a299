-- ===== src/HostTool/Examples.antt =====
-- The theorem on src/host_test_tool/src/main.rs at concrete readings.
use rignite.Common.{
  err, ℕ, ◌≡◌, refl, All, none, List, [], ◌∷◌, ◌++◌, ok, arith, bytes_eq, replicate,
}
use rignite.Common.Text.{starts_with}
use rignite.HostTool.Transfer.{E, usb, no_device, timeout, io, packet, failed, find_magic, transfer}
use rignite.HostTool.Handshake.{Control, string_, start}
use rignite.HostTool.Received.{IsQuiet, first_packet, transfer_lem}

-- A stand-in for the hash: the first bytes, padded.
abbrev toy_hash : List ℕ → List ℕ
toy_hash (a ∷ b ∷ c ∷ rest) = a ∷ b ∷ c ∷ replicate 29 0
toy_hash _ = []

abbrev toy_checksum : List ℕ
toy_checksum = 7 ∷ 8 ∷ 9 ∷ replicate 29 0

noise-IsQuiet : All IsQuiet (failed timeout ∷ packet (1 ∷ 2 ∷ []) ∷ [])
unfolding find_magic starts_with
noise-IsQuiet = (refl, (refl, tt))

find_magic-prefix : find_magic (0x52 ∷ []) ≡ none
unfolding find_magic starts_with
find_magic-prefix = refl

-- A timeout and noise, a packet with one byte of the image, two more bytes, and an error behind.
transfer_lem_example :
    transfer toy_hash (
      (failed timeout ∷ packet (1 ∷ 2 ∷ []) ∷ [])
      ++ (packet (first_packet (0x52 ∷ []) 3 toy_checksum (replicate 84 0) (7 ∷ []))
          ∷ (packet (8 ∷ []) ∷ packet (9 ∷ []) ∷ [] ++ (failed io ∷ []))))
    ≡ ok tt
unfolding bytes_eq
transfer_lem_example =
    transfer_lem toy_hash (failed timeout ∷ packet (1 ∷ 2 ∷ []) ∷ []) (0x52 ∷ []) toy_checksum
      (replicate 84 0) (7 ∷ []) ((8 ∷ []) ∷ (9 ∷ []) ∷ []) (failed io ∷ []) noise-IsQuiet
      find_magic-prefix refl refl (omega arith, (omega arith, tt)) (omega arith)

-- A device of version 2 that goes away at the start.
abbrev goes_away : Control → E (Unit {0})
goes_away (string_ i s) = ok tt
goes_away start = err (usb no_device)

abbrev opens : E (Unit {0})
opens = ok tt

abbrev version_two : E (ℕ × List ℕ)
version_two = ok (2, 2 ∷ 0 ∷ [])
