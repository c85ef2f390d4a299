-- ===== src/HostTool/Handshake.antt =====
-- src/host_test_tool/src/main.rs: `find_target_device`, `perform_aoa_handshake` and `send_string`.
use rignite.Common.{
  ℕ, none, some, Option, List, [], ◌∷◌, ◌++◌, Bool, ok, err, fault, ◌>>=◌, ltb, ◌==◌, ◌||◌, not,
  if◌then◌else◌,
}
use rignite.Common.Text.{Text, codes}
use rignite.Common.Bytes.{from_le_bytes}
use rignite.HostTool.Transfer.{protocol_unread, no_accessory, E}

pub record Descriptor : Type 0 where
  pub vendor_id : ℕ
  pub product_id : ℕ

abbrev pub google_vid : ℕ
google_vid = 0x18D1

abbrev pub is_target : Descriptor → Bool
is_target desc = desc.vendor_id == 0x22d9 || desc.vendor_id == google_vid

-- The first device of the vendors. A device whose descriptor cannot be read ends the search.
unfoldable pub first_target : {D : Type 0} → List (D × E Descriptor) → E (Option (D × Descriptor))
first_target [] = ok none
first_target ((device, answer) ∷ devices) = do
  let rest = first_target devices
  desc ← answer
  if is_target desc then ok (some (device, desc)) else rest

unfoldable pub find_target_device :
    {D : Type 0} → E (List (D × E Descriptor)) → E (Option (D × Descriptor))
unfolding first_target
find_target_device answer = do devices ← answer; first_target devices

-- What is written: a string with its index and a null byte behind, or the start.
pub data Control : Type 0 where
  string_ : ℕ → List ℕ → Control
  start : Control

abbrev pub send_string : ℕ → Text → Control
send_string index s = string_ index (s ++ (0 ∷ []))

abbrev pub script : List Control
script =
    send_string 0 (codes "Rignite")
    ∷ send_string 1 (codes "RDF")
    ∷ send_string 2 (codes "Rignite Device Flasher")
    ∷ send_string 3 (codes "1.0")
    ∷ send_string 4 (codes "https://rignite.io")
    ∷ send_string 5 (codes "1234567890")
    ∷ start
    ∷ []

-- The writes that were asked for, and the result.
pub record Sent : Type 0 where
  pub controls : List Control
  pub result : E (Unit {0})

-- `write_control(..)?`, and what follows it.
abbrev pub and_then : Control → E (Unit {0}) → Sent → Sent
and_then c (ok u) rest = record { controls = c ∷ rest.controls; result = rest.result }
and_then c (err e) rest = record { controls = c ∷ []; result = err e }
and_then c (fault x) rest = record { controls = c ∷ []; result = fault x }

module _ (write_control : Control → E (Unit {0})) where
  unfoldable pub send : List Control → Sent
  send [] = record { controls = []; result = ok tt }
  send (c ∷ cs) = and_then c (write_control c) (send cs)

  -- The number of bytes that the device gave for its version, and the two bytes of the buffer.
  unfoldable pub check_version : ℕ × List ℕ → E (Unit {0})
  check_version (len, buf) =
      if not (len == 2)
      then err protocol_unread
      else if ltb (from_le_bytes buf) 1
      then err no_accessory
      else ok tt

  abbrev pub after : E (Unit {0}) → Sent → Sent
  after (ok u) rest = rest
  after (err e) rest = record { controls = []; result = err e }
  after (fault x) rest = record { controls = []; result = fault x }

  unfoldable pub perform_aoa_handshake : E (Unit {0}) → E (ℕ × List ℕ) → Sent
  unfolding send check_version
  perform_aoa_handshake open_device read_control =
      after (open_device >>= λ u. read_control >>= check_version) (send script)
