-- ===== src/Seat/Single.antt =====
-- seat-fdpass-smoke/src/main.rs: `single_session` with its child, and `main`. The report, the mounts
-- and the loading of modules are left out; the socket pair and the fork succeed.
use rignite.Common.{
  ℕ, Option, none, some, List, [], ◌∷◌, ◌++◌, Bool, true, false, not, ◌&&◌, ◌==◌, if◌then◌else◌,
  take, replicate,
}
use rignite.Common.Text.{Text, codes, starts_with}
use rignite.Seat.Prog.{
  Prog, ret, stop, call, open_file, ioctl, setup_failed, waits_forever, ◌>>=◌, ◌>>◌,
}
use rignite.Seat.Device.{
  plain, is_zero, unpriv_uid, drm_ioctl_version, drm_ioctl_set_master, eviocgversion, eviocrevoke,
  first_crtc_id, evdev_name, setcrtc, passed_gate,
}
use rignite.Seat.Multi.{or_die, open_input, multi_session}

abbrev pub or_stop : Bool → Prog (Unit {0})
or_stop true = ret tt
or_stop false = stop setup_failed

-- SETCRTC, which is tried only where there is a CRTC.
unfoldable pub drives : ℕ → ℕ → Prog Bool
unfolding passed_gate
drives fd crtc_id =
    if crtc_id == 0
    then ret true
    else (call (setcrtc unpriv_uid fd crtc_id) >>= λ a. ret (passed_gate a))

abbrev pub crtc_or_zero : Option (ℕ × ℕ) → Bool × ℕ
crtc_or_zero none = (false, 0)
crtc_or_zero (some (id, connectors)) = (true, id)

-- What the child finds of the card that it received.
unfoldable pub child_card : ℕ → Prog Bool
unfolding drives first_crtc_id
child_card fd = do
  version ← call (ioctl unpriv_uid fd drm_ioctl_version (replicate 64 0) [])
  r ← first_crtc_id unpriv_uid fd
  let found = crtc_or_zero r
  drove ← drives fd found.1
  ret (is_zero version && (found.0 && drove))

abbrev pub is_named : Option (List ℕ) → Bool
is_named none = false
is_named (some name) = true

-- What the parent does when the child has confirmed that its input file works.
unfoldable pub parent_revoke : ℕ → Prog (Unit {0})
parent_revoke event_fd = call (plain 0 event_fd eviocrevoke) >> ret tt

-- The input device: the child uses it, the parent revokes it, and the child finds it dead. Where it
-- could not be opened the parent sends nothing, and the child waits for it.
unfoldable pub child_input : Option ℕ → Prog Bool
unfolding evdev_name parent_revoke
child_input none = stop waits_forever
child_input (some fd) = do
  version ← call (ioctl unpriv_uid fd eviocgversion (replicate 4 0) [])
  name ← evdev_name unpriv_uid fd
  parent_revoke fd
  later ← evdev_name unpriv_uid fd
  ret (is_zero version && (is_named name && not (is_named later)))

-- A child without an input device leaves this half out. The direct open is the control.
unfoldable pub input_half : Option Text → Option ℕ → Prog Bool
unfolding child_input
input_half none event_fd = ret true
input_half (some event) event_fd = do call (open_file unpriv_uid event); child_input event_fd

abbrev pub exit_code : Bool → ℕ
exit_code true = 0
exit_code false = 3

-- The parent's verdict on the child's exit code.
abbrev pub verdict_of : ℕ → Bool
verdict_of code = code == 0

-- Whether the test passes.
unfoldable pub single_session : Text → Option Text → Prog Bool
unfolding child_card input_half open_input
single_session card event = do
  a ← call (open_file 0 card)
  drm_fd ← or_die a
  version ← call (ioctl 0 drm_fd drm_ioctl_version (replicate 64 0) [])
  or_stop (is_zero version)
  call (plain 0 drm_fd drm_ioctl_set_master)
  event_fd ← open_input event
  call (open_file unpriv_uid card)
  card_ok ← child_card drm_fd
  input_ok ← input_half event event_fd
  ret (verdict_of (exit_code (card_ok && input_ok)))

-- `wait_for_card` and `wait_for_event`: the first name with the prefix, in up to 120 readings of the
-- directory, of which each may fail.
unfoldable pub first_named : Text → List Text → Option Text
first_named prefix [] = none
first_named prefix (name ∷ names) =
    if starts_with name prefix then some name else first_named prefix names

unfoldable pub wait_loop : Text → Text → List (Option (List Text)) → Option Text
unfolding first_named
wait_loop dir prefix [] = none
wait_loop dir prefix (none ∷ later) = wait_loop dir prefix later
wait_loop dir prefix (some names ∷ later) = elim (first_named prefix names) [
  | none ↦ wait_loop dir prefix later
  | some name ↦ some (dir ++ name)
]

unfoldable pub wait_for_card : List (Option (List Text)) → Option Text
unfolding wait_loop
wait_for_card readings = wait_loop (codes "/dev/dri/") (codes "card") (take 120 readings)

unfoldable pub wait_for_event : List (Option (List Text)) → Option Text
unfolding wait_loop
wait_for_event readings = wait_loop (codes "/dev/input/") (codes "event") (take 120 readings)

abbrev pub start : Bool → Option Text → Option Text → Prog Bool
start multi event none = stop setup_failed
start multi event (some card) =
    if multi then multi_session card event else single_session card event

-- `main`, where `multi` says whether the command line has `smoke=multi`.
unfoldable pub main : Bool → List (Option (List Text)) → List (Option (List Text)) → Prog Bool
unfolding wait_for_card wait_for_event multi_session single_session
main multi cards events = start multi (wait_for_event events) (wait_for_card cards)
