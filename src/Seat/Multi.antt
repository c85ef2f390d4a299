-- ===== src/Seat/Multi.antt =====
-- seat-fdpass-smoke/src/main.rs: `multi_session`, with its two sessions. Each session handles a
-- message as soon as it is sent. The report is left out.
use rignite.Common.{
  ℕ, Option, none, some, List, [], ◌∷◌, ◌++◌, Bool, true, false, not, ◌&&◌, ◌||◌, ◌==◌,
  if◌then◌else◌,
}
use rignite.Common.Text.{Text}
use rignite.Seat.Prog.{Prog, ret, stop, call, open_file, setup_failed, waits_forever, ◌>>=◌, ◌>>◌}
use rignite.Seat.Device.{
  plain, is_zero, unpriv_uid, drm_ioctl_set_master, drm_ioctl_drop_master, eviocrevoke,
  first_crtc_id, evdev_name, setcrtc_master_ok,
}

abbrev pub ms_done : ℕ
ms_done = 0

abbrev pub ms_probe : ℕ
ms_probe = 1

abbrev pub ms_fresh : ℕ
ms_fresh = 2

-- One byte on the socket, perhaps with an open file.
abbrev pub Message : Type 0
Message = ℕ × Option ℕ

-- Where `ms_child` waits: in its first and second `recv_fd`, at the head of its loop, in the
-- `recv_fd` of a fresh file; or it has exited.
pub data Child : Type 0 where
  waits_card : Child
  waits_input : Option ℕ → Child
  serves : Option ℕ → Option ℕ → ℕ → Child
  waits_fresh : Option ℕ → ℕ → Child
  exited : Child

unfoldable pub crtc_of : Option ℕ → Prog ℕ
crtc_of none = ret 0
crtc_of (some card_fd) = do
  r ← first_crtc_id unpriv_uid card_fd
  ret (elim r [ none ↦ 0 | some (id, n) ↦ id ])

abbrev pub byte_of : Bool → ℕ
byte_of true = 1
byte_of false = 0

unfoldable pub input_ok : Option ℕ → Prog Bool
input_ok none = ret false
input_ok (some input_fd) = do
  name ← evdev_name unpriv_uid input_fd
  ret (elim name [ none ↦ false | some n ↦ true ])

unfoldable pub answer_probe : Option ℕ → Option ℕ → ℕ → Prog (List ℕ)
unfolding input_ok
answer_probe card_fd input_fd crtc_id = do
  drm_ok ← setcrtc_master_ok unpriv_uid card_fd crtc_id
  in_ok ← input_ok input_fd
  ret (byte_of drm_ok ∷ byte_of in_ok ∷ [])

-- What `ms_child` makes of a message: where it waits then, and the bytes that it sends.
unfoldable pub ms_child : Child → Message → Prog (Child × List ℕ)
unfolding crtc_of answer_probe
ms_child waits_card (b, fd) = ret (waits_input fd, [])
ms_child (waits_input card_fd) (b, fd) =
    crtc_of card_fd >>= λ crtc_id. ret (serves card_fd fd crtc_id, [])
ms_child (waits_fresh card_fd crtc_id) (b, fd) = ret (serves card_fd fd crtc_id, [])
ms_child exited m = ret (exited, [])
ms_child (serves card_fd input_fd crtc_id) (b, fd) =
    if b == ms_done
    then ret (exited, [])
    else if b == ms_fresh
    then ret (waits_fresh card_fd crtc_id, [])
    else if b == ms_probe
    then (answer_probe card_fd input_fd crtc_id >>= λ out.
        ret (serves card_fd input_fd crtc_id, out))
    else ret (serves card_fd input_fd crtc_id, [])

-- A session as the arbiter sees it: the process, and the bytes that it sent and nobody has read.
pub record Session : Type 0 where
  pub child : Child
  pub unread : List ℕ

abbrev pub new_session : Session
new_session = record { child = waits_card; unread = [] }

unfoldable pub deliver : Session → Message → Prog Session
unfolding ms_child
deliver s m = do
  (child, out) ← ms_child s.child m
  ret (record { child = child; unread = s.unread ++ out })

abbrev pub write_byte : Session → ℕ → Prog Session
write_byte s b = deliver s (b, none)

-- `send_fd`, whose error for a file that is not open is dropped.
unfoldable pub send_fd : Session → Option ℕ → Prog Session
unfolding deliver
send_fd s none = ret s
send_fd s (some fd) = deliver s (1, some fd)

-- `probe` reads until it has two bytes or the session is closed.
unfoldable pub two_bytes : Child → List ℕ → Prog ((ℕ × ℕ) × Session)
two_bytes child (a ∷ b ∷ rest) = ret ((a, b), record { child = child; unread = rest })
two_bytes exited (a ∷ []) = ret ((a, 0), record { child = exited; unread = [] })
two_bytes exited [] = ret ((0, 0), record { child = exited; unread = [] })
two_bytes child rest = stop waits_forever

unfoldable pub probe : Session → Prog ((ℕ × ℕ) × Session)
unfolding deliver two_bytes
probe s = do s' ← write_byte s ms_probe; two_bytes s'.child s'.unread

abbrev pub bool2 : ℕ × ℕ → Bool × Bool
bool2 (a, b) = (not (a == 0), not (b == 0))

abbrev pub or_die : Option ℕ → Prog ℕ
or_die none = stop setup_failed
or_die (some fd) = ret fd

-- A call for a file that may not be open, which is left out then.
abbrev pub revoke : Option ℕ → Prog (Unit {0})
revoke none = ret tt
revoke (some fd) = call (plain 0 fd eviocrevoke) >> ret tt

unfoldable pub open_input : Option Text → Prog (Option ℕ)
open_input none = ret none
open_input (some event) = call (open_file 0 event)

abbrev pub is_some : Option Text → Bool
is_some none = false
is_some (some t) = true

-- Where the kernel let both be master, the intended state is restored.
abbrev pub restored : ℕ → ℕ → Bool → Prog Bool
restored a_card b_card true = ret true
restored a_card b_card false =
    call (plain 0 b_card drm_ioctl_drop_master)
    >> (call (plain 0 a_card drm_ioctl_set_master) >> ret false)

-- Both ask to be master: only the first may.
unfoldable pub check_exclusivity : ℕ → ℕ → Prog Bool
check_exclusivity a_card b_card = do
  am ← call (plain 0 a_card drm_ioctl_set_master)
  bm ← call (plain 0 b_card drm_ioctl_set_master)
  restored a_card b_card (is_zero am && not (is_zero bm))

-- The second half of the switch: B gets an input file that was not revoked.
unfoldable pub send_fresh : Option Text → Session → Prog Session
unfolding deliver send_fd
send_fresh none b = ret b
send_fresh (some event) b = do
  fresh ← call (open_file 0 event)
  b' ← write_byte b ms_fresh
  send_fd b' fresh

-- The switch from A to B. What SET_MASTER for B gave, and the session B.
unfoldable pub switch : Option Text → ℕ → ℕ → Option ℕ → Session → Prog (Bool × Session)
unfolding send_fresh
switch event a_card b_card a_ev b = do
  call (plain 0 a_card drm_ioctl_drop_master)
  revoke a_ev
  b_set ← call (plain 0 b_card drm_ioctl_set_master)
  b' ← send_fresh event b
  ret (is_zero b_set, b')

-- What the two answer, and the two.
abbrev pub Rounds : Type 0
Rounds = ((ℕ × ℕ) × (ℕ × ℕ)) × (Session × Session)

-- One round: A is probed, then B.
unfoldable pub round : Session → Session → Prog Rounds
unfolding probe
round a b = do (x, a') ← probe a; (y, b') ← probe b; ret ((x, y), (a', b'))

-- In front: both; in the back: neither.
abbrev pub verdict : Bool → Bool → Bool → (ℕ × ℕ) × (ℕ × ℕ) → (ℕ × ℕ) × (ℕ × ℕ) → Bool
verdict has_event exclusivity_ok b_set (a1, b1) (a2, b2) =
    let drm_ok = (bool2 a1).0 && (not (bool2 b1).0 && (not (bool2 a2).0 && (bool2 b2).0)) in
    let in_ok =
      not has_event || ((bool2 a1).1 && (not (bool2 b1).1 && (not (bool2 a2).1 && (bool2 b2).1))) in
    exclusivity_ok && (b_set && (drm_ok && in_ok))

-- The end: the sessions exit, and the rounds are compared with what is expected.
unfoldable pub conclude : Bool → Bool → (ℕ × ℕ) × (ℕ × ℕ) → Bool → Rounds → Prog Bool
unfolding deliver
conclude has_event exclusivity_ok first b_set (second, (a, b)) = do
  write_byte a ms_done
  write_byte b ms_done
  ret (verdict has_event exclusivity_ok b_set first second)

module _ (event : Option Text) (a_card b_card : ℕ) (a_ev b_ev : Option ℕ)
    (exclusivity_ok : Bool) where
  unfoldable pub second_round : (ℕ × ℕ) × (ℕ × ℕ) → Session → Bool × Session → Prog Bool
  unfolding round conclude
  second_round first a (b_set, b) =
      round a b >>= conclude (is_some event) exclusivity_ok first b_set

  unfoldable pub switch_over : Rounds → Prog Bool
  unfolding switch second_round
  switch_over (first, (a, b)) = switch event a_card b_card a_ev b >>= second_round first a

  -- B is in the back from the start.
  unfoldable pub first_round : Session → Session → Prog Bool
  unfolding round switch_over
  first_round a b = do revoke b_ev; r ← round a b; switch_over r

  -- The arbiter, when the files are open and the sessions run.
  unfoldable pub arbitrate : Prog Bool
  unfolding send_fd first_round
  arbitrate = do
    a₀ ← send_fd new_session (some a_card)
    a ← send_fd a₀ a_ev
    b₀ ← send_fd new_session (some b_card)
    b ← send_fd b₀ b_ev
    first_round a b

-- Whether the test passes.
unfoldable pub multi_session : Text → Option Text → Prog Bool
unfolding check_exclusivity open_input arbitrate
multi_session card event = do
  a ← call (open_file 0 card)
  b ← call (open_file 0 card)
  a_card ← or_die a
  b_card ← or_die b
  exclusivity_ok ← check_exclusivity a_card b_card
  a_ev ← open_input event
  b_ev ← open_input event
  arbitrate event a_card b_card a_ev b_ev exclusivity_ok
