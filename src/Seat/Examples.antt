-- ===== src/Seat/Examples.antt =====
-- The theorems on seat-fdpass-smoke/src/main.rs at a small kernel.
use rignite.Common.{
  ℕ, suc, ◌≡◌, ◌≢◌, ◌⊎◌, inl, inr, refl, ap, ◌++◌, take, drop, Option, none, some, List, [], ◌∷◌,
  Bool, true, false, ◌==◌, if◌then◌else◌, In, All, length, replicate, arith, Bool-cases, ==_iff,
  ◌||◌,
}
use rignite.Common.Bytes.{from_le_bytes}
use rignite.Common.Text.{Text, codes, starts_with}
use rignite.Seat.Prog.{
  Request, Answer, open_file, mmap, fill, open_device, recv_msg, bus_failed, ioctl, done, failed,
  ended, stopped, waits_forever, Kernel, run,
}
use rignite.Seat.Device.{
  drm_ioctl_set_master, drm_ioctl_drop_master, drm_ioctl_mode_getresources, drm_ioctl_mode_setcrtc,
  eviocgname_256, eviocgversion, drm_ioctl_version, eacces, ebusy,
}
use rignite.Seat.Kernel.{Seat, OnIoctl, Documented}
use rignite.Seat.Multi.{multi_session}
use rignite.Seat.Single.{main, wait_for_card, wait_for_event}
use rignite.Seat.Smoke.{main_lem}
use rignite.Seat.Stuck.{multi_session_stuck}

abbrev card0 : Text
card0 = codes "/dev/dri/card0"

abbrev event0 : Text
event0 = codes "/dev/input/event0"

abbrev devices : List Text
devices = card0 ∷ event0 ∷ []

abbrev nothing : Answer
nothing = done 0 [] []

abbrev claim : Seat → ℕ → Option ℕ → Answer × Seat
claim s fd none = (nothing, record s { master = some fd })
claim s fd (some g) = if g == fd then (nothing, s) else (failed ebusy, s)

abbrev gate : ℕ → Option ℕ → Answer
gate fd none = failed eacces
gate fd (some g) = if g == fd then nothing else failed eacces

abbrev mem : ℕ → List ℕ → Bool
mem fd [] = false
mem fd (x ∷ xs) = (fd == x) || mem fd xs

abbrev name_of : Bool → Answer
name_of true = failed 19
name_of false = done 1 (b'k' ∷ 0 ∷ []) []

-- One CRTC with the number 7.
abbrev one_crtc : List ℕ
one_crtc = replicate 36 0 ++ (1 ∷ replicate 27 0)

abbrev filled : List (ℕ × List ℕ) → List (List ℕ)
filled [] = []
filled (b ∷ bs) = (7 ∷ 0 ∷ 0 ∷ 0 ∷ []) ∷ filled bs

abbrev on_ioctl : Seat → ℕ → ℕ → List (ℕ × List ℕ) → Answer × Seat
on_ioctl s fd request buffers =
    if request == drm_ioctl_set_master
    then claim s fd s.master
    else if request == drm_ioctl_drop_master
    then (nothing, record s { master = none })
    else if request == drm_ioctl_mode_setcrtc
    then (gate fd s.master, s)
    else if request == drm_ioctl_mode_getresources
    then (done 0 one_crtc (filled buffers), s)
    else if request == eviocgname_256
    then (name_of (mem fd s.revoked), s)
    else if request == drm_ioctl_version
    then (nothing, s)
    else if request == eviocgversion
    then (nothing, s)
    else (nothing, record s { revoked = fd ∷ s.revoked })

abbrev on_open : Seat → ℕ → Option ℕ × Seat
on_open s uid = if uid == 0 then (some s.opened, record s { opened = suc s.opened }) else (none, s)

abbrev toy : Kernel Seat
toy (open_file uid path) s = on_open s uid
toy (ioctl uid fd request arg buffers) s = on_ioctl s fd request buffers
toy (mmap file size offset) s = (none, s)
toy (fill map count word) s = (tt, s)
toy (open_device path) s = (bus_failed, s)
toy recv_msg s = (none, s)

mem-In : (fd : ℕ) (l : List ℕ) → ((mem fd l ≡ true) × In fd l) ⊎ ((mem fd l ≡ false) × ¬ In fd l)
mem-In fd [] = inr (refl, λ j. j)
mem-In fd (x ∷ xs) = let rest = mem-In fd xs in ground (arith, rest)

member : (fd : ℕ) (l : List ℕ) → In fd l → mem fd l ≡ true
member fd l j = elim (mem-In fd l) [ inl (e, k) ↦ e | inr (e, k) ↦ absurd (k j) ]

stranger : (fd : ℕ) (l : List ℕ) → ¬ In fd l → mem fd l ≡ false
stranger fd l j = elim (mem-In fd l) [ inl (e, k) ↦ absurd (j k) | inr (e, k) ↦ e ]

gate_other : (fd : ℕ) (o : Option ℕ) → o ≢ some fd → gate fd o ≡ failed eacces
gate_other fd none n = refl
gate_other fd (some g) n = elim (Bool-cases (g == fd)) [
  | inl y ↦ absurd (n (ap some ((==_iff g fd).0 y)))
  | inr z ↦ rw z refl
]

length-filled : (l : List (ℕ × List ℕ)) → length (filled l) ≡ length l
length-filled [] = refl
length-filled (b ∷ bs) = ap suc (length-filled bs)

filled_nonzero :
    (l : List (ℕ × List ℕ)) → All (λ (b : List ℕ). from_le_bytes (take 4 (drop 0 b)) ≢ 0) (filled l)
unfolding from_le_bytes
filled_nonzero [] = tt
filled_nonzero (b ∷ bs) = ((λ e. omega (arith, e)), filled_nonzero bs)

toy-OnIoctl :
    (s : Seat) (uid fd request : ℕ) (buffers : List (ℕ × List ℕ))
    → let r = on_ioctl s fd request buffers in OnIoctl s uid fd request buffers r.0 r.1
unfolding from_le_bytes
toy-OnIoctl s uid fd request buffers = record {
  set_master = λ e u m. rw (e, m) (refl, refl);
  keep_master = λ e g m n. let z : (g == fd) ≡ false = ground (arith, n) in rw (e, m, z) (tt, refl);
  drop_master = λ e m. rw e refl;
  setcrtc_master =
      λ e m. let z : (fd == fd) ≡ true = (==_iff fd fd).1 refl in rw (e, m, z) (tt, refl);
  setcrtc_other = λ e m. rw (e, gate_other fd s.master m) (refl, refl);
  getresources = λ e.
      rw e ((refl, (λ z. omega (arith, z)), length-filled buffers, filled_nonzero buffers), refl);
  drm_version = λ e. rw e (refl, refl);
  input_version = λ e i. rw e (refl, refl);
  name_dead = λ e i. rw (e, member fd s.revoked i) (tt, refl);
  name = λ e i. rw (e, stranger fd s.revoked i) (tt, refl);
  revoke = λ e. rw e refl;
}

open_root :
    (uid : ℕ) (s : Seat)
    → uid ≡ 0
    → ((on_open s uid).0 ≡ some s.opened) × ((on_open s uid).1 ≡ record s { opened = suc s.opened })
open_root uid s u = rw u (refl, refl)

open_other : (uid : ℕ) (s : Seat) → uid ≢ 0 → ((on_open s uid).0 ≡ none) × ((on_open s uid).1 ≡ s)
open_other uid s n = let z : (uid == 0) ≡ false = ground (arith, n) in rw z (refl, refl)

toy_law : (r : Request) (s : Seat) → Documented devices s r (toy r s).0 (toy r s).1
toy_law (open_file uid path) s = λ i. (open_root uid s, open_other uid s)
toy_law (ioctl uid fd request arg buffers) s = toy-OnIoctl s uid fd request buffers
toy_law (mmap file size offset) s = tt
toy_law (fill map count word) s = tt
toy_law (open_device path) s = tt
toy_law recv_msg s = tt

abbrev fresh_kernel : Seat
fresh_kernel = record { opened = 0; master = none; revoked = [] }

-- The directory of the card is not there at once.
abbrev cards : List (Option (List Text))
cards = none ∷ some (codes "renderD128" ∷ codes "card0" ∷ []) ∷ []

abbrev events : List (Option (List Text))
events = some (codes "event0" ∷ []) ∷ []

card_found : wait_for_card cards ≡ some card0
unfolding wait_for_card starts_with
card_found = refl

event_found : wait_for_event events ≡ some event0
unfolding wait_for_event starts_with
event_found = refl

main_lem_example : (run toy (main true cards events) fresh_kernel).0 ≡ ended true
main_lem_example =
    main_lem devices toy (λ s. s) toy_law true cards events card0 event0 card_found event_found
      (inl refl) (inr (inl refl)) fresh_kernel 0 refl

multi_session_stuck_example :
    (run toy (multi_session card0 none) fresh_kernel).0 ≡ stopped waits_forever
multi_session_stuck_example =
    multi_session_stuck devices toy (λ s. s) toy_law card0 (inl refl) fresh_kernel 0 refl
