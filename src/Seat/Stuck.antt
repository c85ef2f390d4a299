-- ===== src/Seat/Stuck.antt =====
-- seat-fdpass-smoke/src/main.rs: `multi_session` without an input device. A session takes the first
-- byte of the probe for its input file, and the arbiter waits for an answer that never comes.
use rignite.Common.{ℕ, suc, ◌≡◌, ◌≢◌, refl, ap, none, some, List, [], Bool, true, In, arith}
use rignite.Common.Text.{Text}
use rignite.Seat.Prog.{
  ret, Request, End, ended, stopped, waits_forever, Law, Wp, Wp->>=, StopsBy, Stops->>=, ◌>>=◌, run,
  run_lem, Kernel,
}
use rignite.Seat.Kernel.{Seat, Documented}
use rignite.Seat.Sessions.{start_lem}
use rignite.Seat.Switch.{zero_is_zero, failed_not_zero}
use rignite.Seat.Multi.{
  Session, send_fd, deliver, ms_child, probe, two_bytes, round, switch_over, first_round, arbitrate,
  check_exclusivity, open_input, multi_session, waits_input, serves, ms_probe,
}

module _ (devices : List Text) where
  abbrev D : Law Seat
  D = Documented devices

  abbrev waiting : ℕ → Session
  waiting card = record { child = waits_input (some card); unread = [] }

  probe_stuck : (s : Seat) (card : ℕ) → Wp D s (probe (waiting card)) (StopsBy waits_forever)
  unfolding probe two_bytes
  probe_stuck s card =
      Wp->>= D s (deliver (waiting card) (ms_probe, none)) (λ t. two_bytes t.child t.unread)
        (λ t s'.
          (id : ℕ) × (id ≢ 0)
          × (t ≡ record { child = serves (some card) none id; unread = [] })
          × (s' ≡ s))
        _ (start_lem devices s card none) (λ t s' (id, n, e, q). rw e refl)

  first_round_stuck :
      (s : Seat) (a b : ℕ)
      → Wp D s (first_round none a b none none true (waiting a) (waiting b)) (StopsBy waits_forever)
  unfolding first_round round
  first_round_stuck s a b =
      Stops->>= D s (round (waiting a) (waiting b)) (switch_over none a b none none true)
        waits_forever
        (Stops->>= D s (probe (waiting a))
          (λ r. probe (waiting b) >>= λ q. ret ((r.0, q.0), (r.1, q.1))) waits_forever
          (probe_stuck s a))

  multi_session_Wp :
      (card : Text)
      → In card devices
      → (n : ℕ)
      → Wp D
          (record { opened = n; master = none; revoked = [] })
          (multi_session card none)
          (StopsBy waits_forever)
  unfolding multi_session check_exclusivity open_input arbitrate send_fd deliver ms_child
  multi_session_Wp card c n = λ x1 s1 d1.
      let (o1, q1) = (d1 c).0 refl in
      rw (o1, q1)
        (λ x2 s2 d2.
          let (o2, q2) = (d2 c).0 refl in
          rw (o2, q2)
            (λ x3 s3 d3.
              let (z3, q3) = d3.set_master refl refl refl in
              rw q3 (λ x4 s4 d4.
                let (f4, q4) = d4.keep_master refl n refl (omega arith) in
                rw (q4, zero_is_zero x3 z3, failed_not_zero x4 f4)
                  (first_round_stuck
                    (record { opened = suc (suc n); master = some n; revoked = [] }) n (suc n)))))

stops_forever :
    (e : End Bool) (s : Seat)
    → StopsBy {A = Bool} {S = Seat} waits_forever e s
    → e ≡ stopped waits_forever
stops_forever (ended a) s h = absurd h
stops_forever (stopped x) s h = ap stopped h

-- On a kernel that lets root open the card, keeps the card's master exclusive and has a CRTC, while
-- nobody is master and nothing is revoked, `multi_session` without an input device never ends: it
-- waits forever for the answer to its first probe.
pub multi_session_stuck :
    {W : Type 0} (devices : List Text) (k : Kernel W) (view : W → Seat)
    → ((r : Request) (w : W) → Documented devices (view w) r (k r w).0 (view (k r w).1))
    → (card : Text) → In card devices
    → (w : W) (n : ℕ) → view w ≡ record { opened = n; master = none; revoked = [] }
    → (run k (multi_session card none) w).0 ≡ stopped waits_forever
multi_session_stuck devices k view l card c w n e = stops_forever _ _ (
    run_lem (Documented devices) k view l (multi_session card none) (StopsBy waits_forever) w
      (rw e (multi_session_Wp devices card c n)))
