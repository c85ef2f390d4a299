-- ===== src/Seat/Switch.antt =====
-- seat-fdpass-smoke/src/main.rs: how `multi_session` ends on a kernel that does what is documented.
use rignite.Common.{
  ℕ, suc, ◌≡◌, ◌≢◌, inl, refl, sym, ap, none, some, List, [], ◌∷◌, Bool, true, false, In, arith,
}
use rignite.Common.Text.{Text}
use rignite.Seat.Prog.{
  ret, Answer, done, failed, End, ended, stopped, Law, Wp, Ends, Wp->>=, Gives, Gives->>=, ◌>>=◌,
}
use rignite.Seat.Device.{is_zero}
use rignite.Seat.Kernel.{Seat, IsZero, Documented, IsFailed}
use rignite.Seat.Sessions.{IsMaster, IsLive, Serving, probe_lem, start_lem}
use rignite.Seat.Multi.{
  Session, send_fd, deliver, ms_child, probe, byte_of, round, switch, send_fresh, conclude,
  second_round, switch_over, first_round, arbitrate, check_exclusivity, open_input, multi_session,
  waits_input,
}

pub zero_is_zero : (x : Answer) → IsZero x → is_zero x ≡ true
zero_is_zero (done r arg buffers) h = ground (arith, h)
zero_is_zero (failed errno) h = absurd h

pub failed_not_zero : (x : Answer) → IsFailed x → is_zero x ≡ false
failed_not_zero (done r arg buffers) h = absurd h
failed_not_zero (failed errno) h = refl

-- The program ends, and the test passes.
abbrev pub IsPassed : End Bool → Seat → Type 0
IsPassed = Ends (λ v s. v ≡ true)

pub ends_true : (e : End Bool) (s : Seat) → IsPassed e s → e ≡ ended true
ends_true (ended a) s h = ap ended h
ends_true (stopped x) s h = absurd h

other : (a b : ℕ) → a ≢ b → some b ≢ some a
other a b n e = n (sym (ap (λ o. elim o [ none ↦ b | some x ↦ x ]) e))

module _ (devices : List Text) where
  abbrev D : Law Seat
  D = Documented devices

  -- Two sessions with their files, in a state of the kernel.
  module _ (s : Seat) (a ai ida b bi idb : ℕ) (ma la mb lb : Bool) (na : ida ≢ 0)
      (nb : idb ≢ 0) where
    round_lem :
        IsMaster s a ma
        → IsLive s ai la
        → IsMaster s b mb
        → IsLive s bi lb
        → Gives D s
            (round (Serving a ai ida) (Serving b bi idb))
            (
              ((byte_of ma, byte_of la), (byte_of mb, byte_of lb)),
              (Serving a ai ida, Serving b bi idb),
            )
            s
    unfolding round
    round_lem h1 h2 h3 h4 =
        Gives->>= D s s (probe (Serving a ai ida)) ((byte_of ma, byte_of la), Serving a ai ida)
          (λ x. probe (Serving b bi idb) >>= λ y. ret ((x.0, y.0), (x.1, y.1))) _
          (probe_lem devices s a ai ida ma la na h1 h2)
          (Gives->>= D s s (probe (Serving b bi idb)) ((byte_of mb, byte_of lb), Serving b bi idb)
            (λ y. ret (((byte_of ma, byte_of la), y.0), (Serving a ai ida, y.1))) _
            (probe_lem devices s b bi idb mb lb nb h3 h4) (refl, refl))

  switch_lem :
      (event : Text)
      → In event devices
      → (n a b ai bi idb : ℕ) (r : List ℕ)
      → Gives D
          (record { opened = n; master = some a; revoked = r })
          (switch (some event) a b (some ai) (Serving b bi idb))
          (true, Serving b n idb)
          (record { opened = suc n; master = some b; revoked = ai ∷ r })
  unfolding switch send_fresh deliver ms_child send_fd
  switch_lem event i n a b ai bi idb r = λ x1 s1 d1. rw (d1.drop_master refl refl) (λ x2 s2 d2.
      rw (d2.revoke refl) (λ x3 s3 d3.
        let (z, q) = d3.set_master refl refl refl in
        rw q
          (λ x4 s4 d4. let (o, q4) = (d4 i).0 refl in rw (o, q4, zero_is_zero x3 z) (refl, refl))))

  -- From the state in which A is the master and nothing is revoked. The files are the first that were
  -- opened after `n` others.
  module _ (event : Text) (i : In event devices) (n ida idb : ℕ) (na : ida ≢ 0) (nb : idb ≢ 0) where
    abbrev session_a : Session
    session_a = Serving n (suc (suc n)) ida

    abbrev session_b : Session
    session_b = Serving (suc n) (suc (suc (suc n))) idb

    abbrev fresh_b : Session
    fresh_b = Serving (suc n) (suc (suc (suc (suc n)))) idb

    abbrev before_switch : Seat
    before_switch = record {
      opened = suc (suc (suc (suc n)));
      master = some n;
      revoked = (suc (suc (suc n))) ∷ [];
    }

    abbrev after_switch : Seat
    after_switch = record {
      opened = suc (suc (suc (suc (suc n))));
      master = some (suc n);
      revoked = (suc (suc n)) ∷ (suc (suc (suc n))) ∷ [];
    }

    second_round_lem :
        Wp D after_switch
          (second_round
            (some event)
            n
            (suc n)
            (some (suc (suc n)))
            (some (suc (suc (suc n))))
            true
            ((1, 1), (0, 0))
            session_a
            (true, fresh_b))
          IsPassed
    unfolding second_round conclude deliver ms_child
    second_round_lem =
        Gives->>= D after_switch after_switch (round session_a fresh_b)
          (((0, 0), (1, 1)), (session_a, fresh_b)) _ _
          (round_lem after_switch n (suc (suc n)) ida (suc n) (suc (suc (suc (suc n)))) idb false
            false true true na nb (other n (suc n) (omega arith)) (inl refl) refl
            (λ j. ground (arith, j)))
          refl

    switch_over_lem :
        Wp D before_switch
          (switch_over
            (some event)
            n
            (suc n)
            (some (suc (suc n)))
            (some (suc (suc (suc n))))
            true
            (((1, 1), (0, 0)), (session_a, session_b)))
          IsPassed
    unfolding switch_over
    switch_over_lem =
        Gives->>= D before_switch after_switch
          (switch (some event) n (suc n) (some (suc (suc n))) session_b) (true, fresh_b)
          (second_round (some event) n (suc n) (some (suc (suc n))) (some (suc (suc (suc n)))) true
            ((1, 1), (0, 0)) session_a)
          _
          (switch_lem event i (suc (suc (suc (suc n)))) n (suc n) (suc (suc n)) (suc (suc (suc n)))
            idb ((suc (suc (suc n))) ∷ []))
          second_round_lem

    first_round_lem :
        Wp D
          (record { opened = suc (suc (suc (suc n))); master = some n; revoked = [] })
          (first_round
            (some event)
            n
            (suc n)
            (some (suc (suc n)))
            (some (suc (suc (suc n))))
            true
            session_a
            session_b)
          IsPassed
    unfolding first_round
    first_round_lem = λ x s d. rw (d.revoke refl) (
        Gives->>= D before_switch before_switch (round session_a session_b)
          (((1, 1), (0, 0)), (session_a, session_b))
          (switch_over (some event) n (suc n) (some (suc (suc n))) (some (suc (suc (suc n)))) true)
          _
          (round_lem before_switch n (suc (suc n)) ida (suc n) (suc (suc (suc n))) idb true true
            false false na nb refl (λ j. ground (arith, j)) (other (suc n) n (omega arith))
            (inl refl))
          switch_over_lem)

  -- All four files are open, and A is the master.
  abbrev opened : ℕ → Seat
  opened n = record { opened = suc (suc (suc (suc n))); master = some n; revoked = [] }

  abbrev waiting : ℕ → Session
  waiting card = record { child = waits_input (some card); unread = [] }

  arbitrate_lem :
      (event : Text)
      → In event devices
      → (n : ℕ)
      → Wp D
          (opened n)
          (arbitrate (some event) n (suc n) (some (suc (suc n))) (some (suc (suc (suc n)))) true)
          IsPassed
  unfolding arbitrate send_fd deliver ms_child
  arbitrate_lem event i n =
      Wp->>= D (opened n) (send_fd (waiting n) (some (suc (suc n))))
        (λ a. send_fd (waiting (suc n)) (some (suc (suc (suc n)))) >>= λ b.
          first_round (some event) n (suc n) (some (suc (suc n))) (some (suc (suc (suc n)))) true a
            b)
        (λ t s. (id : ℕ) × (id ≢ 0) × (t ≡ Serving n (suc (suc n)) id) × (s ≡ opened n)) _
        (start_lem devices (opened n) n (some (suc (suc n))))
        (λ a s (ida, na, ea, qa).
          rw (ea, qa)
            (Wp->>= D (opened n) (send_fd (waiting (suc n)) (some (suc (suc (suc n)))))
              (λ b.
                first_round (some event) n (suc n) (some (suc (suc n))) (some (suc (suc (suc n))))
                  true (Serving n (suc (suc n)) ida) b)
              (λ t s.
                (id : ℕ) × (id ≢ 0) × (t ≡ Serving (suc n) (suc (suc (suc n))) id) × (s ≡ opened n))
              _ (start_lem devices (opened n) (suc n) (some (suc (suc (suc n)))))
              (λ b s' (idb, nb, eb, qb). rw (eb, qb) (first_round_lem event i n ida idb na nb))))

  -- From the start.
  pub multi_session_Wp :
      (card event : Text)
      → In card devices
      → In event devices
      → (n : ℕ)
      → Wp D
          (record { opened = n; master = none; revoked = [] })
          (multi_session card (some event))
          IsPassed
  unfolding multi_session check_exclusivity open_input
  multi_session_Wp card event c i n = λ x1 s1 d1.
      let (o1, q1) = (d1 c).0 refl in
      rw (o1, q1)
        (λ x2 s2 d2.
          let (o2, q2) = (d2 c).0 refl in
          rw (o2, q2)
            (λ x3 s3 d3.
              let (z3, q3) = d3.set_master refl refl refl in
              rw q3 (λ x4 s4 d4.
                let (f4, q4) = d4.keep_master refl n refl (omega arith) in
                rw (q4, zero_is_zero x3 z3, failed_not_zero x4 f4)
                  (λ x5 s5 d5.
                    let (o5, q5) = (d5 i).0 refl in
                    rw (o5, q5)
                      (λ x6 s6 d6.
                        let (o6, q6) = (d6 i).0 refl in rw (o6, q6) (arbitrate_lem event i n))))))
