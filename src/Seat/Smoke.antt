-- ===== src/Seat/Smoke.antt =====
-- seat-fdpass-smoke/src/main.rs: how `main` ends on a kernel that does what is documented.
use rignite.Common.{
  ℕ, suc, ◌≡◌, ◌≢◌, inl, refl, Option, none, some, List, [], ◌∷◌, Bool, true, false, ◌&&◌, ◌==◌, In,
  arith,
}
use rignite.Common.Text.{Text}
use rignite.Seat.Prog.{
  ret, Request, ended, Law, Wp, Wp->>=, Gives, Gives->>=, ◌>>=◌, run, run_lem, Kernel,
}
use rignite.Seat.Device.{first_crtc_id, evdev_name, unpriv_uid}
use rignite.Seat.Kernel.{Seat, Documented}
use rignite.Seat.Sessions.{IsCrtc, first_crtc_id_lem, past_passes, done_named, failed_unnamed}
use rignite.Seat.Switch.{zero_is_zero, multi_session_Wp, ends_true, IsPassed}
use rignite.Seat.Multi.{open_input}
use rignite.Seat.Single.{
  exit_code, parent_revoke, drives, crtc_or_zero, child_card, child_input, input_half,
  single_session, wait_for_card, wait_for_event, start, main,
}

module _ (devices : List Text) where
  abbrev D : Law Seat
  D = Documented devices

  drives_lem :
      (s : Seat) (fd id : ℕ) → id ≢ 0 → s.master ≡ some fd → Gives D s (drives fd id) true s
  unfolding drives
  drives_lem s fd id n m =
      let z : (id == 0) ≡ false = ground (arith, n) in
      rw z (λ x s' d. let (p, q) = d.setcrtc_master refl m in (past_passes x p, q))

  child_card_lem : (s : Seat) (fd : ℕ) → s.master ≡ some fd → Gives D s (child_card fd) true s
  unfolding child_card
  child_card_lem s fd m = λ x s1 d.
      let (z, q) = d.drm_version refl in
      rw (q, zero_is_zero x z)
        (Wp->>= D s (first_crtc_id unpriv_uid fd)
          (λ r. drives fd (crtc_or_zero r).1 >>= λ drove. ret ((crtc_or_zero r).0 && drove))
          (λ r s'. IsCrtc r × (s' ≡ s)) _ (first_crtc_id_lem devices s fd)
          (λ r s' ((id, n, e, nz), q').
            rw (e, q')
              (Gives->>= D s s (drives fd id) true (λ drove. ret drove) _ (drives_lem s fd id nz m)
                (refl, refl))))

  child_input_lem :
      (s : Seat) (fd : ℕ)
      → ¬ In fd s.revoked
      → Gives D s (child_input (some fd)) true (record s { revoked = fd ∷ s.revoked })
  unfolding child_input evdev_name parent_revoke
  child_input_lem s fd n = λ x1 s1 d1.
      let (z1, q1) = d1.input_version refl n in
      rw (q1, zero_is_zero x1 z1)
        (λ x2 s2 d2.
          let (p2, q2) = d2.name refl n in
          rw q2 (λ x3 s3 d3. rw (d3.revoke refl) (λ x4 s4 d4.
            let (p4, q4) = d4.name_dead refl (inl refl) in
            (rw (done_named x2 p2, failed_unnamed x4 p4) refl, q4))))

  input_half_lem :
      (s : Seat) (event : Text)
      → In event devices
      → (fd : ℕ) → ¬ In fd s.revoked
      → Gives D s (input_half (some event) (some fd)) true (record s { revoked = fd ∷ s.revoked })
  unfolding input_half
  input_half_lem s event i fd n =
      λ x s' d. let (o, q) = (d i).1 (λ e. omega (arith, e)) in rw q (child_input_lem s fd n)

  single_session_Wp :
      (card event : Text)
      → In card devices
      → In event devices
      → (n : ℕ)
      → Wp D
          (record { opened = n; master = none; revoked = [] })
          (single_session card (some event))
          IsPassed
  unfolding single_session open_input
  single_session_Wp card event c i n =
      let s : Seat = record { opened = suc (suc n); master = some n; revoked = [] } in
      λ x1 s1 d1.
        let (o1, q1) = (d1 c).0 refl in
        rw (o1, q1)
          (λ x2 s2 d2.
            let (z2, q2) = d2.drm_version refl in
            rw (q2, zero_is_zero x2 z2)
              (λ x3 s3 d3.
                let (z3, q3) = d3.set_master refl refl refl in
                rw q3 (λ x4 s4 d4.
                  let (o4, q4) = (d4 i).0 refl in
                  rw (o4, q4)
                    (λ x5 s5 d5.
                      let (o5, q5) = (d5 c).1 (λ e. omega (arith, e)) in
                      rw q5 (
                        Gives->>= D s s (child_card n) true
                          (λ card_ok. input_half (some event) (some (suc n)) >>= λ input_ok.
                            ret (exit_code (card_ok && input_ok) == 0))
                          IsPassed (child_card_lem s n refl)
                          (Gives->>= D s (record s { revoked = suc n ∷ [] })
                            (input_half (some event) (some (suc n))) true
                            (λ input_ok. ret (exit_code input_ok == 0)) IsPassed
                            (input_half_lem s event i (suc n) (λ j. j)) refl))))))

  both :
      (multi : Bool) (card event : Text)
      → In card devices
      → In event devices
      → (n : ℕ)
      → Wp D
          (record { opened = n; master = none; revoked = [] })
          (start multi (some event) (some card))
          IsPassed
  both true card event c i n = multi_session_Wp devices card event c i n
  both false card event c i n = single_session_Wp card event c i n

  -- Where the kernel lets root and nobody else open the card and the input device that are found,
  -- answers the requests for their versions, names and CRTCs, keeps the card's master exclusive and
  -- lets a revoked file go dead, the test ends and passes in both of its modes, if nobody is master
  -- and nothing is revoked at the start.
  pub main_lem :
      {W : Type 0} (k : Kernel W) (view : W → Seat)
      → ((r : Request) (w : W) → Documented devices (view w) r (k r w).0 (view (k r w).1))
      → (multi : Bool) (cards events : List (Option (List Text))) (card event : Text)
      → wait_for_card cards ≡ some card
      → wait_for_event events ≡ some event
      → In card devices
      → In event devices
      → (w : W) (n : ℕ) → view w ≡ record { opened = n; master = none; revoked = [] }
      → (run k (main multi cards events) w).0 ≡ ended true
  unfolding main
  main_lem k view l multi cards events card event fc fe c i w n e = ends_true _ _ (
      run_lem D k view l (main multi cards events) IsPassed w
        (rw (e, fc, fe) (both multi card event c i n)))
