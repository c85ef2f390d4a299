-- ===== src/Seat/Sessions.antt =====
-- seat-fdpass-smoke/src/main.rs: what a session answers on a kernel that does what is documented.
use rignite.Common.{
  ℕ, ◌≡◌, ◌≢◌, refl, Option, none, some, List, [], ◌∷◌, ◌++◌, Bool, true, false, ◌==◌, In,
  replicate, ◌*◌, arith,
}
use rignite.Common.Text.{Text}
use rignite.Seat.Prog.{ret, Answer, done, failed, Law, Wp, Ends, Wp->>=, Gives, Gives->>=, ◌>>=◌}
use rignite.Seat.Device.{
  u32_at, unpriv_uid, first_crtc_id, crtcs_counted, crtc_found, evdev_name, name_read, passed_gate,
  setcrtc_master_ok,
}
use rignite.Seat.Kernel.{Seat, HasCrtcs, IsPast, IsDone, IsFailed, Documented}
use rignite.Seat.Multi.{
  Child, Message, Session, serves, waits_input, crtc_of, input_ok, answer_probe, ms_child, deliver,
  probe, two_bytes, byte_of, ms_probe,
}

pub past_passes : (x : Answer) → IsPast x → passed_gate x ≡ true
unfolding passed_gate
past_passes (done r arg buffers) h = refl
past_passes (failed errno) (a, p, b) = ground (arith, a, p, b)

abbrev id_of : Option (ℕ × ℕ) → ℕ
id_of r = elim r [ none ↦ 0 | some (id, n) ↦ id ]

abbrev pub IsCrtc : Option (ℕ × ℕ) → Type 0
IsCrtc r = (id : ℕ) × (n : ℕ) × (r ≡ some (id, n)) × (id ≢ 0)

found_lem : (n : ℕ) (x : Answer) (b : ℕ × List ℕ) → HasCrtcs (b ∷ []) x → IsCrtc (crtc_found n x)
unfolding crtc_found
found_lem n (failed errno) b h = absurd h
found_lem n (done r res []) b (z, c, l, a) = absurd (omega (arith, l))
found_lem n (done r res (ids ∷ rest)) b (z, c, l, a) = (u32_at 0 ids, n, rw z refl, a.0)

abbrev has_name : Option (List ℕ) → Bool
has_name o = elim o [ none ↦ false | some n ↦ true ]

pub done_named : (x : Answer) → IsDone x → has_name (name_read x) ≡ true
unfolding name_read
done_named (done n buf buffers) h = refl
done_named (failed errno) h = absurd h

pub failed_unnamed : (x : Answer) → IsFailed x → has_name (name_read x) ≡ false
unfolding name_read
failed_unnamed (done n buf buffers) h = absurd h
failed_unnamed (failed errno) h = refl

-- Whether an open file is the master, and whether it is revoked.
abbrev pub IsMaster : Seat → ℕ → Bool → Type 0
IsMaster s fd true = s.master ≡ some fd
IsMaster s fd false = s.master ≢ some fd

abbrev pub IsLive : Seat → ℕ → Bool → Type 0
IsLive s fd true = ¬ In fd s.revoked
IsLive s fd false = In fd s.revoked

-- The session that serves with a card, an input file and a CRTC.
abbrev pub Serving : ℕ → ℕ → ℕ → Session
Serving card input id = record { child = serves (some card) (some input) id; unread = [] }

module _ (devices : List Text) where
  abbrev D : Law Seat
  D = Documented devices

  counted_lem :
      (s : Seat) (fd : ℕ) (x : Answer)
      → HasCrtcs [] x
      → Wp D s (crtcs_counted unpriv_uid fd x) (Ends (λ r s'. IsCrtc r × (s' ≡ s)))
  unfolding crtcs_counted
  counted_lem s fd (failed errno) h = absurd h
  counted_lem s fd (done r res buffers) (z, c, l, a) =
      let n : (u32_at 36 res == 0) ≡ false = ground (arith, c) in
      rw (z, n)
        (λ x s' d.
          let (h, q) = d.getresources refl in
          (found_lem (u32_at 40 res) x (8, replicate (4 * u32_at 36 res) 0) h, q))

  pub first_crtc_id_lem :
      (s : Seat) (fd : ℕ)
      → Wp D s (first_crtc_id unpriv_uid fd) (Ends (λ r s'. IsCrtc r × (s' ≡ s)))
  unfolding first_crtc_id
  first_crtc_id_lem s fd = λ x s' d. let (h, q) = d.getresources refl in rw q (counted_lem s fd x h)

  crtc_of_lem :
      (s : Seat) (fd : ℕ) → Wp D s (crtc_of (some fd)) (Ends (λ id s'. (id ≢ 0) × (s' ≡ s)))
  unfolding crtc_of
  crtc_of_lem s fd =
      Wp->>= D s (first_crtc_id unpriv_uid fd) (λ r. ret (id_of r)) (λ r s'. IsCrtc r × (s' ≡ s)) _
        (first_crtc_id_lem s fd) (λ r s' (c, q). (rw c.2 c.3, q))

  gate_lem :
      (s : Seat) (fd id : ℕ) (m : Bool)
      → id ≢ 0
      → IsMaster s fd m
      → Gives D s (setcrtc_master_ok unpriv_uid (some fd) id) m s
  unfolding setcrtc_master_ok passed_gate
  gate_lem s fd id true n m =
      let z : (id == 0) ≡ false = ground (arith, n) in
      rw z (λ x s' d. let (p, q) = d.setcrtc_master refl m in (past_passes x p, q))
  gate_lem s fd id false n m =
      let z : (id == 0) ≡ false = ground (arith, n) in
      rw z (λ x s' d. let (p, q) = d.setcrtc_other refl m in rw p (refl, q))

  input_lem : (s : Seat) (fd : ℕ) (l : Bool) → IsLive s fd l → Gives D s (input_ok (some fd)) l s
  unfolding input_ok evdev_name
  input_lem s fd true l = λ x s' d. let (p, q) = d.name refl l in (done_named x p, q)
  input_lem s fd false l = λ x s' d. let (p, q) = d.name_dead refl l in (failed_unnamed x p, q)

  answer_probe_lem :
      (s : Seat) (card input id : ℕ) (m l : Bool)
      → id ≢ 0
      → IsMaster s card m
      → IsLive s input l
      → Gives D s (answer_probe (some card) (some input) id) (byte_of m ∷ byte_of l ∷ []) s
  unfolding answer_probe
  answer_probe_lem s card input id m l n hm hl =
      Gives->>= D s s (setcrtc_master_ok unpriv_uid (some card) id) m
        (λ b. input_ok (some input) >>= λ c. ret (byte_of b ∷ byte_of c ∷ [])) _
        (gate_lem s card id m n hm)
        (Gives->>= D s s (input_ok (some input)) l (λ c. ret (byte_of m ∷ byte_of c ∷ [])) _
          (input_lem s input l hl) (refl, refl))

  pub deliver_lem :
      (s t : Seat) (c c' : Child) (m : Message) (out : List ℕ)
      → Gives D s (ms_child c m) (c', out) t
      → Gives D s
          (deliver (record { child = c; unread = [] }) m)
          (record { child = c'; unread = out })
          t
  unfolding deliver
  deliver_lem s t c c' m out h =
      Gives->>= D s t (ms_child c m) (c', out)
        (λ (r : Child × List ℕ). ret (record { child = r.0; unread = [] ++ r.1 })) _ h (refl, refl)

  child_probe_lem :
      (s : Seat) (card input id : ℕ) (m l : Bool)
      → id ≢ 0
      → IsMaster s card m
      → IsLive s input l
      → Gives D s
          (ms_child (serves (some card) (some input) id) (ms_probe, none))
          (serves (some card) (some input) id, byte_of m ∷ byte_of l ∷ [])
          s
  unfolding ms_child
  child_probe_lem s card input id m l n hm hl =
      Gives->>= D s s (answer_probe (some card) (some input) id) (byte_of m ∷ byte_of l ∷ [])
        (λ out. ret (serves (some card) (some input) id, out)) _
        (answer_probe_lem s card input id m l n hm hl) (refl, refl)

  pub probe_lem :
      (s : Seat) (card input id : ℕ) (m l : Bool)
      → id ≢ 0
      → IsMaster s card m
      → IsLive s input l
      → Gives D s (probe (Serving card input id)) ((byte_of m, byte_of l), Serving card input id) s
  unfolding probe two_bytes
  probe_lem s card input id m l n hm hl =
      Gives->>= D s s (deliver (Serving card input id) (ms_probe, none))
        (record { child = serves (some card) (some input) id; unread = byte_of m ∷ byte_of l ∷ [] })
        (λ t. two_bytes t.child t.unread) _
        (deliver_lem s s (serves (some card) (some input) id) (serves (some card) (some input) id)
          (ms_probe, none) (byte_of m ∷ byte_of l ∷ [])
          (child_probe_lem s card input id m l n hm hl))
        (refl, refl)

  child_start_lem :
      (s : Seat) (card : ℕ) (input : Option ℕ)
      → Wp D s
          (ms_child (waits_input (some card)) (1, input))
          (Ends (λ r s'. (id : ℕ) × (id ≢ 0) × (r ≡ (serves (some card) input id, [])) × (s' ≡ s)))
  unfolding ms_child
  child_start_lem s card input =
      Wp->>= D s (crtc_of (some card)) (λ id. ret (serves (some card) input id, []))
        (λ id s'. (id ≢ 0) × (s' ≡ s)) _ (crtc_of_lem s card) (λ id s' (n, q). (id, n, refl, q))

  -- A session that has its card takes any byte for the input file.
  pub start_lem :
      (s : Seat) (card : ℕ) (input : Option ℕ)
      → Wp D s (deliver (record { child = waits_input (some card); unread = [] }) (1, input)) (
          Ends (λ t s'.
            (id : ℕ) × (id ≢ 0)
            × (t ≡ record { child = serves (some card) input id; unread = [] })
            × (s' ≡ s)))
  unfolding deliver
  start_lem s card input =
      Wp->>= D s (ms_child (waits_input (some card)) (1, input))
        (λ (r : Child × List ℕ). ret (record { child = r.0; unread = [] ++ r.1 }))
        (λ r s'. (id : ℕ) × (id ≢ 0) × (r ≡ (serves (some card) input id, [])) × (s' ≡ s)) _
        (child_start_lem s card input) (λ r s' (id, n, e, q). (id, n, rw e refl, q))
