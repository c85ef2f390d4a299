-- ===== src/Menu/Patience.antt =====
-- src/main.rs: the splash screen always ends, and by the menu only on the two keys.
use rignite.Common.{
  ℕ, zero, suc, ◌+◌, ◌-◌, ◌≤◌, ◌<◌, ◌≡◌, ◌≢◌, ◌⊎◌, refl, sym, ap, ◌∙◌, some, List, [], ◌∷◌, Bool,
  false, ◌&&◌, All, leb, ◌==◌, arith, Bool-cases, inl, inr,
}
use rignite.Menu.Keys.{Key, printable, special, up, down, ScanCode}
use rignite.Menu.Splash.{
  SplashState, idle, confirming, Splash, start, read_keys, count_down, chord_trigger, Next, break_,
  go_on, tick, decide, frame, splash_loop, idle_timeout, confirm_timeout,
}

-- How many frames are left at most.
abbrev left_in : SplashState → ℕ → ℕ
left_in idle timer = 422 - timer
left_in confirming timer = 301 - timer

abbrev timeout : SplashState → ℕ
timeout idle = idle_timeout
timeout confirming = confirm_timeout

abbrev IsTimed : Splash → Type 0
IsTimed s = s.state_timer ≤ timeout s.state

abbrev Advances : SplashState → ℕ → Next → Type 0
Advances st timer (break_ b) = Unit
Advances st timer (go_on s) =
    (s.state_timer ≤ timeout s.state) × (left_in s.state s.state_timer < left_in st timer)

-- Reading keys changes neither the state nor its timer.
read_keys-state :
    (s : Splash) (ks : List Key)
    → ((read_keys s ks).state ≡ s.state) × ((read_keys s ks).state_timer ≡ s.state_timer)
unfolding read_keys
read_keys-state s [] = (refl, refl)
read_keys-state s (special up ∷ ks) = read_keys-state (record s { up_window = 15 }) ks
read_keys-state s (special down ∷ ks) = read_keys-state (record s { down_window = 15 }) ks
read_keys-state s (special ScanCode.left ∷ ks) = read_keys-state s ks
read_keys-state s (special ScanCode.right ∷ ks) = read_keys-state s ks
read_keys-state s (special ScanCode.other ∷ ks) = read_keys-state s ks
read_keys-state s (printable c ∷ ks) = read_keys-state s ks

tick-Advances :
    (st : SplashState) (s : Splash)
    → s.state ≡ st
    → s.state_timer < timeout st
    → Advances st s.state_timer (tick s)
tick-Advances idle s e h = rw e (omega arith, omega arith)
tick-Advances confirming s e h = rw e (omega arith, omega arith)

decide-Advances :
    (st : SplashState) (s : Splash)
    → s.state ≡ st
    → s.state_timer ≤ timeout st
    → Advances st s.state_timer (decide st s)
unfolding decide
decide-Advances idle s e h = elim (Bool-cases (chord_trigger s && s.cooldown == 0)) [
  | inl a ↦ rw a (omega arith, omega arith)
  | inr a ↦ elim (Bool-cases (leb idle_timeout s.state_timer)) [
    | inl b ↦ rw (a, b) tt
    | inr b ↦ rw (a, b) (tick-Advances idle s e (ground arith))
  ]
]
decide-Advances confirming s e h = elim (Bool-cases (chord_trigger s && s.cooldown == 0)) [
  | inl a ↦ rw a tt
  | inr a ↦ elim (Bool-cases (leb confirm_timeout s.state_timer)) [
    | inl b ↦ rw (a, b) tt
    | inr b ↦ rw (a, b) (tick-Advances confirming s e (ground arith))
  ]
]

transfer :
    {a b : SplashState} {m n : ℕ} (x : Next) → a ≡ b → m ≡ n → Advances a m x → Advances b n x
transfer x e f d = rw (sym e, sym f) d

frame-Advances :
    (s : Splash) (ks : List Key) → IsTimed s → Advances s.state s.state_timer (frame s ks)
unfolding frame count_down
frame-Advances s ks h =
    let (e, f) = read_keys-state s ks in
    transfer _ e f
      (decide-Advances (read_keys s ks).state (count_down (read_keys s ks)) refl (rw (e, f) h))

Next-cases : (n : Next) → ((b : Bool) × (n ≡ break_ b)) ⊎ ((s : Splash) × (n ≡ go_on s))
Next-cases (break_ b) = inl (b, refl)
Next-cases (go_on s) = inr (s, refl)

follow : (st : SplashState) (m : ℕ) (x y : Next) → x ≡ y → Advances st m x → Advances st m y
follow st m x y e d = rw (sym e) d

loop-ends :
    (fuel : ℕ) (keys : ℕ → List Key) (t : ℕ) (s : Splash)
    → IsTimed s
    → left_in s.state s.state_timer < fuel
    → (enter_menu : Bool) × (splash_loop fuel keys t s ≡ some enter_menu)
unfolding splash_loop
loop-ends zero keys t s h l = absurd (omega arith)
loop-ends (suc fuel) keys t s h l = elim (Next-cases (frame s (keys t))) [
  | inl (b, e) ↦ (b, rw (e, splash_loop))
  | inr (s', e) ↦
      let (h', d) = follow _ _ (frame s (keys t)) (go_on s') e (frame-Advances s (keys t) h) in
      let (b, r) = loop-ends fuel keys (t + 1) s' h' (omega arith) in (b, rw (e, splash_loop) r)
]

-- The splash screen ends within 423 frames, whatever keys arrive in each of them.
pub splash_loop_lem :
    (keys : ℕ → List Key) → (enter_menu : Bool) × (splash_loop 423 keys 0 start ≡ some enter_menu)
splash_loop_lem keys = loop-ends 423 keys 0 start (omega arith) (omega arith)

abbrev pub NoUp : List Key → Type 0
NoUp ks = All (λ k. k ≢ special up) ks

read_keys-NoUp : (s : Splash) (ks : List Key) → NoUp ks → (read_keys s ks).up_window ≡ s.up_window
unfolding read_keys
read_keys-NoUp s [] h = refl
read_keys-NoUp s (special up ∷ ks) h = absurd (h.0 refl)
read_keys-NoUp s (special down ∷ ks) h = read_keys-NoUp (record s { down_window = 15 }) ks h.1
read_keys-NoUp s (special ScanCode.left ∷ ks) h = read_keys-NoUp s ks h.1
read_keys-NoUp s (special ScanCode.right ∷ ks) h = read_keys-NoUp s ks h.1
read_keys-NoUp s (special ScanCode.other ∷ ks) h = read_keys-NoUp s ks h.1
read_keys-NoUp s (printable c ∷ ks) h = read_keys-NoUp s ks h.1

-- Without an open window of the Up key the loop stays closed to the menu.
abbrev Closed : Next → Type 0
Closed (break_ b) = b ≡ false
Closed (go_on s) = s.up_window ≡ 0

decide-Closed : (st : SplashState) (s : Splash) → s.up_window ≡ 0 → Closed (decide st s)
unfolding decide
decide-Closed idle s e = elim (Bool-cases (leb idle_timeout s.state_timer)) [
  | inl b ↦ rw (e, b) refl
  | inr b ↦ rw (e, b) refl
]
decide-Closed confirming s e = elim (Bool-cases (leb confirm_timeout s.state_timer)) [
  | inl b ↦ rw (e, b) refl
  | inr b ↦ rw (e, b) refl
]

frame-Closed : (s : Splash) (ks : List Key) → NoUp ks → s.up_window ≡ 0 → Closed (frame s ks)
unfolding frame count_down
frame-Closed s ks h e =
    decide-Closed _ (count_down (read_keys s ks)) (ap (λ n. n - 1) (read_keys-NoUp s ks h ∙ e))

reopen : (x y : Next) → x ≡ y → Closed x → Closed y
reopen x y e c = rw (sym e) c

loop-Closed :
    (fuel : ℕ) (keys : ℕ → List Key) (t : ℕ) (s : Splash) (b : Bool)
    → ((n : ℕ) → NoUp (keys n))
    → s.up_window ≡ 0
    → splash_loop fuel keys t s ≡ some b
    → b ≡ false
unfolding splash_loop
loop-Closed zero keys t s b h e r = cc
loop-Closed (suc fuel) keys t s b h e r = elim (Next-cases (frame s (keys t))) [
  | inl (b', f) ↦
      let c = reopen _ _ f (frame-Closed s (keys t) (h t) e) in
      let g : splash_loop (suc fuel) keys t s ≡ some b' = rw (f, splash_loop) in cc (c, g, r)
  | inr (s', f) ↦
      let c = reopen _ _ f (frame-Closed s (keys t) (h t) e) in
      let g : splash_loop (suc fuel) keys t s ≡ splash_loop fuel keys (t + 1) s' =
        rw (f, splash_loop) in
      loop-Closed fuel keys (t + 1) s' b h c (sym g ∙ r)
]

-- If no frame has the Up key, then the splash screen ends without the menu.
pub NoUp-boots :
    (keys : ℕ → List Key) → ((n : ℕ) → NoUp (keys n)) → splash_loop 423 keys 0 start ≡ some false
NoUp-boots keys h =
    let (b, r) = splash_loop_lem keys in r ∙ ap some (loop-Closed 423 keys 0 start b h refl r)
