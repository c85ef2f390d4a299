-- ===== src/Menu/Splash.antt =====
-- src/main.rs: the splash screen, whose loop waits for the Up and Down keys together, twice.
-- A frame is the keys that `read_key` gives before it gives none.
use rignite.Common.{
  ℕ, zero, suc, ◌+◌, ◌-◌, ◌*◌, Option, none, some, List, [], ◌∷◌, Bool, true, false, ◌&&◌, ltb, leb,
  ◌==◌, if◌then◌else◌,
}
use rignite.Menu.Keys.{Key, special, up, down}

pub data SplashState : Type 0 where
  idle confirming : SplashState

pub record Splash : Type 0 where
  pub up_window : ℕ
  pub down_window : ℕ
  pub cooldown : ℕ
  pub state : SplashState
  pub state_timer : ℕ

abbrev pub idle_timeout : ℕ
idle_timeout = 2 * 60

abbrev pub confirm_timeout : ℕ
confirm_timeout = 5 * 60

abbrev pub start : Splash
start = record { up_window = 0; down_window = 0; cooldown = 0; state = idle; state_timer = 0 }

abbrev pub read_key : Splash → Key → Splash
read_key s (special up) = record s { up_window = 15 }
read_key s (special down) = record s { down_window = 15 }
read_key s _ = s

unfoldable pub read_keys : Splash → List Key → Splash
read_keys s [] = s
read_keys s (k ∷ ks) = read_keys (read_key s k) ks

-- The three counters, which stop at 0.
unfoldable pub count_down : Splash → Splash
count_down s = record s {
  up_window = s.up_window - 1;
  down_window = s.down_window - 1;
  cooldown = s.cooldown - 1;
}

abbrev pub chord_trigger : Splash → Bool
chord_trigger s = ltb 0 s.up_window && ltb 0 s.down_window

-- Whether the loop ends, with `enter_menu`, or goes on.
pub data Next : Type 0 where
  break_ : Bool → Next
  go_on : Splash → Next

-- `state_timer += 1` at the end of the frame.
abbrev pub tick : Splash → Next
tick s = go_on (record s { state_timer = s.state_timer + 1 })

unfoldable pub decide : SplashState → Splash → Next
decide idle s =
    if chord_trigger s && s.cooldown == 0
    then tick (record s { state = confirming; state_timer = 0; cooldown = 30 })
    else if leb idle_timeout s.state_timer
    then break_ false
    else tick s
decide confirming s =
    if chord_trigger s && s.cooldown == 0
    then break_ true
    else if leb confirm_timeout s.state_timer
    then break_ false
    else tick s

unfoldable pub frame : Splash → List Key → Next
unfolding read_keys count_down decide
frame s keys = let s' = count_down (read_keys s keys) in decide s'.state s'

-- The loop on fuel, on the keys of each frame: `enter_menu`, or `none` where the fuel ends first.
unfoldable pub splash_loop : ℕ → (ℕ → List Key) → ℕ → Splash → Option Bool
splash_loop zero keys t s = none
splash_loop (suc fuel) keys t s = elim (frame s (keys t)) [
  | break_ enter_menu ↦ some enter_menu
  | go_on s' ↦ splash_loop fuel keys (t + 1) s'
]
