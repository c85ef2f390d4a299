-- ===== src/Menu/Examples.antt =====
-- The theorems on the menu and the splash screen of src/main.rs at concrete inputs.
use rignite.Common.{
  ℕ, ◌<◌, ◌≡◌, refl, sym, Bool, true, false, none, some, List, [], ◌∷◌, ok, err, arith,
}
use mathlib.Core.Option.{some-injective}
use rignite.Btrfs.Layout.{device_error}
use rignite.Btrfs.Mount
use rignite.Menu.State.{Firmware, Drive, probe, back, partition, partition_list}
use rignite.Menu.Keys.{
  Ui, Key, special, up, down, printable, Step, stay, press, next_index, prev_index,
}
use rignite.Menu.Safe.{Answers, Keeps, press_lem}
use rignite.Menu.Session.{run_keys, first_menu}
use rignite.Menu.Live.{CanShutDown, shutdown_reachable}
use rignite.Menu.Wrap.{next_prev}
use rignite.Menu.Splash.{start, splash_loop}
use rignite.Menu.Patience.{NoUp, splash_loop_lem, NoUp-boots}

-- A drive that fails to read, under every handle.
abbrev broken : Drive
broken = record {
  media_present = true;
  last_block = 100000;
  io = record { block_size = 512; read_blocks = λ lba n. err device_error };
}

abbrev one_drive : Firmware
one_drive = record {
  block_io = λ h. some broken;
  file_system = λ h. false;
  volume = λ h. none;
  to_lowercase = λ t. t;
  from_utf8_lossy = λ t. t;
}

one_drive-Answers : Answers one_drive
unfolding probe Mount.new
one_drive-Answers h d e = rw (sym (some-injective _ _ e)) (none, refl)

abbrev partition_menu : Ui
partition_menu = record {
  current_state = partition_list 7;
  menu_items = back ∷ partition [] 7 ∷ [];
  selected_index = 0;
  redraw = false;
}

press_lem_example :
    (step : Step) × (press one_drive (7 ∷ []) none partition_menu (printable b'\r') ≡ ok step)
    × Keeps partition_menu step
press_lem_example =
    press_lem one_drive one_drive-Answers (7 ∷ []) none partition_menu (printable b'\r')
      (omega arith)

next_prev_example :
    ((j : ℕ) × (next_index 2 3 ≡ ok j) × (j < 3) × (prev_index j 3 ≡ ok 2))
    × ((k : ℕ) × (prev_index 2 3 ≡ ok k) × (k < 3) × (next_index k 3 ≡ ok 2))
next_prev_example = next_prev 2 3 (omega arith)

-- Down is held, with and without Up.
abbrev both_keys : ℕ → List Key
both_keys t = special up ∷ special down ∷ []

abbrev down_key : ℕ → List Key
down_key t = special down ∷ []

splash_loop_lem_example :
    (enter_menu : Bool) × (splash_loop 423 both_keys 0 start ≡ some enter_menu)
splash_loop_lem_example = splash_loop_lem both_keys

down_key-NoUp : (n : ℕ) → NoUp (down_key n)
down_key-NoUp n = ((λ e. cc), tt)

NoUp-boots_example : splash_loop 423 down_key 0 start ≡ some false
NoUp-boots_example = NoUp-boots down_key down_key-NoUp

-- Enter, down and Enter on a machine with one drive.
abbrev some_keys : List Key
some_keys = printable b'\r' ∷ special down ∷ printable b'\r' ∷ []

shutdown_reachable_example :
    (ui : Ui) × (first_menu one_drive (7 ∷ []) none ≡ ok (stay ui))
    × (step : Step) × (run_keys one_drive (7 ∷ []) none some_keys ui ≡ ok step)
    × CanShutDown one_drive one_drive-Answers (7 ∷ []) none step
shutdown_reachable_example = shutdown_reachable one_drive one_drive-Answers (7 ∷ []) none some_keys
