-- ===== src/Menu/Exit.antt =====
-- src/main.rs: the computer can be shut down from every menu.
use rignite.Common.{
  ℕ, zero, suc, ◌+◌, ◌≡◌, refl, ◌∙◌, Option, some, List, [], ◌∷◌, ◌++◌, Bool, true, ok, arith,
  length, get_elem?, length-append,
}
use rignite.Common.Index.{get_elem?-append_right}
use rignite.Common.Text.{Text, codes}
use rignite.Menu.State.{
  MenuItem, MenuState, UiAction, Firmware, get_menu_items, primary, drive_list, partition_list,
  file_selection, meta_entry, back,
}
use rignite.Menu.Keys.{
  Ui, Key, Step, stay, leave, press, select, act, open_menu, parent, special, printable, up,
}
use rignite.Menu.Safe.{Answers, prev_of, get_menu_items-ok, runix_items-ok, drive_items-ok}
use rignite.Menu.Session.{run_keys}

abbrev at : MenuState → List MenuItem → ℕ → Bool → Ui
at s items i r = record { current_state = s; menu_items = items; selected_index = i; redraw = r }

prev_of-suc : (n count : ℕ) → prev_of (suc n) count ≡ n
prev_of-suc n count = ground arith

prev_of-wraps : (count n : ℕ) → count ≡ n + 1 → prev_of 0 count ≡ n
prev_of-wraps count n e = ground arith

module _ (fw : Firmware) (handles : List ℕ) (params : Option Text) where
  -- The items are those of the state.
  abbrev pub IsMenu : Ui → Type 0
  IsMenu ui = get_menu_items fw ui.current_state handles ≡ ok ui.menu_items

  -- Some keys lead to the step.
  abbrev pub Reaches : Ui → Step → Type 0
  Reaches ui step = (keys : List Key) × (run_keys fw handles params keys ui ≡ ok step)

  Reaches-press :
      (ui ui' : Ui) (key : Key) (step : Step)
      → press fw handles params ui key ≡ ok (stay ui')
      → Reaches ui' step
      → Reaches ui step
  unfolding run_keys
  Reaches-press ui ui' key step e (keys, r) = (key ∷ keys, rw (e, press) r)

  Reaches-leave :
      (ui : Ui) (key : Key) (action : UiAction)
      → press fw handles params ui key ≡ ok (leave action)
      → Reaches ui (leave action)
  unfolding run_keys
  Reaches-leave ui key action e = (key ∷ [], rw (e, press) refl)

  press-up :
      (s : MenuState) (items : List MenuItem) (i j : ℕ) (r : Bool)
      → prev_of i (length items) ≡ j
      → press fw handles params (at s items i r) (special up) ≡ ok (stay (at s items j true))
  unfolding press act
  press-up s items i j r e = rw e refl

  press-enter :
      (ui : Ui) (item : MenuItem)
      → get_elem? ui.menu_items ui.selected_index ≡ some item
      → press fw handles params ui (printable b'\r') ≡ select fw handles params ui item
  unfolding press act
  press-enter ui item e = rw (e, get_elem?) refl

  -- Up, until the first item is selected.
  to_first :
      (s : MenuState) (items : List MenuItem) (n : ℕ) (r : Bool) (step : Step)
      → ((r' : Bool) → Reaches (at s items 0 r') step)
      → Reaches (at s items n r) step
  to_first s items zero r step k = k r
  to_first s items (suc n) r step k =
      Reaches-press _ (at s items n true) (special up) step
        (press-up s items (suc n) n r (prev_of-suc n (length items)))
        (to_first s items n true step k)

module _ (fw : Firmware) (answers : Answers fw) (handles : List ℕ) (params : Option Text) where
  abbrev ShutsDown : Ui → Type 0
  ShutsDown ui = Reaches fw handles params ui (leave UiAction.shutdown)

  abbrev last_four : List MenuItem
  last_four = meta_entry ∷ MenuItem.firmware_settings ∷ MenuItem.reboot ∷ MenuItem.shutdown ∷ []

  from_last_four : (pre : List MenuItem) (r : Bool) → ShutsDown (at primary (pre ++ last_four) 0 r)
  unfolding select
  from_last_four pre r =
      let items = pre ++ last_four in
      let n = length-append pre last_four in
      let below = at primary items (length pre + 3) true in
      Reaches-press fw handles params _ below (special up) _
        (press-up fw handles params primary items 0 (length pre + 3) r
          (prev_of-wraps _ _ (omega arith)))
        (Reaches-leave fw handles params below (printable b'\r') UiAction.shutdown (
          press-enter fw handles params below MenuItem.shutdown
            (get_elem?-append_right pre last_four _ 3 refl)))

  -- Enter on the first item of another menu opens the menu above.
  from_back :
      (s : MenuState) (rest : List MenuItem) (r : Bool)
      → ((items : List MenuItem)
          → get_menu_items fw (parent s) handles ≡ ok items
          → ShutsDown (at (parent s) items 0 true))
      → ShutsDown (at s (back ∷ rest) 0 r)
  unfolding select open_menu
  from_back s rest r k =
      let (items, e, n) = get_menu_items-ok fw answers (parent s) handles in
      Reaches-press fw handles params _ (at (parent s) items 0 true) (printable b'\r') _
        (press-enter fw handles params _ back refl ∙ rw e refl) (k items e)

  -- From the first item of a menu.
  from_primary :
      (items : List MenuItem) (r : Bool)
      → get_menu_items fw primary handles ≡ ok items
      → ShutsDown (at primary items 0 r)
  unfolding get_menu_items
  from_primary items r e =
      let (pre, q) = runix_items-ok fw answers handles in
      let e' : get_menu_items fw primary handles ≡ ok (pre ++ last_four) = rw q refl in
      let i : items ≡ pre ++ last_four = cc in rw i (from_last_four pre r)

  from_drive_list :
      (items : List MenuItem) (r : Bool)
      → get_menu_items fw drive_list handles ≡ ok items
      → ShutsDown (at drive_list items 0 r)
  unfolding get_menu_items parent
  from_drive_list items r e =
      let (rest, q) = drive_items-ok fw answers handles in
      let e' : get_menu_items fw drive_list handles ≡ ok (back ∷ rest) = rw q refl in
      let i : items ≡ back ∷ rest = cc in
      rw i (from_back drive_list rest r (λ above. from_primary above true))

  from_partition_list :
      (h : ℕ) (items : List MenuItem) (r : Bool)
      → get_menu_items fw (partition_list h) handles ≡ ok items
      → ShutsDown (at (partition_list h) items 0 r)
  unfolding get_menu_items parent
  from_partition_list h items r e =
      let i : items ≡ back ∷ MenuItem.partition (codes "Default Partition") h ∷ [] = cc in
      rw i (from_back (partition_list h) _ r (λ above. from_drive_list above true))

  from_file_selection :
      (h : ℕ) (items : List MenuItem) (r : Bool)
      → get_menu_items fw (file_selection h) handles ≡ ok items
      → ShutsDown (at (file_selection h) items 0 r)
  unfolding get_menu_items parent
  from_file_selection h [] r e = cc
  from_file_selection h (i ∷ rest) r e =
      let f : i ≡ back = cc in
      rw f (from_back (file_selection h) rest r (λ above. from_partition_list h above true))

  from_first :
      (s : MenuState) (items : List MenuItem) (r : Bool)
      → get_menu_items fw s handles ≡ ok items
      → ShutsDown (at s items 0 r)
  from_first primary items r e = from_primary items r e
  from_first drive_list items r e = from_drive_list items r e
  from_first (partition_list h) items r e = from_partition_list h items r e
  from_first (file_selection h) items r e = from_file_selection h items r e

  pub exit_lem : (ui : Ui) → IsMenu fw handles params ui → ShutsDown ui
  exit_lem ui m =
      to_first fw handles params ui.current_state ui.menu_items ui.selected_index ui.redraw _
        (λ r'. from_first ui.current_state ui.menu_items r' m)
