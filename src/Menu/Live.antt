-- ===== src/Menu/Live.antt =====
-- src/main.rs: whatever was pressed so far, the menu can still be left.
use rignite.Common.{
  ℕ, ◌≡◌, refl, sym, Option, none, some, List, [], ◌∷◌, true, ok, err, fault, length,
}
use rignite.Common.Text.{Text}
use rignite.Btrfs.Layout.{M}
use rignite.Menu.State.{
  MenuItem, MenuState, UiAction, Firmware, get_menu_items, primary, drive_list, partition_list,
  file_selection, runix_os, meta_entry, physical_drive, partition, efi_file, back,
}
use rignite.Menu.Keys.{
  Ui, Key, Step, stay, leave, press, select, act, Move, forward, backward, enter, ignore, move_of,
  moved, chosen, chain, open_menu, prev_index, parent,
}
use rignite.Menu.Safe.{Answers, IsWhole, Keeps, get_menu_items-ok, press_lem}
use rignite.Menu.Session.{run_keys, first_menu}
use rignite.Menu.Exit.{IsMenu, Reaches, exit_lem}

module _ (fw : Firmware) (handles : List ℕ) (params : Option Text) where
  abbrev IsMenuOf : Ui → Type 0
  IsMenuOf = IsMenu fw handles params

  moved-IsMenu : (ui ui' : Ui) (i : M ℕ) → IsMenuOf ui → moved ui i ≡ ok (stay ui') → IsMenuOf ui'
  moved-IsMenu ui ui' (ok i) m e =
      let f : record ui { selected_index = i; redraw = true } ≡ ui' = cc in rw (sym f) m
  moved-IsMenu ui ui' (err x) m e = cc
  moved-IsMenu ui ui' (fault x) m e = cc

  open_menu-IsMenu :
      (s : MenuState) (ui' : Ui) (items : M (List MenuItem))
      → get_menu_items fw s handles ≡ items
      → open_menu fw handles params s ≡ ok (stay ui')
      → IsMenuOf ui'
  unfolding open_menu
  open_menu-IsMenu s ui' (ok items) g e =
      let opened : Ui = record {
        current_state = s;
        menu_items = items;
        selected_index = 0;
        redraw = true;
      } in
      let e' : open_menu fw handles params s ≡ ok (stay opened) = rw g refl in
      let f : opened ≡ ui' = cc in rw (sym f) g
  open_menu-IsMenu s ui' (err x) g e =
      let e' : open_menu fw handles params s ≡ err x = rw g refl in cc
  open_menu-IsMenu s ui' (fault x) g e =
      let e' : open_menu fw handles params s ≡ fault x = rw g refl in cc

  abbrev returned : Step → M Step
  returned step = ok step

  same-IsMenu : (ui ui' : Ui) → IsMenuOf ui → returned (stay ui) ≡ ok (stay ui') → IsMenuOf ui'
  same-IsMenu ui ui' m e = let f : ui ≡ ui' = cc in rw (sym f) m

  chain-IsMenu :
      (ui ui' : Ui) (s : MenuState) (path : Text)
      → IsMenuOf ui
      → returned (chain ui s path) ≡ ok (stay ui')
      → IsMenuOf ui'
  chain-IsMenu ui ui' (file_selection h) path m e = cc
  chain-IsMenu ui ui' primary path m e = same-IsMenu ui ui' m e
  chain-IsMenu ui ui' drive_list path m e = same-IsMenu ui ui' m e
  chain-IsMenu ui ui' (partition_list h) path m e = same-IsMenu ui ui' m e

  select-IsMenu :
      (ui ui' : Ui) (item : MenuItem)
      → IsMenuOf ui
      → select fw handles params ui item ≡ ok (stay ui')
      → IsMenuOf ui'
  unfolding select
  select-IsMenu ui ui' (runix_os h) m e = cc
  select-IsMenu ui ui' meta_entry m e = open_menu-IsMenu drive_list ui' _ refl e
  select-IsMenu ui ui' (physical_drive name h) m e =
      open_menu-IsMenu (partition_list h) ui' _ refl e
  select-IsMenu ui ui' (partition name h) m e = open_menu-IsMenu (file_selection h) ui' _ refl e
  select-IsMenu ui ui' (efi_file name []) m e = same-IsMenu ui ui' m e
  select-IsMenu ui ui' (efi_file name (c ∷ cs)) m e = chain-IsMenu ui ui' ui.current_state _ m e
  select-IsMenu ui ui' back m e = open_menu-IsMenu (parent ui.current_state) ui' _ refl e
  select-IsMenu ui ui' MenuItem.firmware_settings m e = cc
  select-IsMenu ui ui' MenuItem.reboot m e = cc
  select-IsMenu ui ui' MenuItem.shutdown m e = cc

  chosen-IsMenu :
      (ui ui' : Ui) (o : Option MenuItem)
      → IsMenuOf ui
      → chosen fw handles params ui o ≡ ok (stay ui')
      → IsMenuOf ui'
  chosen-IsMenu ui ui' none m e = cc
  chosen-IsMenu ui ui' (some item) m e = select-IsMenu ui ui' item m e

  act-IsMenu :
      (ui ui' : Ui) (move : Move)
      → IsMenuOf ui
      → act fw handles params ui move ≡ ok (stay ui')
      → IsMenuOf ui'
  unfolding act
  act-IsMenu ui ui' forward m e = moved-IsMenu ui ui' _ m e
  act-IsMenu ui ui' backward m e =
      moved-IsMenu ui ui' (prev_index ui.selected_index (length ui.menu_items)) m e
  act-IsMenu ui ui' enter m e = chosen-IsMenu ui ui' _ m e
  act-IsMenu ui ui' ignore m e = same-IsMenu ui ui' m e

  press-IsMenu :
      (ui ui' : Ui) (key : Key)
      → IsMenuOf ui
      → press fw handles params ui key ≡ ok (stay ui')
      → IsMenuOf ui'
  unfolding press
  press-IsMenu ui ui' key m e = act-IsMenu ui ui' (move_of key) m e

module _ (fw : Firmware) (answers : Answers fw) (handles : List ℕ) (params : Option Text) where
  abbrev pub CanShutDown : Step → Type 0
  CanShutDown (stay ui) = Reaches fw handles params ui (leave UiAction.shutdown)
  CanShutDown (leave action) = Unit

  -- The keys after one key.
  go_on_with :
      (keys : List Key) (ui : Ui) (key : Key) (step : Step)
      → press fw handles params ui key ≡ ok step
      → Keeps ui step
      → IsMenu fw handles params ui
      → ((ui' : Ui)
          → IsWhole ui'
          → IsMenu fw handles params ui'
          → (last : Step) × (run_keys fw handles params keys ui' ≡ ok last) × CanShutDown last)
      → (last : Step) × (run_keys fw handles params (key ∷ keys) ui ≡ ok last) × CanShutDown last
  unfolding run_keys
  go_on_with keys ui key (stay ui') e w m k =
      let (last, r, c) = k ui' w (press-IsMenu fw handles params ui ui' key m e) in
      (last, rw (e, press) r, c)
  go_on_with keys ui key (leave action) e w m k = (leave action, rw (e, press) refl, tt)

  run_keys_lem :
      (keys : List Key) (ui : Ui)
      → IsWhole ui
      → IsMenu fw handles params ui
      → (step : Step) × (run_keys fw handles params keys ui ≡ ok step) × CanShutDown step
  unfolding run_keys
  run_keys_lem [] ui w m = (stay ui, refl, exit_lem fw answers handles params ui m)
  run_keys_lem (key ∷ keys) ui w m =
      let (step, e, k) = press_lem fw answers handles params ui key w in
      go_on_with keys ui key step e k m (run_keys_lem keys)

  -- While every device that the firmware opens is probed without a fault, the menu comes up, and
  -- after any keys the loop has ended by an action, or it waits in a menu from which some further
  -- keys end it by the action that shuts the computer down.
  pub shutdown_reachable :
      (keys : List Key)
      → (ui : Ui) × (first_menu fw handles params ≡ ok (stay ui))
        × (step : Step) × (run_keys fw handles params keys ui ≡ ok step)
        × CanShutDown step
  unfolding first_menu open_menu
  shutdown_reachable keys =
      let (items, e, w) = get_menu_items-ok fw answers primary handles in
      let ui : Ui = record {
        current_state = primary;
        menu_items = items;
        selected_index = 0;
        redraw = true;
      } in
      let (step, r, c) = run_keys_lem keys ui w e in (ui, rw e refl, step, r, c)
