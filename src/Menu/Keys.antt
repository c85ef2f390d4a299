-- ===== src/Menu/Keys.antt =====
-- src/main.rs: what the loop of the menu does with a key. The drawing, and `item_scales`, which
-- only animates it, are left out.
use rignite.Common.{
  ℕ, ◌+◌, ◌-◌, ◌%◌, ◌^◌, Option, none, some, List, [], ◌∷◌, Bool, true, ok, fault, panic, ◌>>=◌,
  ◌||◌, ◌==◌, if◌then◌else◌, length, get_elem?,
}
use rignite.Common.Text.{Text}
use rignite.Btrfs.Layout.{M}
use rignite.Menu.State.{
  MenuItem, MenuState, UiAction, Firmware, get_menu_items, primary, drive_list, partition_list,
  file_selection, runix_os, meta_entry, physical_drive, partition, efi_file, back, boot_linux,
  chainload,
}

pub data ScanCode : Type 0 where
  up down left right other : ScanCode

pub data Key : Type 0 where
  printable : ℕ → Key
  special : ScanCode → Key

pub record Ui : Type 0 where
  pub current_state : MenuState
  pub menu_items : List MenuItem
  pub selected_index : ℕ
  pub redraw : Bool

-- Another round of the loop, or its end by an action.
pub data Step : Type 0 where
  stay : Ui → Step
  leave : UiAction → Step

-- `%` by 0 panics, and `count - 1` wraps there to an index that is out of range; neither happens
-- with an item in the menu.
unfoldable pub next_index : ℕ → ℕ → M ℕ
next_index i count = if count == 0 then fault panic else ok ((i + 1) % count)

unfoldable pub prev_index : ℕ → ℕ → M ℕ
prev_index i count = ok (if i == 0 then (if count == 0 then 2 ^ 64 - 1 else count - 1) else i - 1)

unfoldable pub parent : MenuState → MenuState
parent (file_selection h) = partition_list h
parent (partition_list h) = drive_list
parent drive_list = primary
parent primary = primary

-- What a key asks for.
pub data Move : Type 0 where
  forward backward enter ignore : Move

unfoldable pub move_of : Key → Move
move_of (special right) = forward
move_of (special down) = forward
move_of (special left) = backward
move_of (special up) = backward
move_of (special other) = ignore
move_of (printable c) =
    if c == b'd' || c == b's'
    then forward
    else if c == b'a' || c == b'w'
    then backward
    else if c == b'\r'
    then enter
    else ignore

abbrev pub moved : Ui → M ℕ → M Step
moved ui i = do index ← i; ok (stay (record ui { selected_index = index; redraw = true }))

-- `if let MenuState::FileSelection(handle)`
abbrev pub chain : Ui → MenuState → Text → Step
chain ui (file_selection h) path = leave (chainload h path)
chain ui _ path = stay ui

-- `params` is `config.as_ref().and_then(|c| c.get_main_kernel_params().ok().flatten())`.
module _ (fw : Firmware) (handles : List ℕ) (params : Option Text) where
  unfoldable pub open_menu : MenuState → M Step
  open_menu s = do
    items ← get_menu_items fw s handles
    ok (stay (record { current_state = s; menu_items = items; selected_index = 0; redraw = true }))

  unfoldable pub select : Ui → MenuItem → M Step
  unfolding open_menu parent
  select ui (runix_os h) = ok (leave (boot_linux h params))
  select ui meta_entry = open_menu drive_list
  select ui (physical_drive name h) = open_menu (partition_list h)
  select ui (partition name h) = open_menu (file_selection h)
  select ui (efi_file name []) = ok (stay ui)
  select ui (efi_file name (c ∷ cs)) = ok (chain ui ui.current_state (c ∷ cs))
  select ui back = open_menu (parent ui.current_state)
  select ui MenuItem.firmware_settings = ok (leave UiAction.firmware_settings)
  select ui MenuItem.reboot = ok (leave UiAction.reboot)
  select ui MenuItem.shutdown = ok (leave UiAction.shutdown)

  -- `menu_items.borrow()[*idx]` panics out of range.
  abbrev pub chosen : Ui → Option MenuItem → M Step
  chosen ui none = fault panic
  chosen ui (some item) = select ui item

  unfoldable pub act : Ui → Move → M Step
  unfolding next_index prev_index select
  act ui forward = moved ui (next_index ui.selected_index (length ui.menu_items))
  act ui backward = moved ui (prev_index ui.selected_index (length ui.menu_items))
  act ui enter = chosen ui (get_elem? ui.menu_items ui.selected_index)
  act ui ignore = ok (stay ui)

  unfoldable pub press : Ui → Key → M Step
  unfolding move_of act
  press ui key = act ui (move_of key)
