-- ===== src/Menu/Safe.antt =====
-- src/main.rs: the menu never leaves its items, whatever keys arrive.
use rignite.Common.{
  ℕ, zero, suc, ◌+◌, ◌-◌, ◌%◌, ◌^◌, ◌*◌, ◌<◌, ◌≡◌, ◌≢◌, refl, Option, none, some, List, [], ◌∷◌, ok,
  ◌==◌, ltb, not, Bool-cases, inl, inr, arith, length, get_elem?, length-append, if◌then◌else◌,
}
use rignite.Common.Text.{Text}
use rignite.Btrfs.Layout.{M}
use rignite.Menu.State.{
  MenuItem, MenuState, Firmware, Drive, probe, runix_item, runix_items, drive_item, drive_items,
  get_menu_items, primary, drive_list, partition_list, file_selection, runix_os, meta_entry,
  physical_drive, partition, efi_file, back, chainload, media_size,
}
use rignite.Menu.Keys.{
  Ui, Key, Step, stay, leave, press, select, act, Move, forward, backward, enter, ignore, open_menu,
  next_index, parent, move_of, chain,
}

-- Every device that the firmware opens is probed without a fault.
abbrev pub Answers : Firmware → Type 0
Answers fw =
    (h : ℕ) (d : Drive) → fw.block_io h ≡ some d → (label : Option Text) × (probe fw d ≡ ok label)

-- The selected index is that of an item.
abbrev pub IsWhole : Ui → Type 0
IsWhole ui = ui.selected_index < length ui.menu_items

-- The menu stays whole, and an application is only chainloaded by a path that is not empty, from
-- the handle whose files are listed.
abbrev pub Keeps : Ui → Step → Type 0
Keeps ui (stay ui') = IsWhole ui'
Keeps ui (leave (chainload h path)) = (path ≢ []) × (ui.current_state ≡ file_selection h)
Keeps ui (leave _) = Unit

abbrev pub Returns : M (List MenuItem) → Type 0
Returns m = (items : List MenuItem) × (m ≡ ok items)

module _ (fw : Firmware) (answers : Answers fw) where
  runix_item-ok :
      (h : ℕ) (o : Option Drive) {rest : M (List MenuItem)}
      → fw.block_io h ≡ o
      → Returns rest
      → Returns (runix_item fw h o rest)
  unfolding runix_item
  runix_item-ok h none e r = r
  runix_item-ok h (some d) e (items, r) = let p = answers h d e in rw (p.1, r) (_, refl)

  pub runix_items-ok : (hs : List ℕ) → Returns (runix_items fw hs)
  unfolding runix_items
  runix_items-ok [] = ([], refl)
  runix_items-ok (h ∷ hs) = runix_item-ok h (fw.block_io h) refl (runix_items-ok hs)

  drive_item-ok :
      (h : ℕ) (o : Option Drive) {rest : M (List MenuItem)}
      → fw.block_io h ≡ o
      → Returns rest
      → Returns (drive_item fw h o rest)
  unfolding drive_item
  drive_item-ok h none e r = r
  drive_item-ok h (some d) {rest} e (items, r) = elim (Bool-cases (not d.media_present)) [
    | inl a ↦ rw a (items, r)
    | inr a ↦ elim (Bool-cases (ltb (media_size d) (1024 * 1024))) [
      | inl b ↦ rw (a, b) (items, r)
      | inr b ↦ let p = answers h d e in rw (a, b, p.1, r) (_, refl)
    ]
  ]

  pub drive_items-ok : (hs : List ℕ) → Returns (drive_items fw hs)
  unfolding drive_items
  drive_items-ok [] = ([], refl)
  drive_items-ok (h ∷ hs) = drive_item-ok h (fw.block_io h) refl (drive_items-ok hs)

  -- Every menu comes out, and has an item.
  pub get_menu_items-ok :
      (s : MenuState) (hs : List ℕ)
      → (items : List MenuItem) × (get_menu_items fw s hs ≡ ok items) × (0 < length items)
  unfolding get_menu_items
  get_menu_items-ok primary hs =
      let r = runix_items-ok hs in
      rw r.1 (
        _,
        refl,
        omega (
          arith,
          length-append r.0
              (meta_entry ∷ MenuItem.firmware_settings ∷ MenuItem.reboot ∷ MenuItem.shutdown ∷ []),
        ),
      )
  get_menu_items-ok drive_list hs = let r = drive_items-ok hs in rw r.1 (_, refl, omega arith)
  get_menu_items-ok (partition_list h) hs = (_, refl, omega arith)
  get_menu_items-ok (file_selection h) hs = (_, refl, omega arith)

chain-Keeps :
    (ui : Ui) (s : MenuState) (path : Text)
    → ui.current_state ≡ s
    → path ≢ []
    → IsWhole ui
    → Keeps ui (chain ui s path)
chain-Keeps ui primary path e n w = w
chain-Keeps ui drive_list path e n w = w
chain-Keeps ui (partition_list h) path e n w = w
chain-Keeps ui (file_selection h) path e n w = (n, e)

next_index-below : (i count : ℕ) → i < count → (j : ℕ) × (next_index i count ≡ ok j) × (j < count)
unfolding next_index
next_index-below i count h = ((i + 1) % count, ground arith, grind arith)

abbrev pub prev_of : ℕ → ℕ → ℕ
prev_of i count = if i == 0 then (if count == 0 then 2 ^ 64 - 1 else count - 1) else i - 1

prev_of-below : (i count : ℕ) → i < count → prev_of i count < count
prev_of-below i count h = ground arith

get_elem?-some :
    (items : List MenuItem) (i : ℕ)
    → i < length items
    → (item : MenuItem) × (get_elem? items i ≡ some item)
get_elem?-some [] i h = absurd (omega arith)
get_elem?-some (x ∷ xs) zero h = (x, refl)
get_elem?-some (x ∷ xs) (suc i) h = get_elem?-some xs i (omega arith)

module _ (fw : Firmware) (answers : Answers fw) (handles : List ℕ) (params : Option Text) where
  abbrev Fine : Ui → M Step → Type 0
  Fine ui m = (step : Step) × (m ≡ ok step) × Keeps ui step

  open_menu-Fine : (ui : Ui) (s : MenuState) → Fine ui (open_menu fw handles params s)
  unfolding open_menu
  open_menu-Fine ui s = let r = get_menu_items-ok fw answers s handles in rw r.1 (_, refl, r.2)

  select-Fine :
      (ui : Ui) (item : MenuItem) → IsWhole ui → Fine ui (select fw handles params ui item)
  unfolding select
  select-Fine ui (runix_os h) w = (_, refl, tt)
  select-Fine ui meta_entry w = open_menu-Fine ui drive_list
  select-Fine ui (physical_drive name h) w = open_menu-Fine ui (partition_list h)
  select-Fine ui (partition name h) w = open_menu-Fine ui (file_selection h)
  select-Fine ui (efi_file name []) w = (_, refl, w)
  select-Fine ui (efi_file name (c ∷ cs)) w =
      (_, refl, chain-Keeps ui ui.current_state (c ∷ cs) refl (λ x. cc) w)
  select-Fine ui back w = open_menu-Fine ui (parent ui.current_state)
  select-Fine ui MenuItem.firmware_settings w = (_, refl, tt)
  select-Fine ui MenuItem.reboot w = (_, refl, tt)
  select-Fine ui MenuItem.shutdown w = (_, refl, tt)

  move-Fine : (ui : Ui) (move : Move) → IsWhole ui → Fine ui (act fw handles params ui move)
  unfolding act
  move-Fine ui forward w =
      let r = next_index-below ui.selected_index (length ui.menu_items) w in rw r.1 (_, refl, r.2)
  move-Fine ui backward w = (_, refl, prev_of-below ui.selected_index (length ui.menu_items) w)
  move-Fine ui enter w =
      let r = get_elem?-some ui.menu_items ui.selected_index w in
      let m = select-Fine ui r.0 w in rw (r.1, m.1) (m.0, refl, m.2)
  move-Fine ui ignore w = (_, refl, w)

  -- While every device that the firmware opens is probed without a fault, a key pressed in a menu
  -- whose selected index is that of an item never panics: it leaves such a menu again, or ends the
  -- loop by an action, which chainloads only a path that is not empty, on the handle whose files
  -- the menu lists.
  pub press_lem :
      (ui : Ui) (key : Key)
      → IsWhole ui
      → (step : Step) × (press fw handles params ui key ≡ ok step) × Keeps ui step
  unfolding press
  press_lem ui key w = move-Fine ui (move_of key) w
