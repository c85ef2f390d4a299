-- ===== src/Menu/Session.antt =====
-- src/main.rs: the loop of the menu over the keys that arrive.
use rignite.Common.{ℕ, Option, List, [], ◌∷◌, ok, ◌>>=◌}
use rignite.Common.Text.{Text}
use rignite.Btrfs.Layout.{M}
use rignite.Menu.State.{Firmware, primary}
use rignite.Menu.Keys.{Ui, Key, Step, stay, leave, press, open_menu}

module _ (fw : Firmware) (handles : List ℕ) (params : Option Text) where
  -- Until an action ends it, with the keys after that unread, or the keys so far are used up.
  unfoldable pub run_keys : List Key → Ui → M Step
  unfolding press
  run_keys [] ui = ok (stay ui)
  run_keys (key ∷ keys) ui = do
    step ← press fw handles params ui key
    elim step [ stay ui' ↦ run_keys keys ui' | leave action ↦ ok (leave action) ]

  -- The menu that the program starts with.
  unfoldable pub first_menu : M Step
  unfolding open_menu
  first_menu = open_menu fw handles params primary
