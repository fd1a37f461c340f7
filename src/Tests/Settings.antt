-- ===== src/Tests/Settings.antt =====
-- Witnesses for the switches of the home screen.
use ledger_hardmail_app.Common.{◌≡◌, refl, List, [], ◌∷◌, true, false, inr, ◌↔◌}
use ledger_hardmail_app.Settings.{
  Storage, Menu, home, dummy_switch_1, dummy_switch_2, Event, touch, answer, IsShown, run,
  ui_menu_main, app_start, app_start-IsShown, app_start_iff, IsUnchanged,
  ui_menu_main-never_confirmed,
}

abbrev storage : Storage
storage = record { dummy1_allowed = 0; dummy2_allowed = 0; initialized = 1 }

abbrev first_menu : Menu
first_menu = record {
  storage = storage;
  switch_1 = 0;
  switch_2 = 0;
  init_setting_page = 0;
  warning = false;
}

abbrev events : List Event
events =
    touch dummy_switch_1 0
    ∷ touch dummy_switch_2 1
    ∷ answer true
    ∷ home
    ∷ touch dummy_switch_2 1
    ∷ []

-- A flash that was never set up, and holds other bytes.
abbrev raw_menu : Menu
raw_menu = record first_menu {
  storage = record { dummy1_allowed = 7; dummy2_allowed = 0; initialized = 0xff };
}

app_start-IsShown_example : IsShown (run (app_start raw_menu) events)
app_start-IsShown_example = app_start-IsShown raw_menu events (inr refl)

app_start_iff_example : IsShown (app_start raw_menu) ↔ IsUnchanged raw_menu.storage
app_start_iff_example = app_start_iff raw_menu

abbrev careful_events : List Event
careful_events = touch dummy_switch_2 0 ∷ answer false ∷ touch dummy_switch_1 0 ∷ []

ui_menu_main-never_confirmed_example :
    ((run (ui_menu_main raw_menu) careful_events).storage.dummy2_allowed ≡ 0)
    × ((run (app_start raw_menu) careful_events).storage.dummy2_allowed ≡ 0)
ui_menu_main-never_confirmed_example =
    ui_menu_main-never_confirmed raw_menu careful_events refl refl
