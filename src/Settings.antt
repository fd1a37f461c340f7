-- ===== src/Settings.antt =====
-- The switches of src/ui/menu_nbgl.c, and the flash of src/globals.h that src/app_main.c sets up.
use ledger_hardmail_app.Common.{
  ℕ, ◌≡◌, refl, Bool, true, false, List, [], ◌∷◌, ◌==◌, if◌then◌else◌, arith, Bool-cases, ==_iff,
  inl, inr, ◌⊎◌, ◌↔◌,
}

-- `internal_storage_t`.
pub record Storage : Type 0 where
  pub dummy1_allowed : ℕ
  pub dummy2_allowed : ℕ
  pub initialized : ℕ

-- The set-up of the flash at the start of `app_main`.
unfoldable pub init_storage : Storage → Storage
init_storage s =
    if s.initialized == 1
    then s
    else record { dummy1_allowed = 0; dummy2_allowed = 0; initialized = 1 }

initialized_then :
    (s other : Storage) (b : Bool)
    → b ≡ true
    → s.initialized ≡ 1
    → (if b then s else other).initialized ≡ 1
initialized_then s other true e h = h
initialized_then s other false e h = absurd (ground (arith, e))

initialized_else :
    (s : Storage) (other : Storage) (b : Bool)
    → b ≡ false
    → other.initialized ≡ 1
    → (if b then s else other).initialized ≡ 1
initialized_else s other true e h = absurd (ground (arith, e))
initialized_else s other false e h = h

-- The flash is set up whatever it held.
init_storage-initialized : (s : Storage) → (init_storage s).initialized ≡ 1
unfolding init_storage
init_storage-initialized s = elim (Bool-cases (s.initialized == 1)) [
  | inl e ↦ initialized_then s _ (s.initialized == 1) e ((==_iff s.initialized 1).0 e)
  | inr e ↦ initialized_else s _ (s.initialized == 1) e refl
]

-- The switches' tokens; the SDK passes no other to the callback.
pub data Token : Type 0 where
  dummy_switch_1 : Token
  dummy_switch_2 : Token
  other_token : Token

-- The flash, the states that the two switches show, the page, and whether the warning is shown.
pub record Menu : Type 0 where
  pub storage : Storage
  pub switch_1 : ℕ
  pub switch_2 : ℕ
  pub init_setting_page : ℕ
  pub warning : Bool

-- `!x`
abbrev pub toggled : ℕ → ℕ
toggled x = if x == 0 then 1 else 0

-- `ui_menu_main`, which the end of a review calls too.
unfoldable pub ui_menu_main : Menu → Menu
ui_menu_main m = record m {
  switch_1 = m.storage.dummy1_allowed;
  switch_2 = m.storage.dummy2_allowed;
  warning = false;
}

-- The start of `app_main`: the home screen is drawn first, and the flash is set up behind it.
unfoldable pub app_start : Menu → Menu
app_start m = let drawn = ui_menu_main m in record drawn { storage = init_storage m.storage }

pub app_start-initialized : (m : Menu) → (app_start m).storage.initialized ≡ 1
unfolding app_start
app_start-initialized m = init_storage-initialized m.storage

abbrev pub toggle_1 : Menu → Menu
toggle_1 m = record m {
  storage = record (m.storage) { dummy1_allowed = toggled m.storage.dummy1_allowed };
  switch_1 = toggled m.storage.dummy1_allowed;
}

abbrev pub toggle_2 : Menu → Menu
toggle_2 m = record m {
  storage = record (m.storage) { dummy2_allowed = toggled m.storage.dummy2_allowed };
  switch_2 = toggled m.storage.dummy2_allowed;
}

-- `controls_callback`.
unfoldable pub controls_callback : Token → ℕ → Menu → Menu
controls_callback dummy_switch_1 page m = toggle_1 (record m { init_setting_page = page })
controls_callback dummy_switch_2 page m =
    if m.storage.dummy2_allowed == 0
    then record m { init_setting_page = page; warning = true }
    else toggle_2 (record m { init_setting_page = page })
controls_callback other_token page m = record m { init_setting_page = page }

-- `review_warning_choice`, which the warning calls with the user's answer.
unfoldable pub review_warning_choice : Bool → Menu → Menu
review_warning_choice confirm m =
    let closed : Menu = record m { warning = false } in if confirm then toggle_2 closed else closed

-- Touching a control when no warning is shown, answering the warning, or coming back to the home
-- screen.
pub data Event : Type 0 where
  touch : Token → ℕ → Event
  answer : Bool → Event
  home : Event

unfoldable pub react : Menu → Event → Menu
react m (touch token page) = if m.warning then m else controls_callback token page m
react m (answer confirm) = if m.warning then review_warning_choice confirm m else m
react m home = ui_menu_main m

abbrev pub run : Menu → List Event → Menu
run m [] = m
run m (e ∷ es) = run (react m e) es

-- The switches show what is stored.
pub record IsShown (m : Menu) : Type 0 where
  pub first : m.switch_1 ≡ m.storage.dummy1_allowed
  pub second : m.switch_2 ≡ m.storage.dummy2_allowed

controls_callback-IsShown :
    (t : Token) (page : ℕ) (m : Menu) → IsShown m → IsShown (controls_callback t page m)
unfolding controls_callback
controls_callback-IsShown dummy_switch_1 page m h = record { first = refl; second = h.second }
controls_callback-IsShown dummy_switch_2 page m h =
    elim (Bool-cases (m.storage.dummy2_allowed == 0)) [
      | inl e ↦ rw e (record { first = h.first; second = h.second })
      | inr e ↦ rw e (record { first = h.first; second = refl })
    ]
controls_callback-IsShown other_token page m h = record { first = h.first; second = h.second }

review_warning_choice-IsShown :
    (b : Bool) (m : Menu) → IsShown m → IsShown (review_warning_choice b m)
unfolding review_warning_choice
review_warning_choice-IsShown true m h = record { first = h.first; second = refl }
review_warning_choice-IsShown false m h = record { first = h.first; second = h.second }

if-IsShown : (b : Bool) {x y : Menu} → IsShown x → IsShown y → IsShown (if b then x else y)
if-IsShown true h k = h
if-IsShown false h k = k

react-IsShown : (m : Menu) (e : Event) → IsShown m → IsShown (react m e)
unfolding react ui_menu_main
react-IsShown m (touch t page) h = if-IsShown m.warning h (controls_callback-IsShown t page m h)
react-IsShown m (answer b) h = if-IsShown m.warning (review_warning_choice-IsShown b m h) h
react-IsShown m home h = record { first = refl; second = refl }

run-IsShown : (m : Menu) (es : List Event) → IsShown m → IsShown (run m es)
run-IsShown m [] h = h
run-IsShown m (e ∷ es) h = run-IsShown (react m e) es (react-IsShown m e h)

-- From the home screen on, whatever the user does, the switches show what is stored in flash.
home-IsShown : (m : Menu) (es : List Event) → IsShown (run (ui_menu_main m) es)
unfolding ui_menu_main
home-IsShown m es = run-IsShown _ es (record { first = refl; second = refl })

-- The set-up of the flash changes no switch.
abbrev pub IsUnchanged : Storage → Type 0
IsUnchanged s = (s.initialized ≡ 1) ⊎ ((s.dummy1_allowed ≡ 0) × (s.dummy2_allowed ≡ 0))

-- The user comes back to the home screen.
abbrev pub comes_home : List Event → Bool
comes_home [] = false
comes_home (home ∷ es) = true
comes_home (e ∷ es) = comes_home es

unchanged-IsShown : (m : Menu) → IsUnchanged m.storage → IsShown (app_start m)
unfolding app_start ui_menu_main init_storage
unchanged-IsShown m (inl e) =
    let set : (m.storage.initialized == 1) ≡ true = (==_iff m.storage.initialized 1).1 e in
    record { first = rw set refl; second = rw set refl }
unchanged-IsShown m (inr (e, k)) = elim (Bool-cases (m.storage.initialized == 1)) [
  | inl set ↦ record { first = rw set refl; second = rw set refl }
  | inr unset ↦ record { first = rw unset e; second = rw unset k }
]

shown-IsUnchanged : (m : Menu) → IsShown (app_start m) → IsUnchanged m.storage
unfolding app_start ui_menu_main init_storage
shown-IsUnchanged m h = elim (Bool-cases (m.storage.initialized == 1)) [
  | inl set ↦ inl ((==_iff m.storage.initialized 1).0 set)
  | inr unset ↦ inr (rw unset at h.first, rw unset at h.second)
]

-- When `app_main` has started, the switches show what is stored in flash exactly when the set-up of the
-- flash had nothing to change of them: when it was set up before, or held zeros.
pub app_start_iff : (m : Menu) → IsShown (app_start m) ↔ IsUnchanged m.storage
app_start_iff m = (shown-IsUnchanged m, unchanged-IsShown m)

returned-IsShown : (m : Menu) (es : List Event) → comes_home es ≡ true → IsShown (run m es)
unfolding react
returned-IsShown m [] h = absurd (ground (arith, h))
returned-IsShown m (home ∷ es) h = home-IsShown m es
returned-IsShown m (touch t page ∷ es) h = returned-IsShown (react m (touch t page)) es h
returned-IsShown m (answer b ∷ es) h = returned-IsShown (react m (answer b)) es h

-- After the start of `app_main`, whatever the user does, the switches show what is stored in flash: at
-- any time if the set-up of the flash had nothing to change of them, and else from the first return
-- to the home screen on.
pub app_start-IsShown :
    (m : Menu) (es : List Event)
    → IsUnchanged m.storage ⊎ (comes_home es ≡ true)
    → IsShown (run (app_start m) es)
app_start-IsShown m es (inl h) = run-IsShown (app_start m) es (unchanged-IsShown m h)
app_start-IsShown m es (inr h) = returned-IsShown (app_start m) es h

-- No event of the list confirms the warning.
abbrev pub never_confirmed : List Event → Bool
never_confirmed [] = true
never_confirmed (answer true ∷ es) = false
never_confirmed (e ∷ es) = never_confirmed es

abbrev IsOff : Menu → Type 0
IsOff m = m.storage.dummy2_allowed ≡ 0

if-IsOff : (b : Bool) (x y : Menu) → IsOff x → IsOff y → IsOff (if b then x else y)
if-IsOff true x y h k = h
if-IsOff false x y h k = k

react-IsOff : (t : Token) (page : ℕ) (m : Menu) → IsOff m → IsOff (react m (touch t page))
unfolding react controls_callback
react-IsOff dummy_switch_1 page m h = if-IsOff m.warning _ _ h h
react-IsOff dummy_switch_2 page m h =
    let off : (m.storage.dummy2_allowed == 0) ≡ true = ground (arith, h) in
    if-IsOff m.warning _ _ h (rw off h)
react-IsOff other_token page m h = if-IsOff m.warning _ _ h h

run-IsOff : (m : Menu) (es : List Event) → never_confirmed es ≡ true → IsOff m → IsOff (run m es)
unfolding react review_warning_choice ui_menu_main
run-IsOff m [] never h = h
run-IsOff m (touch t page ∷ es) never h =
    run-IsOff (react m (touch t page)) es never (react-IsOff t page m h)
run-IsOff m (answer true ∷ es) never h = absurd (ground (arith, never))
run-IsOff m (answer false ∷ es) never h =
    run-IsOff (react m (answer false)) es never (if-IsOff m.warning _ _ h h)
run-IsOff m (home ∷ es) never h = run-IsOff (react m home) es never h

started-IsOff : (m : Menu) → IsOff m → IsOff (app_start m)
unfolding app_start init_storage ui_menu_main
started-IsOff m h = elim (Bool-cases (m.storage.initialized == 1)) [
  | inl e ↦ rw e h
  | inr e ↦ rw e refl
]

-- The second switch, once off, stays off in flash as long as its warning is not confirmed, whatever
-- else the user does, from the home screen on and from the start of `app_main` on.
pub ui_menu_main-never_confirmed :
    (m : Menu) (es : List Event)
    → m.storage.dummy2_allowed ≡ 0
    → never_confirmed es ≡ true
    → ((run (ui_menu_main m) es).storage.dummy2_allowed ≡ 0)
      × ((run (app_start m) es).storage.dummy2_allowed ≡ 0)
unfolding ui_menu_main
ui_menu_main-never_confirmed m es off never = (
  run-IsOff (ui_menu_main m) es never off,
  run-IsOff (app_start m) es never (started-IsOff m off),
)
