-- ===== src/App/Loop.antt =====
-- Runs of the loop of src/app_main.c.
use ledger_hardmail_app.Common.{
  ◌≡◌, ◌≢◌, refl, ap, ◌∙◌, Bool, true, false, List, [], ◌∷◌, ◌++◌, Option, none, some, arith,
  if◌then◌else◌, ◌>>=◌,
}
use ledger_hardmail_app.Sdk.Buffers.{BufferOps, BufferLaws}
use ledger_hardmail_app.Sdk.Crypto.{CryptoOps, HexLaw, HashLaw, SignLaw}
use ledger_hardmail_app.Context.{Reply}
use ledger_hardmail_app.Tokens.{TlvOps}
use ledger_hardmail_app.Tokens.Lookup.{TlvLaws}
use ledger_hardmail_app.Settings.{Menu, app_start-initialized}
use ledger_hardmail_app.Device.{Screen, menu, Device, CommandOk, start, receive, review_choice}
use ledger_hardmail_app.Device.Invariant.{receive-IsDevice, review_choice-IsDevice}
use ledger_hardmail_app.Device.Holds.{IsDevice, started-IsDevice}
use ledger_hardmail_app.App.{
  Round, recv_failed, bad_length, received, chosen, failed, is_menu, Run, stopped, reply_first,
  app_loop, app_main,
}

abbrev pub RoundsOk : List Round → Type 0
RoundsOk [] = Unit {0}
RoundsOk (received cmd sent ∷ rounds) = CommandOk (some cmd) × RoundsOk rounds
RoundsOk (_ ∷ rounds) = RoundsOk rounds

-- A run that returns, and ends in a well-formed device.
abbrev pub Runs : CryptoOps → Option Run → Type 0
Runs crypto o = (run : Run) × (o ≡ some run) × IsDevice crypto run.device

if-Runs :
    (crypto : CryptoOps) (b : Bool) (x y : Option Run)
    → (b ≡ true → Runs crypto x)
    → (b ≡ false → Runs crypto y)
    → Runs crypto (if b then x else y)
if-Runs crypto true x y h k = h refl
if-Runs crypto false x y h k = k refl

-- A step that returns, before the rest of the run.
bind-Runs :
    (crypto : CryptoOps) {o : Option (Device × Reply)} (f : Device × Reply → Option Run)
    → (r : Device × Reply) × (o ≡ some r) × IsDevice crypto r.0
    → ((r : Device × Reply) → IsDevice crypto r.0 → Runs crypto (f r))
    → Runs crypto (o >>= f)
bind-Runs crypto f (r, ran, h) k =
    let (run, rest, holds) = k r h in (run, ap (λ u. u >>= f) ran ∙ rest, holds)

first-Runs :
    (crypto : CryptoOps) (reply : Reply) {o : Option Run}
    → Runs crypto o
    → Runs crypto (o >>= λ run. some (reply_first reply run))
first-Runs crypto reply (run, ran, h) =
    (reply_first reply run, ap (λ u. u >>= λ x. some (reply_first reply x)) ran, h)

not_menu : (s : Screen) → is_menu s ≡ false → s ≢ menu
not_menu s e k = ground (arith, ap is_menu k, e)

module _ (ops : BufferOps) (laws : BufferLaws ops) (crypto : CryptoOps) (hexes : HexLaw crypto)
    (hashes : HashLaw crypto) (signs : SignLaw crypto) (tlv : TlvOps) (tokens : TlvLaws tlv) where
  pub app_loop-Runs :
      (rounds : List Round) (d : Device)
      → RoundsOk rounds
      → IsDevice crypto d
      → Runs crypto (app_loop ops crypto tlv d rounds)
  unfolding app_loop
  app_loop-Runs [] d ok h = (stopped d false, refl, h)
  app_loop-Runs (recv_failed ∷ rounds) d ok h = (stopped d true, refl, h)
  app_loop-Runs (bad_length ∷ rounds) d ok h =
      if-Runs crypto (is_menu d.screen) _ _
        (λ e.
          bind-Runs crypto _
            (receive-IsDevice ops laws crypto hexes hashes signs tlv tokens d none h tt)
            λ (d', reply) h'. first-Runs crypto reply (app_loop-Runs rounds d' ok h'))
        (λ e. app_loop-Runs rounds d ok h)
  app_loop-Runs (received cmd sent ∷ rounds) d (good, ok) h =
      if-Runs crypto (is_menu d.screen) _ _
        (λ e.
          bind-Runs crypto _
            (receive-IsDevice ops laws crypto hexes hashes signs tlv tokens d (some cmd) h good)
            λ (d', reply) h'.
              if-Runs crypto (failed sent reply) _ _ (λ fails. (stopped d' true, refl, h'))
                (λ fine. first-Runs crypto reply (app_loop-Runs rounds d' ok h')))
        (λ e. app_loop-Runs rounds d ok h)
  app_loop-Runs (chosen confirm ∷ rounds) d ok h =
      if-Runs crypto (is_menu d.screen) _ _ (λ e. app_loop-Runs rounds d ok h)
        (λ e.
          bind-Runs crypto _
            (review_choice-IsDevice ops laws crypto hexes hashes signs tlv tokens d confirm h
              (not_menu d.screen e))
            λ (d', reply) h'. first-Runs crypto reply (app_loop-Runs rounds d' ok h'))

  -- `app_main` with any rounds ends in a run that did not go out of bounds anywhere, with the flash
  -- initialized and a well-formed device.
  pub app_main-Runs :
      (m : Menu) (rounds : List Round)
      → RoundsOk rounds
      → ((app_main ops crypto tlv m rounds).0.storage.initialized ≡ 1)
        × Runs crypto (app_main ops crypto tlv m rounds).1
  unfolding app_main
  app_main-Runs m rounds ok = (
    app_start-initialized m,
    app_loop-Runs rounds (start ops crypto tlv) ok (started-IsDevice ops crypto tlv),
  )

-- What a run comes to with more rounds: a loop that has returned handles none of them.
abbrev pub appended : Run → Run → Run
appended run rest = record rest { replies = run.replies ++ rest.replies }

first_if :
    (b : Bool) (reply : Reply) (run : Run) (o : Option Run)
    → ((if b then some run else (o >>= λ rest. some (appended run rest))) >>= λ x.
        some (reply_first reply x))
      ≡ (if b
          then some (reply_first reply run)
          else (o >>= λ rest. some (appended (reply_first reply run) rest)))
first_if true reply run o = refl
first_if false reply run none = refl
first_if false reply run (some rest) = refl

then_first :
    (f : Run → Option Run) (reply : Reply) (o : Option Run)
    → ((run : Run) → (f run >>= λ x. some (reply_first reply x)) ≡ f (reply_first reply run))
    → ((o >>= f) >>= λ x. some (reply_first reply x))
      ≡ ((o >>= λ run. some (reply_first reply run)) >>= f)
then_first f reply none h = refl
then_first f reply (some run) h = h run

pub all_of : (o : Option Run) → o ≡ (o >>= λ rest. some rest)
all_of none = refl
all_of (some run) = refl

if-bind :
    (b : Bool) {x' y' : Option Run} (x y : Option Run) (f : Run → Option Run)
    → x' ≡ (x >>= f)
    → y' ≡ (y >>= f)
    → (if b then x' else y') ≡ ((if b then x else y) >>= f)
if-bind true x y f h k = h
if-bind false x y f h k = k

bind-bind :
    {A : Type 0} (o : Option A) (k k' : A → Option Run) (f : Run → Option Run)
    → ((a : A) → k' a ≡ (k a >>= f))
    → (o >>= k') ≡ ((o >>= k) >>= f)
bind-bind none k k' f h = refl
bind-bind (some a) k k' f h = h a

module _ (ops : BufferOps) (crypto : CryptoOps) (tlv : TlvOps) where
  abbrev pub resumed : List Round → Run → Option Run
  resumed more run =
      if run.returned
      then some run
      else (app_loop ops crypto tlv run.device more >>= λ rest. some (appended run rest))

  resumed-reply_first :
      (more : List Round) (reply : Reply) (run : Run)
      → (resumed more run >>= λ x. some (reply_first reply x))
        ≡ resumed more (reply_first reply run)
  resumed-reply_first more reply run =
      first_if run.returned reply run (app_loop ops crypto tlv run.device more)

  first_resumed :
      (more : List Round) (reply : Reply) (o o' : Option Run)
      → o' ≡ (o >>= resumed more)
      → (o' >>= λ x. some (reply_first reply x))
        ≡ ((o >>= λ run. some (reply_first reply run)) >>= resumed more)
  first_resumed more reply o o' e =
      ap (λ u. u >>= λ x. some (reply_first reply x)) e
      ∙ then_first (resumed more) reply o (resumed-reply_first more reply)

  -- A run with more rounds is the run, and, unless `app_main` has returned in it, the rest of the
  -- rounds from the device that it left: after a failure to receive or to send nothing is handled.
  pub app_loop-append :
      (rounds more : List Round) (d : Device)
      → app_loop ops crypto tlv d (rounds ++ more)
        ≡ (app_loop ops crypto tlv d rounds >>= resumed more)
  unfolding app_loop
  app_loop-append [] more d = all_of (app_loop ops crypto tlv d more)
  app_loop-append (recv_failed ∷ rounds) more d = refl
  app_loop-append (bad_length ∷ rounds) more d =
      if-bind (is_menu d.screen) _ _ _
        (bind-bind (receive ops crypto tlv d none) _ _ _
          λ (d', reply). first_resumed more reply _ _ (app_loop-append rounds more d'))
        (app_loop-append rounds more d)
  app_loop-append (received cmd sent ∷ rounds) more d =
      if-bind (is_menu d.screen) _ _ _
        (bind-bind (receive ops crypto tlv d (some cmd)) _ _ _ λ (d', reply).
          if-bind (failed sent reply) _ _ _ refl
            (first_resumed more reply _ _ (app_loop-append rounds more d')))
        (app_loop-append rounds more d)
  app_loop-append (chosen confirm ∷ rounds) more d =
      if-bind (is_menu d.screen) _ _ _ (app_loop-append rounds more d) (
        bind-bind (review_choice ops crypto tlv d confirm) _ _ _
          λ (d', reply). first_resumed more reply _ _ (app_loop-append rounds more d'))
