-- ===== src/App/Screens.antt =====
-- What a run of the loop of src/app_main.c leaves on the screen.
use ledger_hardmail_app.Common.{
  ◌≡◌, refl, ap, subst, Bool, true, false, List, [], ◌∷◌, ◌++◌, Option, none, some, arith,
  if◌then◌else◌, ◌>>=◌, some_eq,
}
use ledger_hardmail_app.Sdk.Buffers.{BufferOps}
use ledger_hardmail_app.Sdk.Crypto.{CryptoOps}
use ledger_hardmail_app.Context.{Reply, send_sw, swo_wrong_data_length}
use ledger_hardmail_app.Tokens.{TlvOps}
use ledger_hardmail_app.Address.{validate_pubkey}
use ledger_hardmail_app.Validate.{validate_transaction}
use ledger_hardmail_app.Dispatcher.{Command, Globals, with_context, apdu_dispatcher}
use ledger_hardmail_app.Device.{
  Screen, menu, transaction_review, address_review, Device, screen_of, device_of, receive,
  review_choice,
}
use ledger_hardmail_app.App.{
  Round, recv_failed, bad_length, received, chosen, failed, is_menu, Run, stopped, reply_first,
  app_loop,
}

-- The screen after some answers.
abbrev pub last_screen : Screen → List Reply → Screen
last_screen s [] = s
last_screen s (reply ∷ replies) = last_screen (screen_of reply) replies

pub last_screen-append :
    (s : Screen) (replies : List Reply) (last : Reply)
    → last_screen s (replies ++ last ∷ []) ≡ screen_of last
last_screen-append s [] last = refl
last_screen-append s (reply ∷ replies) last = last_screen-append (screen_of reply) replies last

-- The screen at the end of a run is the one that the last answer led to.
abbrev pub Shows : Screen → Option Run → Type 0
Shows s o =
    (run : Run)
    → o ≡ some run
    → run.returned ≡ false
    → run.device.screen ≡ last_screen s run.replies

if-Shows :
    (s : Screen) (b : Bool) (x y : Option Run)
    → Shows s x
    → Shows s y
    → Shows s (if b then x else y)
if-Shows s true x y h k = h
if-Shows s false x y h k = k

returned-Shows : (s : Screen) (d : Device) → Shows s (some (stopped d true))
returned-Shows s d run e r =
    absurd (ground (arith, ap (λ (x : Run). x.returned) (some_eq _ _ e), r))

stays-Shows : (d : Device) → Shows d.screen (some (stopped d false))
stays-Shows d run e r =
    subst (λ (x : Run). x.device.screen ≡ last_screen d.screen x.replies) (some_eq _ _ e) refl

first-Shows :
    (s : Screen) (reply : Reply) (o : Option Run)
    → Shows (screen_of reply) o
    → Shows s (o >>= λ run. some (reply_first reply run))
first-Shows s reply none h run e r = absurd (ground (arith, e))
first-Shows s reply (some ran) h run e r =
    let same = some_eq _ _ e in
    subst (λ (x : Run). x.returned ≡ false → x.device.screen ≡ last_screen s x.replies) same
      (λ k. h ran refl k) r

-- A step whose screen comes from its answer, before the rest of the run.
bind-Shows :
    {A : Type 0} (s : Screen) (o : Option A) (k : A → Globals × Reply)
    (f : Device × Reply → Option Run)
    → ((r : Globals × Reply) → Shows s (f (device_of r)))
    → Shows s ((o >>= λ a. some (device_of (k a))) >>= f)
bind-Shows s none k f h = λ run e r. absurd (ground (arith, e))
bind-Shows s (some a) k f h = h (k a)

module _ (ops : BufferOps) (crypto : CryptoOps) (tlv : TlvOps) where
  receive-Shows :
      (s : Screen) (d : Device) (cmd : Option Command) (f : Device × Reply → Option Run)
      → ((r : Globals × Reply) → Shows s (f (device_of r)))
      → Shows s (receive ops crypto tlv d cmd >>= f)
  unfolding receive
  receive-Shows s d none f h = h (d.globals, send_sw swo_wrong_data_length)
  receive-Shows s d (some cmd) f h =
      bind-Shows s (apdu_dispatcher ops crypto tlv d.globals cmd) (λ r. r) f h

  choice-Shows :
      (s : Screen) (d : Device) (x : Screen) (confirm : Bool) (f : Device × Reply → Option Run)
      → d.screen ≡ x
      → ((r : Globals × Reply) → Shows s (f (device_of r)))
      → Shows s (review_choice ops crypto tlv d confirm >>= f)
  unfolding review_choice
  choice-Shows s d menu confirm f e h = rw e (λ run ran r. absurd (ground (arith, ran)))
  choice-Shows s d (transaction_review pairs) confirm f e h = rw e (
      bind-Shows s (validate_transaction crypto confirm d.globals.context) (with_context d.globals)
        f h)
  choice-Shows s d (address_review text) confirm f e h =
      rw e (h (d.globals, validate_pubkey confirm d.globals.context))

  pub app_loop-Shows :
      (rounds : List Round) (d : Device) → Shows d.screen (app_loop ops crypto tlv d rounds)
  unfolding app_loop
  app_loop-Shows [] d = stays-Shows d
  app_loop-Shows (recv_failed ∷ rounds) d = returned-Shows d.screen d
  app_loop-Shows (bad_length ∷ rounds) d =
      if-Shows d.screen (is_menu d.screen) _ _
        (receive-Shows d.screen d none _ λ (g, reply).
          first-Shows d.screen reply _ (app_loop-Shows rounds (device_of (g, reply)).0))
        (app_loop-Shows rounds d)
  app_loop-Shows (received cmd sent ∷ rounds) d =
      if-Shows d.screen (is_menu d.screen) _ _
        (receive-Shows d.screen d (some cmd) _ λ (g, reply).
          if-Shows d.screen (failed sent reply) _ _ (returned-Shows d.screen _)
            (first-Shows d.screen reply _ (app_loop-Shows rounds (device_of (g, reply)).0)))
        (app_loop-Shows rounds d)
  app_loop-Shows (chosen confirm ∷ rounds) d =
      if-Shows d.screen (is_menu d.screen) _ _ (app_loop-Shows rounds d) (
        choice-Shows d.screen d d.screen confirm _ refl λ (g, reply).
          first-Shows d.screen reply _ (app_loop-Shows rounds (device_of (g, reply)).0))
