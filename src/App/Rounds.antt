-- ===== src/App/Rounds.antt =====
-- The rounds of the loop of src/app_main.c that sign nothing, step by step with the abstract session.
use ledger_hardmail_app.App.Session.{when_idle, Asked, decides, round_of, AppSession}
use ledger_hardmail_app.App.{Round, is_menu, reply_first, received, app_loop}
use ledger_hardmail_app.Common.{
  ◌≡◌, refl, ap, subst, ◌∙◌, Bool, true, false, List, ◌∷◌, Option, none, some, ◌>>=◌, if◌then◌else◌,
}
use ledger_hardmail_app.Sdk.Buffers.{Bytes, BufferOps}
use ledger_hardmail_app.Sdk.Crypto.{CryptoOps}
use ledger_hardmail_app.Wire.{Message}
use ledger_hardmail_app.Context.{Pair, Reply, send_sw, swo_conditions_not_satisfied}
use ledger_hardmail_app.Address.Keys.{key_answer}
use ledger_hardmail_app.Address.{validate_pubkey, helper_send_response_pubkey}
use ledger_hardmail_app.Tokens.{TlvOps}
use ledger_hardmail_app.Dispatcher.{Globals, Command}
use ledger_hardmail_app.Device.{Device, menu, address_review, receive, review_choice}
use ledger_hardmail_app.Machine.{Session}
use ledger_hardmail_app.Machine.Stands.{Pending, Stands}
use ledger_hardmail_app.App.Loop.{all_of}
use ledger_hardmail_app.App.Commands.{received_first, received_none, chosen_first}
use ledger_hardmail_app.App.Follows.{screen_at, Follows, signing, answer_first, Steps}
use ledger_hardmail_app.App.Signing.{device_at}

-- What is asked while no email is pending, and while one is.
by_pending :
    (crypto : CryptoOps) (digest : Bytes) (shown : Option (List Pair)) (pending : Option Message)
    (P : AppSession × Option Reply → Type 0) (idle busy : AppSession × Option Reply)
    → Pending crypto digest shown pending
    → (shown ≡ none → P idle)
    → ((pairs : List Pair) → shown ≡ some pairs → P busy)
    → P (elim pending [ some m ↦ busy | none ↦ idle ])
by_pending crypto digest none none P idle busy h k l = k refl
by_pending crypto digest none (some m) P idle busy h k l = elim h [ ]
by_pending crypto digest (some pairs) none P idle busy h k l = elim h [ ]
by_pending crypto digest (some pairs) (some m) P idle busy h k l = l pairs refl

-- The round is answered.
abbrev Answers : BufferOps → CryptoOps → TlvOps → Asked → Device → Device → Option Reply → Type 0
Answers ops crypto tlv asked d d' reply =
    (rounds : List Round)
    → app_loop ops crypto tlv d (round_of asked ∷ rounds)
      ≡ (app_loop ops crypto tlv d' rounds >>= λ run. some (answer_first reply run))

-- While a review waits the round is left aside.
abbrev pub Waits : BufferOps → CryptoOps → TlvOps → Asked → Type 0
Waits ops crypto tlv asked =
    (d : Device) (rounds : List Round)
    → is_menu d.screen ≡ false
    → app_loop ops crypto tlv d (round_of asked ∷ rounds) ≡ app_loop ops crypto tlv d rounds

module _ (ops : BufferOps) (crypto : CryptoOps) (tlv : TlvOps) where
  pub waiting-Steps :
      (asked : Asked) (d : Device) (x : AppSession)
      → Waits ops crypto tlv asked
      → is_menu d.screen ≡ false
      → Follows crypto d x
      → Steps ops crypto tlv asked d (x, none)
  waiting-Steps asked d x aside busy h =
      (d, λ rounds. aside d rounds busy ∙ all_of (app_loop ops crypto tlv d rounds), h)

  -- A command in an idle device that leads to this answer.
  received-Answers :
      (asked : Asked) (cmd : Command) (d : Device) (r : Device × Reply) (reply : Option Reply)
      → round_of asked ≡ received cmd true
      → is_menu d.screen ≡ true
      → receive ops crypto tlv d (some cmd) ≡ some r
      → some r.1 ≡ reply
      → Answers ops crypto tlv asked d r.0 reply
  received-Answers asked cmd d r reply round idle ran same rounds =
      ap (λ y. app_loop ops crypto tlv d (y ∷ rounds)) round
      ∙ received_first ops crypto tlv cmd rounds d r idle ran
      ∙ ap (λ y. app_loop ops crypto tlv r.0 rounds >>= λ run. some (answer_first y run)) same

  -- What is only answered while nothing is shown.
  pub when_idle-Steps :
      (asked : Asked) (g : Globals) (shown : Option (List Pair)) (a : Session) (d' : Device)
      (idle : AppSession × Option Reply)
      → Stands crypto (record { context = g.context; shown = shown }) a
      → Waits ops crypto tlv asked
      → (shown ≡ none
          → Answers ops crypto tlv asked (device_at g shown) d' idle.1 × Follows crypto d' idle.0)
      → Steps ops crypto tlv asked
          (device_at g shown)
          (when_idle (record { signing = a; shows_key = false }) idle)
  when_idle-Steps asked g shown a d' idle h aside k =
      by_pending crypto _ shown a.pending (Steps ops crypto tlv asked (device_at g shown)) idle
        (record { signing = a; shows_key = false }, none) h.pending
        (λ e. let (loops, after) = k e in (d', loops, after))
        λ pairs e.
          waiting-Steps asked (device_at g shown) (record { signing = a; shows_key = false }) aside
            (ap (λ s. is_menu (screen_at s)) e) (signing {g = g} {shown = shown} h)

  -- A command that is only answered while nothing is shown.
  pub command-Steps :
      (asked : Asked) (cmd : Command) (g : Globals) (shown : Option (List Pair)) (a : Session)
      (r : Device × Reply) (idle : AppSession × Option Reply)
      → Stands crypto (record { context = g.context; shown = shown }) a
      → round_of asked ≡ received cmd true
      → receive ops crypto tlv (device_at g shown) (some cmd) ≡ some r
      → some r.1 ≡ idle.1
      → (shown ≡ none → Follows crypto r.0 idle.0)
      → Steps ops crypto tlv asked
          (device_at g shown)
          (when_idle (record { signing = a; shows_key = false }) idle)
  command-Steps asked cmd g shown a r idle h round ran same after =
      when_idle-Steps asked g shown a r.0 idle h
        (λ d rounds busy.
          ap (λ y. app_loop ops crypto tlv d (y ∷ rounds)) round
          ∙ received_none ops crypto tlv cmd rounds d busy)
        λ e. (
          received-Answers asked cmd (device_at g shown) r idle.1 round
              (ap (λ s. is_menu (screen_at s)) e) ran same,
          after e,
        )

  -- The context is not touched.
  pub idle_again :
      (g g' : Globals) (shown : Option (List Pair)) (a : Session)
      → g.context ≡ g'.context
      → Stands crypto (record { context = g.context; shown = shown }) a
      → shown ≡ none
      → Follows crypto
          (record { globals = g'; screen = menu })
          (record { signing = a; shows_key = false })
  idle_again g g' shown a kept h e = signing {g = g'} {shown = none} (
      subst (λ c. Stands crypto (record { context = c; shown = none }) a) kept
        (subst (λ s. Stands crypto (record { context = g.context; shown = s }) a) e h))

  -- The choice on an address.
  pub decides_key :
      (confirm : Bool) (g : Globals) (text : Bytes) (a : Session)
      → Stands crypto (record { context = g.context; shown = none }) a
      → helper_send_response_pubkey g.context ≡ key_answer crypto a.path a.path_len
      → Steps ops crypto tlv
          (decides confirm)
          (record { globals = g; screen = address_review text })
          (
            record { signing = a; shows_key = false },
            some (
                if confirm
                then key_answer crypto a.path a.path_len
                else send_sw swo_conditions_not_satisfied),
          )
  unfolding review_choice validate_pubkey helper_send_response_pubkey
  decides_key true g text a h e = (
    record { globals = g; screen = menu },
    λ rounds.
        chosen_first ops crypto tlv true rounds
          (record { globals = g; screen = address_review text })
          (record { globals = g; screen = menu }, helper_send_response_pubkey g.context) refl refl
        ∙ ap
            (λ y. app_loop ops crypto tlv (record { globals = g; screen = menu }) rounds >>= λ run.
              some (reply_first y run))
            e,
    signing {g = g} {shown = none} h,
  )
  decides_key false g text a h e = (
    record { globals = g; screen = menu },
    λ rounds.
        chosen_first ops crypto tlv false rounds
          (record { globals = g; screen = address_review text })
          (record { globals = g; screen = menu }, send_sw swo_conditions_not_satisfied) refl refl,
    signing {g = g} {shown = none} h,
  )
