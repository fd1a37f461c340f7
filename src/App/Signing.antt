-- ===== src/App/Signing.antt =====
-- The rounds of the loop of src/app_main.c that sign, step by step with the session.
use ledger_hardmail_app.Common.{
  ℕ, suc, ◌≤◌, ◌≡◌, refl, sym, ap, subst, ◌∙◌, Bool, true, false, List, ◌∷◌, Option, none, some,
  ◌>>=◌, bind-some, some_eq,
}
use ledger_hardmail_app.Sdk.Buffers.{Bytes, BufferOps, BufferLaws}
use ledger_hardmail_app.Sdk.Crypto.{CryptoOps, HexLaw, HashLaw, SignLaw}
use ledger_hardmail_app.Context.{Context, Pair, Reply}
use ledger_hardmail_app.Sign.{handler_sign_tx}
use ledger_hardmail_app.Sign.Gather.{chunk_buffer}
use ledger_hardmail_app.Validate.{validate_transaction}
use ledger_hardmail_app.Tokens.{TlvOps}
use ledger_hardmail_app.Dispatcher.{Globals, with_context}
use ledger_hardmail_app.Device.{Device, device_of, review_choice}
use ledger_hardmail_app.Machine.{
  Event, begin, chunk, choose, Signer, shown_of, signer_of, sign_step, Session, session_step,
}
use ledger_hardmail_app.Machine.Stands.{Stands}
use ledger_hardmail_app.Machine.Refines.{EventOk, sign_step-Implements}
use ledger_hardmail_app.App.{Round, reply_first, app_loop}
use ledger_hardmail_app.App.Loop.{all_of}
use ledger_hardmail_app.App.Session.{Asked, opens, sends, decides, round_of, signing_step}
use ledger_hardmail_app.App.Commands.{
  receive-path, receive-part, received_first, received_none, chosen_first, chosen_none,
}
use ledger_hardmail_app.Wire.{AllBytes}
use ledger_hardmail_app.App.Follows.{
  screen_at, Follows, signing, answer_first, Steps, IsPlain, session_step-IsPlain,
}

-- A device with the context and the screen of the signer.
abbrev pub device_at : Globals → Option (List Pair) → Device
device_at g shown = record { globals = g; screen = screen_at shown }

-- The device after a handler is that of the signer after it.
follows :
    (crypto : CryptoOps) (g : Globals) (r : Context × Reply) (s : Signer) (reply : Option Reply)
    (a : Session)
    → signer_of r ≡ (s, reply)
    → Stands crypto s a
    → IsPlain reply
    → Follows crypto (device_of (with_context g r)).0 (record { signing = a; shows_key = false })
      × (some r.1 ≡ reply)
follows crypto g (c, sent) s reply a e h plain =
    let h1 : Stands crypto (record { context = c; shown = shown_of sent }) a =
      subst (λ (x : Signer × Option Reply). Stands crypto x.0 a) (sym e) h in
    let plain1 : IsPlain (some sent) =
      subst (λ (x : Signer × Option Reply). IsPlain x.1) (sym e) plain in
    (
      subst
          (λ screen.
            Follows crypto (record { globals = record g { context = c }; screen = screen })
              (record { signing = a; shows_key = false }))
          (sym plain1) (signing {g = record g { context = c }} h1),
      ap (λ (x : Signer × Option Reply). x.1) e,
    )

module _ (ops : BufferOps) (laws : BufferLaws ops) (crypto : CryptoOps) (hexes : HexLaw crypto)
    (hashes : HashLaw crypto) (signs : SignLaw crypto) (tlv : TlvOps) where
  -- A round that is handled.
  signs_round :
      (asked : Asked) (event : Event) (g : Globals) (shown : Option (List Pair)) (a : Session)
      (o : Option (Context × Reply))
      → Stands crypto (record { context = g.context; shown = shown }) a
      → EventOk event
      → sign_step ops crypto event (record { context = g.context; shown = shown })
        ≡ (o >>= λ r. some (signer_of r))
      → ((r : Context × Reply) (rounds : List Round)
          → o ≡ some r
          → app_loop ops crypto tlv (device_at g shown) (round_of asked ∷ rounds) ≡ (
              app_loop ops crypto tlv (device_of (with_context g r)).0 rounds >>= λ run.
              some (reply_first r.1 run)))
      → Steps ops crypto tlv asked (device_at g shown) (
          signing_step
            (record { signing = a; shows_key = false })
            (session_step ops crypto event a))
  signs_round asked event g shown a o h ok e loops =
      let (s, ran, h1) =
        sign_step-Implements ops laws crypto hexes hashes signs event
          (record { context = g.context; shown = shown }) a h ok in
      let (a1, reply) = session_step ops crypto event a in
      let (r, handled, ends) = bind-some o _ _ (sym e ∙ ran) in
      let d1 = (device_of (with_context g r)).0 in
      let (after, same) =
        follows crypto g r s reply a1 (some_eq _ _ ends) h1
          (session_step-IsPlain ops crypto event a) in
      (
        d1,
        λ rounds.
            loops r rounds handled
            ∙ ap (λ x. app_loop ops crypto tlv d1 rounds >>= λ run. some (answer_first x run)) same,
        after,
      )

  -- A round that is left aside.
  skips_round :
      (asked : Asked) (event : Event) (g : Globals) (shown : Option (List Pair)) (a : Session)
      → Stands crypto (record { context = g.context; shown = shown }) a
      → EventOk event
      → sign_step ops crypto event (record { context = g.context; shown = shown })
        ≡ some (record { context = g.context; shown = shown }, none)
      → ((rounds : List Round)
          → app_loop ops crypto tlv (device_at g shown) (round_of asked ∷ rounds)
            ≡ app_loop ops crypto tlv (device_at g shown) rounds)
      → Steps ops crypto tlv asked (device_at g shown) (
          signing_step
            (record { signing = a; shows_key = false })
            (session_step ops crypto event a))
  skips_round asked event g shown a h ok e loops =
      let d = device_at g shown in
      let (s, ran, h1) =
        sign_step-Implements ops laws crypto hexes hashes signs event
          (record { context = g.context; shown = shown }) a h ok in
      let (a1, reply) = session_step ops crypto event a in
      let same = some_eq _ _ (sym ran ∙ e) in
      (
        d,
        λ rounds.
            loops rounds
            ∙ all_of (app_loop ops crypto tlv d rounds)
            ∙ ap
                (λ (x : Signer × Option Reply).
                  app_loop ops crypto tlv d rounds >>= λ run. some (answer_first x.1 run))
                (sym same),
        signing {g = g} {shown = shown}
            (subst (λ (x : Signer × Option Reply). Stands crypto x.0 a1) same h1),
      )

  pub opens-Steps :
      (token : Bool) (bytes : Bytes) (g : Globals) (shown : Option (List Pair)) (a : Session)
      → Stands crypto (record { context = g.context; shown = shown }) a
      → Steps ops crypto tlv (opens token bytes) (device_at g shown) (
          signing_step
            (record { signing = a; shows_key = false })
            (session_step ops crypto (begin token (chunk_buffer bytes)) a))
  unfolding sign_step
  opens-Steps token bytes g none a h =
      signs_round (opens token bytes) (begin token (chunk_buffer bytes)) g none a
        (handler_sign_tx ops crypto (chunk_buffer bytes) 0 true token g.context) h tt refl
        λ r rounds handled.
          received_first ops crypto tlv _ rounds (device_at g none) _ refl
            (receive-path ops crypto tlv token bytes (device_at g none) r handled)
  opens-Steps token bytes g (some pairs) a h =
      skips_round (opens token bytes) (begin token (chunk_buffer bytes)) g (some pairs) a h tt refl
        λ rounds. received_none ops crypto tlv _ rounds (device_at g (some pairs)) refl

  pub sends-Steps :
      (token : Bool) (number : ℕ) (more : Bool) (bytes : Bytes) (g : Globals)
      (shown : Option (List Pair)) (a : Session)
      → Stands crypto (record { context = g.context; shown = shown }) a
      → suc number ≤ 16
      → AllBytes bytes
      → Steps ops crypto tlv (sends token number more bytes) (device_at g shown) (
          signing_step
            (record { signing = a; shows_key = false })
            (session_step ops crypto (chunk token number more bytes) a))
  unfolding sign_step
  sends-Steps token number more bytes g none a h few all =
      signs_round (sends token number more bytes) (chunk token number more bytes) g none a
        (handler_sign_tx ops crypto (chunk_buffer bytes) (suc number) more token g.context) h all
        refl
        λ r rounds handled.
          received_first ops crypto tlv _ rounds (device_at g none) _ refl
            (receive-part ops crypto tlv token number more bytes (device_at g none) r few handled)
  sends-Steps token number more bytes g (some pairs) a h few all =
      skips_round (sends token number more bytes) (chunk token number more bytes) g (some pairs) a h
        all refl λ rounds. received_none ops crypto tlv _ rounds (device_at g (some pairs)) refl

  pub decides-Steps :
      (confirm : Bool) (g : Globals) (shown : Option (List Pair)) (a : Session)
      → Stands crypto (record { context = g.context; shown = shown }) a
      → Steps ops crypto tlv (decides confirm) (device_at g shown) (
          signing_step
            (record { signing = a; shows_key = false })
            (session_step ops crypto (choose confirm) a))
  unfolding sign_step review_choice
  decides-Steps confirm g none a h =
      skips_round (decides confirm) (choose confirm) g none a h tt refl
        λ rounds. chosen_none ops crypto tlv confirm rounds (device_at g none) refl
  decides-Steps confirm g (some pairs) a h =
      signs_round (decides confirm) (choose confirm) g (some pairs) a
        (validate_transaction crypto confirm g.context) h tt refl
        λ r rounds handled.
          chosen_first ops crypto tlv confirm rounds (device_at g (some pairs))
            (device_of (with_context g r)) refl
            (ap (λ o. o >>= λ x. some (device_of (with_context g x))) handled)
