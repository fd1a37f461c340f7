-- ===== src/App/Refines.antt =====
-- `app_main` of src/app_main.c and the abstract session.
use ledger_hardmail_app.Common.{
  ◌++◌, append-nil, if_false, true, false, ◌≡◌, refl, ap, ◌∙◌, List, [], ◌∷◌, Option, none, some,
  ◌>>=◌,
}
use ledger_hardmail_app.App.{Round, recv_failed, is_menu, Run, stopped, app_loop, app_main}
use ledger_hardmail_app.App.Loop.{appended, resumed, app_loop-append}
use ledger_hardmail_app.App.Session.{
  version_answer, name_answer, provides, misasks, garbles, token_command, token_answer, Asked,
  asks_version, asks_name, asks_key, opens, sends, decides, rounds_of, AskedOk, AllAskedOk,
  AppSession, start_app_session, key_step, app_step, app_session, no_data, key_command, with_answer,
}
use ledger_hardmail_app.App.Rounds.{
  waiting-Steps, when_idle-Steps, command-Steps, idle_again, decides_key,
}
use ledger_hardmail_app.App.Commands.{
  receive-token, receive-refused, garbled_none, garbled_first, receive-key, receive-version,
  receive-name, received_none,
}
use ledger_hardmail_app.Tokens.Lookup.{TlvLaws, handler_provide_token_info-Stored}
use ledger_hardmail_app.Dispatcher.{
  with_token, with_context, handler_get_version, handler_get_app_name,
}
use ledger_hardmail_app.Context.{swo_wrong_data_length, Reply, send_sw}
use ledger_hardmail_app.Sdk.Buffers.{BufferOps, BufferLaws}
use ledger_hardmail_app.Sdk.Crypto.{CryptoOps, HexLaw, HashLaw, SignLaw, KeyLaw}
use ledger_hardmail_app.Address.{handler_get_public_key}
use ledger_hardmail_app.Sign.Gather.{chunk_buffer}
use ledger_hardmail_app.Tokens.{TlvOps}
use ledger_hardmail_app.Settings.{Menu}
use ledger_hardmail_app.Device.{Device, device_of, start}
use ledger_hardmail_app.Machine.Stands.{start-Stands}
use ledger_hardmail_app.App.Follows.{screen_at, Follows, signing, showing, answer_first, Steps}
use ledger_hardmail_app.App.Signing.{device_at, opens-Steps, sends-Steps, decides-Steps}
use ledger_hardmail_app.App.Keys.{key_step-Follows}

answered :
    (reply : Option Reply) (run : Run)
    → run.returned ≡ false
    → (answer_first reply run).returned ≡ false
answered none run e = e
answered (some reply) run e = e

answers :
    (ops : BufferOps) (crypto : CryptoOps) (reply : Option Reply) (run : Run) (replies : List Reply)
    → run.replies ≡ replies
    → (answer_first reply run).replies ≡ with_answer reply replies
answers ops crypto none run replies e = e
answers ops crypto (some reply) run replies e = ap (λ rest. reply ∷ rest) e

module _ (ops : BufferOps) (laws : BufferLaws ops) (crypto : CryptoOps) (hexes : HexLaw crypto)
    (hashes : HashLaw crypto) (signs : SignLaw crypto) (keys : KeyLaw crypto) (tlv : TlvOps)
    (tokens : TlvLaws tlv) where
  -- Each round does to the device what it does to the session, with the same answer.
  app_step-Steps :
      (asked : Asked) (d : Device) (x : AppSession)
      → Follows crypto d x
      → AskedOk asked
      → Steps ops crypto tlv asked d (app_step ops crypto tlv asked x)
  unfolding app_step handler_get_version handler_get_app_name
  app_step-Steps (opens token bytes) d x (signing {g} {shown} {a} h) ok =
      opens-Steps ops laws crypto hexes hashes signs tlv token bytes g shown a h
  app_step-Steps (sends token number more bytes) d x (signing {g} {shown} {a} h) (few, all) =
      sends-Steps ops laws crypto hexes hashes signs tlv token number more bytes g shown a h few all
  app_step-Steps (decides confirm) d x (signing {g} {shown} {a} h) ok =
      decides-Steps ops laws crypto hexes hashes signs tlv confirm g shown a h
  app_step-Steps asks_version d x (signing {g} {shown} {a} h) ok =
      command-Steps ops crypto tlv asks_version (no_data 0x03) g shown a
        (device_of (g, handler_get_version))
        (record { signing = a; shows_key = false }, some version_answer) h refl
        (receive-version ops crypto tlv (device_at g shown)) refl
        (idle_again ops crypto tlv g g shown a refl h)
  app_step-Steps asks_name d x (signing {g} {shown} {a} h) ok =
      command-Steps ops crypto tlv asks_name (no_data 0x04) g shown a
        (device_of (g, handler_get_app_name))
        (record { signing = a; shows_key = false }, some name_answer) h refl
        (receive-name ops crypto tlv (device_at g shown)) refl
        (idle_again ops crypto tlv g g shown a refl h)
  app_step-Steps (asks_key display bytes) d x (signing {g} {shown} {a} h) ok =
      let r = handler_get_public_key crypto ops (chunk_buffer bytes) display in
      let (same, after) = key_step-Follows ops crypto hexes keys display bytes g in
      command-Steps ops crypto tlv (asks_key display bytes) (key_command display bytes) g shown a
        (device_of (with_context g r)) (key_step ops crypto display bytes) h refl
        (receive-key ops crypto tlv display bytes (device_at g shown)) same λ e. after
  app_step-Steps (provides bytes) d x (signing {g} {shown} {a} h) ok =
      let (r, ran, _) = handler_provide_token_info-Stored tlv tokens (chunk_buffer bytes) in
      command-Steps ops crypto tlv (provides bytes) (token_command bytes) g shown a
        (device_of (with_token g r))
        (record { signing = a; shows_key = false }, token_answer tlv bytes) h refl
        (receive-token ops crypto tlv bytes (device_at g shown) r ran) (rw (token_answer, ran) refl)
        (idle_again ops crypto tlv g (record g { token = r.0 }) shown a refl h)
  app_step-Steps (misasks cmd sw) d x (signing {g} {shown} {a} h) ok =
      command-Steps ops crypto tlv (misasks cmd sw) cmd g shown a (device_of (g, send_sw sw))
        (record { signing = a; shows_key = false }, some (send_sw sw)) h refl
        (receive-refused ops crypto tlv cmd sw (device_at g shown) ok) refl
        (idle_again ops crypto tlv g g shown a refl h)
  app_step-Steps garbles d x (signing {g} {shown} {a} h) ok =
      when_idle-Steps ops crypto tlv garbles g shown a
        (device_of (g, send_sw swo_wrong_data_length)).0
        (record { signing = a; shows_key = false }, some (send_sw swo_wrong_data_length)) h
        (λ d rounds. garbled_none ops crypto tlv rounds d)
        λ e. (
          λ rounds.
              garbled_first ops crypto tlv rounds (device_at g shown)
                (ap (λ s. is_menu (screen_at s)) e),
          idle_again ops crypto tlv g g shown a refl h e,
        )
  app_step-Steps (opens token bytes) d x (showing {g} {text} {a} h e) ok =
      waiting-Steps ops crypto tlv (opens token bytes) d x
        (λ d rounds. received_none ops crypto tlv _ rounds d) refl
        (showing {g = g} {text = text} h e)
  app_step-Steps (sends token number more bytes) d x (showing {g} {text} {a} h e) ok =
      waiting-Steps ops crypto tlv (sends token number more bytes) d x
        (λ d rounds. received_none ops crypto tlv _ rounds d) refl
        (showing {g = g} {text = text} h e)
  app_step-Steps asks_version d x (showing {g} {text} {a} h e) ok =
      waiting-Steps ops crypto tlv asks_version d x
        (λ d rounds. received_none ops crypto tlv _ rounds d) refl
        (showing {g = g} {text = text} h e)
  app_step-Steps asks_name d x (showing {g} {text} {a} h e) ok =
      waiting-Steps ops crypto tlv asks_name d x
        (λ d rounds. received_none ops crypto tlv _ rounds d) refl
        (showing {g = g} {text = text} h e)
  app_step-Steps (asks_key display bytes) d x (showing {g} {text} {a} h e) ok =
      waiting-Steps ops crypto tlv (asks_key display bytes) d x
        (λ d rounds. received_none ops crypto tlv _ rounds d) refl
        (showing {g = g} {text = text} h e)
  app_step-Steps (provides bytes) d x (showing {g} {text} {a} h e) ok =
      waiting-Steps ops crypto tlv (provides bytes) d x
        (λ d rounds. received_none ops crypto tlv _ rounds d) refl
        (showing {g = g} {text = text} h e)
  app_step-Steps (misasks cmd sw) d x (showing {g} {text} {a} h e) ok =
      waiting-Steps ops crypto tlv (misasks cmd sw) d x
        (λ d rounds. received_none ops crypto tlv _ rounds d) refl
        (showing {g = g} {text = text} h e)
  app_step-Steps garbles d x (showing {g} {text} {a} h e) ok =
      waiting-Steps ops crypto tlv garbles d x (λ d rounds. garbled_none ops crypto tlv rounds d)
        refl (showing {g = g} {text = text} h e)
  app_step-Steps (decides confirm) d x (showing {g} {text} {a} h e) ok =
      decides_key ops crypto tlv confirm g text a h e

  -- Runs of all rounds.
  app_session-Runs :
      (asked : List Asked) (d : Device) (x : AppSession)
      → AllAskedOk asked
      → Follows crypto d x
      → (run : Run) × (app_loop ops crypto tlv d (rounds_of asked) ≡ some run)
        × (run.returned ≡ false)
        × (run.replies ≡ (app_session ops crypto tlv asked x).1)
  unfolding app_session app_loop
  app_session-Runs [] d x ok h = (stopped d false, refl, refl, refl)
  app_session-Runs (a ∷ rest) d x (ok, oks) h =
      let (d', loops, after) = app_step-Steps a d x h ok in
      let (run, ran, more, same) =
        app_session-Runs rest d' (app_step ops crypto tlv a x).0 oks after in
      let (x', reply) = app_step ops crypto tlv a x in
      (
        answer_first reply run,
        loops (rounds_of rest) ∙ ap (λ o. o >>= λ run. some (answer_first reply run)) ran,
        answered reply run more,
        answers ops crypto reply run _ same,
      )

  -- A failure to receive a command ends a run, with the same answers.
  fails_then :
      (rounds later : List Round) (d : Device) (run : Run) (replies : List Reply)
      → app_loop ops crypto tlv d rounds ≡ some run
      → run.returned ≡ false
      → run.replies ≡ replies
      → (ended : Run) × (app_loop ops crypto tlv d (rounds ++ recv_failed ∷ later) ≡ some ended)
        × (ended.returned ≡ true)
        × (ended.replies ≡ replies)
  unfolding app_loop
  fails_then rounds later d run replies ran more same = (
    appended run (stopped run.device true),
    app_loop-append ops crypto tlv rounds (recv_failed ∷ later) d
        ∙ ap (λ o. o >>= resumed ops crypto tlv (recv_failed ∷ later)) ran
        ∙ if_false run.returned _ _ more,
    refl,
    append-nil run.replies ∙ same,
  )

  -- Whatever is asked of the app, in whatever order (a path, later chunks of bytes that are numbered at
  -- most 16, keys, versions, names, tokens, commands that are refused for a reason, bytes that are no
  -- command, and choices), with answers that can be sent: it gives the answers and reviews of the
  -- abstract session, and does not return. If then a command cannot be received it returns, with those
  -- answers and no others, whatever would come later.
  pub app_main-Refines :
      (m : Menu) (asked : List Asked) (later : List Round)
      → AllAskedOk asked
      → (run : Run) × (ended : Run) × ((app_main ops crypto tlv m (rounds_of asked)).1 ≡ some run)
        × (run.returned ≡ false)
        × (run.replies ≡ (app_session ops crypto tlv asked start_app_session).1)
        × ((app_main ops crypto tlv m (rounds_of asked ++ recv_failed ∷ later)).1 ≡ some ended)
        × (ended.returned ≡ true)
        × (ended.replies ≡ (app_session ops crypto tlv asked start_app_session).1)
  unfolding app_main start
  app_main-Refines m asked later ok =
      let (run, ran, more, same) =
        app_session-Runs asked (start ops crypto tlv) start_app_session ok
          (signing {shown = none} (start-Stands crypto)) in
      let (ended, fails, returns, still) =
        fails_then (rounds_of asked) later (start ops crypto tlv) run _ ran more same in
      (run, ended, ran, more, same, fails, returns, still)
