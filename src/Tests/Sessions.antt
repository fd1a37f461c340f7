-- ===== src/Tests/Sessions.antt =====
-- Witnesses for the abstract session of the app.
use ledger_hardmail_app.Common.{
  ℕ, replicate, ◌++◌, ◌≢◌, ◌≡◌, refl, true, false, List, [], ◌∷◌, some, none, arith,
}
use ledger_hardmail_app.App.Addresses.{app_main-sends_key}
use ledger_hardmail_app.App.Keyed.{address_at, point_at, code_at, key_reply}
use ledger_hardmail_app.App.{stopped, app_loop, recv_failed, chosen, Run, app_main}
use ledger_hardmail_app.Device.{start, receive}
use ledger_hardmail_app.Dispatcher.{
  apdu_dispatcher, run_instruction, handler_get_app_name, cla_app, Command,
}
use ledger_hardmail_app.Address.{
  handler_get_public_key, derive_public_key, ui_display_address, address_from_pubkey, read_path,
}
use ledger_hardmail_app.Context.{zero_bytes, respond, review_address, swo_success, swo_invalid_cla}
use ledger_hardmail_app.Display.{codes}
use ledger_hardmail_app.Sdk.Crypto.{hex}
use ledger_hardmail_app.Sdk.Buffers.{Bytes}
use ledger_hardmail_app.Tests.{result_or, fresh_menu, sample_bytes, AllBytes-by}
use ledger_hardmail_app.App.Consent.{Signing, with_signing, app_main-unapproved}
use ledger_hardmail_app.App.Session.{
  provides, misasks, garbles, AllAskedOk, Asked, asks_version, asks_name, asks_key, opens, sends,
  decides, rounds_of, start_app_session, app_session,
}
use ledger_hardmail_app.Dispatcher.Errors.{wrong_class}
use ledger_hardmail_app.Sdk.StandIn.{stand_in, stand_in_laws}
use ledger_hardmail_app.Sdk.CryptoStandIn.{
  stand_in_crypto, stand_in_hex, stand_in_hash, stand_in_sign, stand_in_key,
}
use ledger_hardmail_app.Tokens.StandIn.{tlv_stand_in, tlv_stand_in_laws}
use ledger_hardmail_app.App.Refines.{app_main-Refines}

-- An address that is shown and approved, a token, and an email that is sent and approved, with a command
-- of another class and bytes that are no command between them.
abbrev other_class : Command
other_class = record { cla = 0x80; ins = 6; p1 = 1; p2 = 0; lc = 0; payload = none }

abbrev asked_of_app : List Asked
asked_of_app =
    asks_version
    ∷ asks_key true (1 ∷ 0 ∷ 0 ∷ 0 ∷ 44 ∷ [])
    ∷ asks_name
    ∷ decides true
    ∷ provides (7 ∷ [])
    ∷ opens false (1 ∷ 0 ∷ 0 ∷ 0 ∷ 44 ∷ [])
    ∷ misasks other_class swo_invalid_cla
    ∷ sends false 0 false sample_bytes
    ∷ garbles
    ∷ decides true
    ∷ []

asked_of_app_ok : AllAskedOk asked_of_app
asked_of_app_ok =
    let no_class : other_class.cla ≢ cla_app = λ e. ground (arith, e) in
    (
      tt,
      (
        tt,
        (
          tt,
          (
            tt,
            (
              tt,
              (
                tt,
                (
                  wrong_class no_class,
                  ((omega arith, AllBytes-by sample_bytes refl), (tt, (tt, tt))),
                ),
              ),
            ),
          ),
        ),
      ),
    )

app_main-Refines_example :
    (run : Run) × (ended : Run) × ((app_main stand_in stand_in_crypto tlv_stand_in fresh_menu
        (rounds_of asked_of_app)).1
      ≡ some run)
    × (run.returned ≡ false)
    × (run.replies
        ≡ (app_session stand_in stand_in_crypto tlv_stand_in asked_of_app start_app_session).1)
    × ((app_main stand_in stand_in_crypto tlv_stand_in fresh_menu
          (rounds_of asked_of_app ++ recv_failed ∷ chosen true ∷ [])).1
        ≡ some ended)
    × (ended.returned ≡ true)
    × (ended.replies
        ≡ (app_session stand_in stand_in_crypto tlv_stand_in asked_of_app start_app_session).1)
app_main-Refines_example =
    app_main-Refines stand_in stand_in_laws stand_in_crypto stand_in_hex stand_in_hash stand_in_sign
      stand_in_key tlv_stand_in tlv_stand_in_laws fresh_menu asked_of_app (chosen true ∷ [])
      asked_of_app_ok

-- Another signature, and an email that is sent and rejected.
abbrev other_signing : Signing
other_signing = λ path n digest. (0, replicate 64 9, 64)

abbrev rejected_email : List Asked
rejected_email =
    opens false (1 ∷ 0 ∷ 0 ∷ 0 ∷ 44 ∷ []) ∷ sends false 0 false sample_bytes ∷ decides false ∷ []

app_main-unapproved_example :
    (run : Run) × (run' : Run) × ((app_main stand_in stand_in_crypto tlv_stand_in fresh_menu
        (rounds_of rejected_email)).1
      ≡ some run)
    × ((app_main stand_in
          (with_signing other_signing stand_in_crypto)
          tlv_stand_in
          fresh_menu
          (rounds_of rejected_email)).1
        ≡ some run')
    × (run'.replies ≡ run.replies)
app_main-unapproved_example =
    app_main-unapproved stand_in stand_in_laws stand_in_crypto stand_in_hex stand_in_hash
      stand_in_sign stand_in_key tlv_stand_in tlv_stand_in_laws other_signing
      (record { signed_length = λ path n digest e. (refl, refl) }) fresh_menu rejected_email
      (tt, ((omega arith, AllBytes-by sample_bytes refl), (tt, tt))) (refl, (refl, (refl, tt)))

-- An address that is shown.
abbrev shown_key : List Asked
shown_key = asks_name ∷ asks_key true (1 ∷ 0 ∷ 0 ∷ 0 ∷ 44 ∷ []) ∷ []

abbrev address_text : Bytes
address_text = hex (replicate 20 64)

abbrev shown_run : Run
shown_run =
    result_or (stopped (start stand_in stand_in_crypto tlv_stand_in) true)
      (app_main stand_in stand_in_crypto tlv_stand_in fresh_menu (rounds_of shown_key)).1

shown_key_ran :
    (app_main stand_in stand_in_crypto tlv_stand_in fresh_menu (rounds_of shown_key)).1
    ≡ some shown_run
unfolding app_main app_loop start receive apdu_dispatcher run_instruction handler_get_public_key
    derive_public_key ui_display_address address_from_pubkey read_path stand_in stand_in_crypto
    zero_bytes handler_get_app_name
shown_key_ran = refl

shown_key_put :
    shown_run.replies
    ≡ (respond (codes "HardMail") swo_success ∷ []) ++ review_address address_text ∷ []
unfolding app_main app_loop start receive apdu_dispatcher run_instruction handler_get_public_key
    derive_public_key ui_display_address address_from_pubkey read_path stand_in stand_in_crypto
    zero_bytes handler_get_app_name
shown_key_put = refl

app_main-sends_key_example :
    (path : List ℕ) × (n : ℕ) × (approved : Run) × (address_text
      ≡ hex (address_at stand_in_crypto path n))
    × ((app_main stand_in stand_in_crypto tlv_stand_in fresh_menu
          (rounds_of (shown_key ++ decides true ∷ []))).1
        ≡ some approved)
    × (approved.replies
        ≡ ((respond (codes "HardMail") swo_success ∷ []) ++ review_address address_text ∷ [])
          ++ key_reply (point_at stand_in_crypto path n) (code_at stand_in_crypto path n) ∷ [])
app_main-sends_key_example =
    app_main-sends_key stand_in stand_in_laws stand_in_crypto stand_in_hex stand_in_hash
      stand_in_sign stand_in_key tlv_stand_in tlv_stand_in_laws fresh_menu shown_key shown_run
      (respond (codes "HardMail") swo_success ∷ []) address_text (tt, (tt, tt)) shown_key_ran
      shown_key_put
