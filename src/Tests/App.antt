-- ===== src/Tests/App.antt =====
-- Witnesses for the loop of `app_main` and the length of the answers.
use ledger_hardmail_app.Tests.{
  fresh_menu, sample, sample_bytes, AllBytes-by, result_or, path_command, sample_command,
}
use ledger_hardmail_app.Common.{
  ◌≡◌, ◌∙◌, refl, sym, ap, true, false, List, [], ◌∷◌, ◌++◌, some, none, ◌⊎◌,
}
use ledger_hardmail_app.Dispatcher.{Command, apdu_dispatcher, run_instruction, sign}
use ledger_hardmail_app.Context.{Reply, respond, review, swo_success, zero_bytes}
use ledger_hardmail_app.Sdk.StandIn.{stand_in, stand_in_laws}
use ledger_hardmail_app.Sdk.CryptoStandIn.{
  stand_in_crypto, stand_in_hex, stand_in_hash, stand_in_sign,
}
use ledger_hardmail_app.Address.{read_path}
use ledger_hardmail_app.Display.{
  ui_display_transaction, email_pairs, attachment_pairs, print_attachment, decimal, copy_field,
}
use ledger_hardmail_app.Display.Review.{review_of}
use ledger_hardmail_app.Sign.{
  handler_sign_tx, init_transaction_context, accumulate_transaction_data, continue_sign,
  finish_sign, process_transaction, hash_parsed,
}
use ledger_hardmail_app.Parser.{
  transaction_deserialize, parse, fields, challenge_field, text_field, read_text_field, text_ok,
  body_field, attachment_field, attachment,
}
use ledger_hardmail_app.Tokens.{init_dynamic_token_storage}
use ledger_hardmail_app.Tokens.StandIn.{tlv_stand_in, tlv_stand_in_laws}
use ledger_hardmail_app.Dispatcher.Lengths.{IsShort}
use ledger_hardmail_app.Device.{Device, menu, start, receive, review_choice}
use ledger_hardmail_app.Device.Holds.{started-IsDevice}
use ledger_hardmail_app.Device.Bounds.{device-IsShort}
use ledger_hardmail_app.Display.Injective.{HexBytes}
use ledger_hardmail_app.Wire.{Message, IsValid, encode}
use ledger_hardmail_app.Validate.Choice.{signature_reply}
use ledger_hardmail_app.App.Approved.{app_main-approved}
use ledger_hardmail_app.App.{
  Round, Run, stopped, reply_first, bad_length, received, chosen, app_loop, app_main,
}
use ledger_hardmail_app.App.Loop.{RoundsOk, Runs, appended, app_main-Runs}

abbrev version_command : Command
version_command = record { cla = 0xe0; ins = 3; p1 = 0; p2 = 0; lc = 0; payload = none }

-- Bytes of a bad length, a choice with no review, the version, and an answer that cannot be sent.
abbrev rounds : List Round
rounds =
    bad_length
    ∷ chosen true
    ∷ received version_command true
    ∷ received version_command false
    ∷ received version_command true
    ∷ []

app_main-Runs_example :
    ((app_main stand_in stand_in_crypto tlv_stand_in fresh_menu rounds).0.storage.initialized ≡ 1)
    × Runs stand_in_crypto (app_main stand_in stand_in_crypto tlv_stand_in fresh_menu rounds).1
app_main-Runs_example =
    app_main-Runs stand_in stand_in_laws stand_in_crypto stand_in_hex stand_in_hash stand_in_sign
      tlv_stand_in tlv_stand_in_laws fresh_menu rounds (tt, (tt, (tt, tt)))

abbrev begin_device : Device
begin_device = start stand_in stand_in_crypto tlv_stand_in

device-IsShort_example :
    ((r : Device × Reply) × (receive stand_in stand_in_crypto tlv_stand_in begin_device
          (some version_command)
        ≡ some r)
      × IsShort r.1)
    × ((begin_device.screen ≡ menu)
        ⊎ ((r : Device × Reply) × (review_choice stand_in stand_in_crypto tlv_stand_in begin_device
                true
              ≡ some r)
            × IsShort r.1))
device-IsShort_example =
    device-IsShort stand_in stand_in_laws stand_in_crypto stand_in_hex stand_in_hash stand_in_sign
      tlv_stand_in tlv_stand_in_laws begin_device (some version_command) true
      (started-IsDevice stand_in stand_in_crypto tlv_stand_in) tt

abbrev email_rounds : List Round
email_rounds = received path_command true ∷ received sample_command true ∷ []

abbrev run_of : List Round → Run
run_of rounds =
    result_or (stopped begin_device true)
      (app_main stand_in stand_in_crypto tlv_stand_in fresh_menu rounds).1

abbrev email_run : Run
email_run = run_of email_rounds

email_rounds_ok : RoundsOk email_rounds
email_rounds_ok = (
  (refl, AllBytes-by (1 ∷ 0 ∷ 0 ∷ 0 ∷ 44 ∷ []) refl),
  ((refl, AllBytes-by sample_bytes refl), tt),
)

ran :
    (rounds : List Round)
    → RoundsOk rounds
    → (app_main stand_in stand_in_crypto tlv_stand_in fresh_menu rounds).1 ≡ some (run_of rounds)
ran rounds ok =
    let (run, ends, _) =
      (app_main-Runs stand_in stand_in_laws stand_in_crypto stand_in_hex stand_in_hash stand_in_sign
        tlv_stand_in tlv_stand_in_laws fresh_menu rounds ok).1 in
    ends ∙ ap some (sym (ap (result_or (stopped begin_device true)) ends))

email_done :
    (email_run.returned ≡ false)
    × (email_run.replies ≡ (respond [] swo_success ∷ []) ++ review (review_of sample) ∷ [])
unfolding app_main app_loop start receive apdu_dispatcher run_instruction sign handler_sign_tx
    init_transaction_context accumulate_transaction_data continue_sign finish_sign
    process_transaction hash_parsed transaction_deserialize stand_in stand_in_crypto zero_bytes
    init_dynamic_token_storage parse fields challenge_field text_field read_text_field text_ok
    body_field attachment_field attachment read_path ui_display_transaction email_pairs
    attachment_pairs print_attachment decimal copy_field
email_done = (refl, refl)

app_main-approved_example :
    (m : Message) × (rest : Run) × IsValid m
    × (review_of sample ≡ review_of m)
    × ((m' : Message) → IsValid m' → HexBytes m' → review_of sample ≡ review_of m' → m' ≡ m)
    × ((app_main stand_in stand_in_crypto tlv_stand_in fresh_menu
          (email_rounds ++ chosen true ∷ email_rounds)).1
        ≡ some (
            appended email_run (
              reply_first
                (signature_reply stand_in_crypto email_run.device.globals.context.bip32_path
                  email_run.device.globals.context.bip32_path_len
                  (stand_in_crypto.hash_sha256 (encode m)).1)
                rest)))
app_main-approved_example =
    app_main-approved stand_in stand_in_laws stand_in_crypto stand_in_hex stand_in_hash
      stand_in_sign tlv_stand_in tlv_stand_in_laws fresh_menu email_rounds email_rounds email_run
      (respond [] swo_success ∷ []) (review_of sample) email_rounds_ok email_rounds_ok
      (ran email_rounds email_rounds_ok) email_done.0 email_done.1
