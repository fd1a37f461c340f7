-- ===== src/Tests/Overlap.antt =====
-- Witnesses for commands that come while a review waits.
use ledger_hardmail_app.Common.{◌≡◌, ◌≢◌, ◌≤◌, refl, sym, subst, true, [], ◌∷◌, some, arith, length}
use ledger_hardmail_app.Sdk.Buffers.{Bytes}
use ledger_hardmail_app.Sdk.StandIn.{stand_in, stand_in_laws}
use ledger_hardmail_app.Sdk.CryptoStandIn.{
  stand_in_crypto, stand_in_hex, stand_in_hash, stand_in_sign,
}
use ledger_hardmail_app.Wire.{AllBytes, encode}
use ledger_hardmail_app.Context.{
  Reply, respond, review, send_sw, swo_success, swo_conditions_not_satisfied, zero_bytes,
}
use ledger_hardmail_app.Address.{read_path}
use ledger_hardmail_app.Display.{
  ui_display_transaction, email_pairs, attachment_pairs, print_attachment, decimal, copy_field,
}
use ledger_hardmail_app.Display.Review.{review_of}
use ledger_hardmail_app.Sign.{
  handler_sign_tx, init_transaction_context, accumulate_transaction_data, continue_sign,
  finish_sign, process_transaction, hash_parsed,
}
use ledger_hardmail_app.Parser.{
  transaction_deserialize, parse, fields, challenge_field, text_field, read_text_field, text_ok,
  body_field, attachment_field, attachment,
}
use ledger_hardmail_app.Validate.Choice.{signature_reply}
use ledger_hardmail_app.Tokens.{init_dynamic_token_storage}
use ledger_hardmail_app.Tokens.StandIn.{tlv_stand_in, tlv_stand_in_laws}
use ledger_hardmail_app.Dispatcher.{
  Command, Globals, instruction, sign_token_tx, apdu_dispatcher, run_instruction, sign,
}
use ledger_hardmail_app.Device.{transaction_review, Device, device_of, start, review_choice}
use ledger_hardmail_app.Overlap.{receive_over, MayArrive, begins, goes, arrives}
use ledger_hardmail_app.Overlap.Safe.{MaySign, over-MaySign}
use ledger_hardmail_app.Overlap.Unshown.{token_path, token_payload, over-unshown}
use ledger_hardmail_app.Tests.{
  sample, sample-IsValid, sample_bytes, sample_bytes-encode, sample_context, AllBytes-by, result_or,
  path_command, sample_command,
}

abbrev begin_device : Device
begin_device = start stand_in stand_in_crypto tlv_stand_in

-- The device after a command.
abbrev after : Device → Command → Device
after d cmd =
    (result_or (d, send_sw swo_success)
      (receive_over stand_in stand_in_crypto tlv_stand_in d (some cmd))).0

abbrev with_path : Device
with_path = after begin_device path_command

abbrev with_review : Device
with_review = after with_path sample_command

-- The path of another request, while the review of the sample waits.
abbrev with_other : Device
with_other = after with_review path_command

done :
    (receive_over stand_in stand_in_crypto tlv_stand_in begin_device (some path_command)
      ≡ some (with_path, respond [] swo_success))
    × (receive_over stand_in stand_in_crypto tlv_stand_in with_path (some sample_command)
        ≡ some (with_review, review (review_of sample)))
    × (receive_over stand_in stand_in_crypto tlv_stand_in with_review (some path_command)
        ≡ some (with_other, respond [] swo_success))
    × (with_path.screen ≡ begin_device.screen)
    × (with_review.screen ≡ transaction_review (review_of sample))
    × (with_other.screen ≡ transaction_review (review_of sample))
unfolding receive_over start apdu_dispatcher run_instruction sign handler_sign_tx
    init_transaction_context accumulate_transaction_data continue_sign finish_sign
    process_transaction hash_parsed transaction_deserialize stand_in stand_in_crypto zero_bytes
    init_dynamic_token_storage parse fields challenge_field text_field read_text_field text_ok
    body_field attachment_field attachment read_path ui_display_transaction email_pairs
    attachment_pairs print_attachment decimal copy_field
done = (refl, refl, refl, refl, refl, refl)

path_bytes-AllBytes : AllBytes (1 ∷ 0 ∷ 0 ∷ 0 ∷ 44 ∷ [])
path_bytes-AllBytes = AllBytes-by (1 ∷ 0 ∷ 0 ∷ 0 ∷ 44 ∷ []) refl

start-MayArrive : MayArrive begin_device.screen (some path_command)
unfolding start
start-MayArrive = tt

path-MayArrive : MayArrive begin_device.screen (some sample_command)
unfolding start
path-MayArrive = tt

not_token : instruction path_command.ins ≢ sign_token_tx
not_token e = ground (arith, e)

over-MaySign_example :
    (g : Globals) × (digest : Bytes) × (review_choice stand_in stand_in_crypto tlv_stand_in
        with_other true
      ≡ some (
          device_of (
            g,
            signature_reply stand_in_crypto with_other.globals.context.bip32_path
                with_other.globals.context.bip32_path_len digest,
          )))
    × MaySign stand_in_crypto (review_of sample) digest
over-MaySign_example =
    over-MaySign stand_in stand_in_laws stand_in_crypto stand_in_hex stand_in_hash stand_in_sign
      tlv_stand_in tlv_stand_in_laws with_other (review_of sample)
      (goes
        (goes
          (goes begins
            (arrives (some path_command) start-MayArrive (refl, path_bytes-AllBytes) done.0))
          (arrives (some sample_command)
            (subst (λ s. MayArrive s (some sample_command)) (sym done.3) path-MayArrive)
            (refl, AllBytes-by sample_bytes refl) done.1))
        (arrives (some path_command)
          (subst (λ s. MayArrive s (some path_command)) (sym done.4) not_token)
          (refl, path_bytes-AllBytes) done.2))
      done.5

-- A device with the review of the sample on its screen.
abbrev shown_device : Device
shown_device = record {
  globals = record { context = sample_context; token = init_dynamic_token_storage tlv_stand_in };
  screen = transaction_review (review_of sample);
}

sample-short : length (encode sample) ≤ 255
sample-short = subst (λ bs. length bs ≤ 255) sample_bytes-encode (omega arith)

over-unshown_example :
    (d1 : Device) × (d2 : Device) × (d3 : Device) × (reply : Reply) × (receive_over stand_in
        stand_in_crypto tlv_stand_in shown_device
        (some (token_path (1 ∷ 0 ∷ 0 ∷ 0 ∷ 44 ∷ [])))
      ≡ some (d1, reply))
    × (receive_over stand_in stand_in_crypto tlv_stand_in d1 (some (token_payload (encode sample)))
        ≡ some (d2, send_sw swo_conditions_not_satisfied))
    × (d2.screen ≡ transaction_review (review_of sample))
    × (review_choice stand_in stand_in_crypto tlv_stand_in d2 true
        ≡ some (
          d3,
          signature_reply stand_in_crypto d2.globals.context.bip32_path
              d2.globals.context.bip32_path_len
              (stand_in_crypto.hash_sha256 (encode sample)).1,
        ))
over-unshown_example =
    over-unshown stand_in stand_in_laws stand_in_crypto stand_in_hex stand_in_hash stand_in_sign
      tlv_stand_in shown_device (review_of sample) (1 ∷ 0 ∷ 0 ∷ 0 ∷ 44 ∷ []) sample refl
      sample-IsValid (subst AllBytes sample_bytes-encode (AllBytes-by sample_bytes refl))
      sample-short
