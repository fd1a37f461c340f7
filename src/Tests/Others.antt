-- ===== src/Tests/Others.antt =====
-- Witnesses for the dispatcher, the address, the tokens and the memo helpers.
use ledger_hardmail_app.Common.{
  ◌≡◌, refl, false, some, none, arith, [], ◌∷◌, replicate, inr, if◌then◌else◌,
}
use ledger_hardmail_app.Sdk.Buffers.{Bytes}
use ledger_hardmail_app.Sdk.StandIn.{stand_in, stand_in_laws}
use ledger_hardmail_app.Sdk.CryptoStandIn.{
  stand_in_crypto, stand_in_hex, stand_in_hash, stand_in_key,
}
use ledger_hardmail_app.Context.{
  zero_context, confirm_address, state_none, StatusWord, send_sw, swo_wrong_data_length,
}
use ledger_hardmail_app.Display.{codes}
use ledger_hardmail_app.Address.{handler_get_public_key, read_path}
use ledger_hardmail_app.Address.Keys.{key_answer, handler_get_public_key-key_answer}
use ledger_hardmail_app.Tokens.{
  DynamicTokenInfo, handler_provide_token_info, set_token_info, get_token_info,
  init_dynamic_token_storage, find_token,
}
use ledger_hardmail_app.Tokens.Lookup.{
  Stored, handler_provide_token_info-Stored, set_token_info-get_token_info,
  get_token_info-find_token, all_tokens,
}
use ledger_hardmail_app.Tokens.StandIn.{tlv_stand_in, tlv_stand_in_laws}
use ledger_hardmail_app.Dispatcher.{Command, Globals, apdu_dispatcher, sign_tx}
use ledger_hardmail_app.Dispatcher.Answers.{Answered, apdu_dispatcher-Answered}
use ledger_hardmail_app.Dispatcher.Errors.{no_data, apdu_dispatcher-refuses}
use ledger_hardmail_app.Tests.{sample_context, sample_context-IsContext, buffer_on, AllBytes-by}

abbrev globals : Globals
globals = record { context = sample_context; token = init_dynamic_token_storage tlv_stand_in }

abbrev bare_command : Command
bare_command = record { cla = 0xe0; ins = 6; p1 = 1; p2 = 0; lc = 0; payload = none }

apdu_dispatcher-refuses_example :
    apdu_dispatcher stand_in stand_in_crypto tlv_stand_in globals bare_command
    ≡ some (globals, send_sw swo_wrong_data_length)
apdu_dispatcher-refuses_example =
    apdu_dispatcher-refuses stand_in stand_in_crypto tlv_stand_in globals bare_command
      swo_wrong_data_length
      (no_data sign_tx refl refl refl (omega arith, inr (refl, omega arith)) refl)

abbrev chunk_command : Command
chunk_command = record {
  cla = 0xe0;
  ins = 6;
  p1 = 1;
  p2 = 0x80;
  lc = 2;
  payload = some (1 ∷ 2 ∷ []);
}

apdu_dispatcher-Answered_example :
    Answered stand_in_crypto
      (apdu_dispatcher stand_in stand_in_crypto tlv_stand_in globals chunk_command)
apdu_dispatcher-Answered_example =
    apdu_dispatcher-Answered stand_in stand_in_laws stand_in_crypto stand_in_hex stand_in_hash
      tlv_stand_in tlv_stand_in_laws globals chunk_command sample_context-IsContext
      (refl, AllBytes-by (1 ∷ 2 ∷ []) refl)

abbrev address_bytes : Bytes
address_bytes = replicate 32 0xcd

handler_provide_token_info-Stored_example :
    (r : DynamicTokenInfo × StatusWord) × (handler_provide_token_info tlv_stand_in
        (buffer_on address_bytes)
      ≡ some r)
    × Stored tlv_stand_in r
handler_provide_token_info-Stored_example =
    handler_provide_token_info-Stored tlv_stand_in tlv_stand_in_laws (buffer_on address_bytes)

set_token_info-get_token_info_example :
    (stored : DynamicTokenInfo) × (set_token_info tlv_stand_in 6
        (codes "TOK")
        (buffer_on address_bytes)
      ≡ some stored)
    × (get_token_info stored address_bytes ≡ some (record { ticker = codes "TOK"; decimals = 6 }))
unfolding tlv_stand_in
set_token_info-get_token_info_example =
    set_token_info-get_token_info tlv_stand_in 6 (codes "TOK") (buffer_on address_bytes)
      (omega arith)

get_token_info-find_token_example :
    get_token_info (init_dynamic_token_storage tlv_stand_in) address_bytes
    ≡ find_token (all_tokens (init_dynamic_token_storage tlv_stand_in)) address_bytes
get_token_info-find_token_example =
    get_token_info-find_token (init_dynamic_token_storage tlv_stand_in) address_bytes

-- A path of one element.
abbrev path_bytes : Bytes
path_bytes = 1 ∷ 0x80 ∷ 0 ∷ 0 ∷ 44 ∷ []

handler_get_public_key-key_answer_example :
    let (ok, c) =
      read_path stand_in
        (buffer_on path_bytes)
        (record zero_context { req_type = confirm_address; state = state_none }) in
    (handler_get_public_key stand_in_crypto stand_in (buffer_on path_bytes) false).1 ≡ (
      if ok
      then key_answer stand_in_crypto c.bip32_path c.bip32_path_len
      else send_sw swo_wrong_data_length)
handler_get_public_key-key_answer_example =
    handler_get_public_key-key_answer stand_in_crypto stand_in_key stand_in (buffer_on path_bytes)
