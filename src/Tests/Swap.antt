-- ===== src/Tests/Swap.antt =====
-- Witnesses for the swap.
use ledger_hardmail_app.Common.{
  ℕ, ◌+◌, ◌*◌, ◌≡◌, ◌≤◌, ◌↔◌, arith, refl, true, false, [], ◌∷◌, ◌++◌, none, some, ltb,
  if◌then◌else◌, take, replicate, slice,
}
use ledger_hardmail_app.Machine.{path_read}
use ledger_hardmail_app.Sdk.Buffers.{Bytes}
use ledger_hardmail_app.Sdk.StandIn.{stand_in}
use ledger_hardmail_app.Sdk.CryptoStandIn.{stand_in_crypto, stand_in_hex}
use ledger_hardmail_app.Email.{at, Email}
use ledger_hardmail_app.Context.{zero_context, zero_bytes, respond, swo_success}
use ledger_hardmail_app.Display.{codes}
use ledger_hardmail_app.Tokens.{TokenInfo, init_dynamic_token_storage}
use ledger_hardmail_app.Tokens.StandIn.{tlv_stand_in}
use ledger_hardmail_app.Dispatcher.{Globals}
use ledger_hardmail_app.Swap.{
  check_values, sign_if_matches, token_mismatch, double_signing, signed, finish_swap,
  check_and_sign_swap_tx, SwapOps, SwapGlobals, matches, swap_check_validity,
}
use ledger_hardmail_app.Swap.Copy.{
  CreateParameters, no_validated, coin_of, parameters_of, swap_copy_transaction_parameters,
}
use ledger_hardmail_app.Swap.Announced.{Promised}
use ledger_hardmail_app.Swap.Promise.{swap_check_validity-Promised}
use ledger_hardmail_app.Sign.{process_transaction, hash_parsed}
use ledger_hardmail_app.Parser.{
  transaction_deserialize, parse, fields, challenge_field, text_field, read_text_field, text_ok,
  body_field, attachment_field, attachment,
}
use ledger_hardmail_app.Validate.{
  crypto_sign_message, helper_send_response_sig, validate_transaction,
}
use ledger_hardmail_app.Swap.Signed.{finish_swap-once}
use ledger_hardmail_app.Address.{address_from_pubkey}
use ledger_hardmail_app.Swap.CheckAddress.{
  CheckParameters, check_address, swap_handle_check_address, IsOwnedBy,
  swap_handle_check_address-IsOwnedBy,
}
use ledger_hardmail_app.Swap.Amount.{swap_handle_get_printable_amount}
use ledger_hardmail_app.Swap.Printed.{asked_amount, asked_fee, printed_text, copied-printed}
use ledger_hardmail_app.Tests.{result_or, sample_context}

big_endian : ℕ → Bytes → ℕ
big_endian n [] = n
big_endian n (b ∷ bs) = big_endian (n * 256 + b) bs

unfoldable swap_stand_in : SwapOps
unfolding big_endian
swap_stand_in = record {
  max_ticker_size = 16;
  parse_config = λ config n size. none;
  str_to_u64 = λ text n. if ltb 8 n then none else some (big_endian 0 (take n text));
  format_fpu64 = λ size amount decimals. codes "1.5" ++ 0 ∷ [];
  max_printable_amount_size = 50;
  get_pubkey_256k1 = λ path n. (0, replicate 65 4, replicate 32 7);
}

-- The first 20 bytes at the sample's recipient, in lower case.
abbrev announced_parameters : CreateParameters
announced_parameters = record {
  coin_configuration = none;
  coin_configuration_length = 0;
  amount = some (1 ∷ 2 ∷ []);
  amount_length = 2;
  fee_amount = 7 ∷ [];
  fee_amount_length = 1;
  destination_address = some (codes "6440652e660248690003590a5a0105662e747874" ++ 0 ∷ []);
}

abbrev before_swap : SwapGlobals
before_swap = record {
  validated = no_validated swap_stand_in;
  response_ready = false;
  globals = record { context = zero_context; token = init_dynamic_token_storage tlv_stand_in };
}

abbrev announced_swap : SwapGlobals
announced_swap =
    (swap_copy_transaction_parameters swap_stand_in tlv_stand_in before_swap announced_parameters).1

accepted :
    swap_copy_transaction_parameters swap_stand_in tlv_stand_in before_swap announced_parameters
    ≡ (true, announced_swap)
unfolding swap_copy_transaction_parameters parameters_of swap_stand_in coin_of
accepted = refl

abbrev swap_globals : Globals
swap_globals = record { context = sample_context; token = init_dynamic_token_storage tlv_stand_in }

abbrev own_coin : TokenInfo
own_coin = record { ticker = codes "BOL"; decimals = 3 }

swap_check_validity-Promised_example :
    (swap_check_validity stand_in_crypto
        (record announced_swap { response_ready = true; globals = swap_globals })
        258
        7
        (at 23)
        own_coin
      ≡ some matches)
    ↔ Promised swap_stand_in announced_parameters false 258 7
        (slice sample_context.tx_info.raw_tx 23 20)
        own_coin
unfolding zero_bytes
swap_check_validity-Promised_example =
    swap_check_validity-Promised stand_in_crypto stand_in_hex swap_stand_in tlv_stand_in
      announced_parameters before_swap announced_swap true swap_globals 258 7 (at 23)
      (slice sample_context.tx_info.raw_tx 23 20) own_coin accepted refl

abbrev after_swap : SwapGlobals
after_swap =
    (result_or (announced_swap, double_signing)
      (finish_swap stand_in_crypto stand_in (record announced_swap { globals = swap_globals }) 258 7
        own_coin)).0

runs :
    finish_swap stand_in_crypto stand_in
      (record announced_swap { globals = swap_globals })
      258
      7
      own_coin
    ≡ some (after_swap, signed (respond (64 ∷ (replicate 64 0 ++ 0 ∷ [])) swo_success))
unfolding finish_swap process_transaction hash_parsed transaction_deserialize stand_in
    stand_in_crypto check_and_sign_swap_tx swap_stand_in zero_bytes big_endian
    init_dynamic_token_storage parse fields challenge_field text_field read_text_field text_ok
    body_field attachment_field attachment check_values sign_if_matches swap_check_validity
    token_mismatch swap_copy_transaction_parameters parameters_of coin_of crypto_sign_message
    helper_send_response_sig validate_transaction
runs = refl

finish_swap-once_example : ¬ (
    finish_swap stand_in_crypto stand_in
      (record after_swap { globals = swap_globals })
      258
      7
      own_coin
    ≡ some (after_swap, signed (respond (64 ∷ (replicate 64 0 ++ 0 ∷ [])) swo_success)))
finish_swap-once_example =
    finish_swap-once stand_in stand_in_crypto (record announced_swap { globals = swap_globals })
      after_swap after_swap swap_globals 258 258 7 7 own_coin own_coin
      (respond (64 ∷ (replicate 64 0 ++ 0 ∷ [])) swo_success)
      (respond (64 ∷ (replicate 64 0 ++ 0 ∷ [])) swo_success) runs

-- A path of one element, and the address of the stand-in's key.
abbrev path_bytes : Bytes
path_bytes = 1 ∷ 0x80 ∷ 0 ∷ 0 ∷ 44 ∷ []

abbrev checked_text : Bytes
checked_text = codes "4040404040404040404040404040404040404040" ++ 0 ∷ []

-- The path and the address, given.
abbrev check_parameters : CheckParameters
check_parameters = record {
  address_parameters = some path_bytes;
  address_parameters_length = 5;
  address_to_check = some checked_text;
}

path_given :
    path_read stand_in (record { ptr = path_bytes; size = 5; offset = 0 })
    ≡ (true, 1, 0x8000002c ∷ [])
unfolding stand_in
path_given = refl

swap_handle_check_address-IsOwnedBy_example :
    (swap_handle_check_address stand_in stand_in_crypto swap_stand_in check_parameters ≡ true)
    ↔ IsOwnedBy stand_in_crypto swap_stand_in (0x8000002c ∷ []) 1 (some checked_text)
swap_handle_check_address-IsOwnedBy_example =
    swap_handle_check_address-IsOwnedBy stand_in stand_in_crypto stand_in_hex swap_stand_in
      check_parameters path_bytes 1 (0x8000002c ∷ []) refl path_given

checks : swap_handle_check_address stand_in stand_in_crypto swap_stand_in check_parameters ≡ true
unfolding swap_handle_check_address check_address stand_in stand_in_crypto swap_stand_in
    address_from_pubkey
checks = refl

ticker_room : 4 ≤ swap_stand_in.max_ticker_size
unfolding swap_stand_in
ticker_room = omega arith

copied-printed_example :
    (swap_handle_get_printable_amount swap_stand_in (asked_amount announced_parameters (1 ∷ 2 ∷ []))
      ≡ printed_text swap_stand_in announced_swap.validated.amount announced_swap.validated.decimals
          announced_swap.validated.ticker)
    × (swap_handle_get_printable_amount swap_stand_in (asked_fee announced_parameters)
        ≡ printed_text swap_stand_in announced_swap.validated.fee 3 (codes "BOL"))
copied-printed_example =
    copied-printed swap_stand_in ticker_room tlv_stand_in announced_parameters (1 ∷ 2 ∷ [])
      before_swap announced_swap refl accepted
