-- ===== src/Tests/Signing.antt =====
-- Witnesses for the signing handler, the review and the user's choice.
use ledger_hardmail_app.Common.{◌≡◌, refl, true, some, arith, [], ◌∷◌, replicate}
use ledger_hardmail_app.Sdk.Buffers.{Bytes}
use ledger_hardmail_app.Sdk.StandIn.{stand_in, stand_in_laws}
use ledger_hardmail_app.Sdk.CryptoStandIn.{
  stand_in_crypto, stand_in_hex, stand_in_hash, stand_in_sign,
}
use ledger_hardmail_app.Email.{challenge_parsing_error}
use ledger_hardmail_app.Wire.Reference.{reference, refuse, bytes, message}
use ledger_hardmail_app.Parser.View.{view}
use ledger_hardmail_app.Context.{
  Context, send_sw, swo_incorrect_data, confirm_transaction, confirm_token_transaction, state_none,
}
use ledger_hardmail_app.Display.{shown, email_pairs}
use ledger_hardmail_app.Display.Review.{review_of, email_pairs-review_of}
use ledger_hardmail_app.Display.Injective.{review_of-injective}
use ledger_hardmail_app.Sign.{payload, accumulate_transaction_data, finish_sign}
use ledger_hardmail_app.Sign.Chunks.{
  IsContext, IsContext-tx_info, Received, accumulate_transaction_data-Received,
}
use ledger_hardmail_app.Sign.Process.{
  finish_sign-refuse, finish_sign_other, other_status, other_state,
}
use ledger_hardmail_app.Validate.{validate_transaction}
use ledger_hardmail_app.Validate.Choice.{choice_reply, choice_state, validate_transaction_lem}
use ledger_hardmail_app.Tests.{
  sample, sample-IsValid, sample_bytes, buffer_on, buffer_on-IsBuffer, AllBytes-by, sample_email,
  sample_context, sample_context-IsContext, sample_email-IsInMemory,
}

email_pairs-review_of_example :
    email_pairs stand_in_crypto sample_bytes sample_email ≡ some (shown (review_of sample))
email_pairs-review_of_example =
    email_pairs-review_of stand_in_crypto stand_in_hex sample_bytes sample_email
      sample_email-IsInMemory sample-IsValid

review_of-injective_example : sample ≡ view sample_bytes sample_email
review_of-injective_example =
    review_of-injective sample (view sample_bytes sample_email) sample-IsValid sample-IsValid
      (AllBytes-by sample.challenge refl, AllBytes-by (replicate 32 0xab) refl)
      (AllBytes-by sample.challenge refl, AllBytes-by (replicate 32 0xab) refl) refl

-- A context with a full array.
abbrev full_context : Context
full_context = record sample_context {
  tx_info = record (sample_context.tx_info) { raw_tx_len = 2599 };
}

-- A context with three bytes received, which are no message.
abbrev short_context : Context
short_context = record sample_context {
  tx_info = record (sample_context.tx_info) { raw_tx_len = 3 };
}

short_context-IsContext : IsContext short_context
short_context-IsContext = record {
  raw_size = sample_context-IsContext.raw_size;
  raw_fits = omega arith;
  raw_bytes = AllBytes-by (0x5a ∷ 0x5a ∷ 0x5a ∷ []) refl;
  signature_size = sample_context-IsContext.signature_size;
}

short-refuse : reference (payload short_context) ≡ refuse challenge_parsing_error
unfolding reference message bytes
short-refuse = refl

finish_sign-refuse_example :
    (c : Context) × (finish_sign stand_in stand_in_crypto short_context
      ≡ some (c, send_sw swo_incorrect_data))
    × (c.state ≡ state_none)
    × (payload c ≡ payload short_context)
finish_sign-refuse_example =
    finish_sign-refuse stand_in stand_in_laws stand_in_crypto stand_in_hex stand_in_hash
      short_context challenge_parsing_error short_context-IsContext short-refuse

abbrev token_context : Context
token_context = record sample_context { req_type = confirm_token_transaction }

token_context-IsContext : IsContext token_context
token_context-IsContext =
    IsContext-tx_info sample_context token_context refl sample_context-IsContext

finish_sign_other_example :
    (c : Context) × (finish_sign stand_in stand_in_crypto token_context
      ≡ some (c, send_sw (other_status (reference (payload token_context)))))
    × (c.state ≡ other_state token_context.state (reference (payload token_context)))
    × (payload c ≡ payload token_context)
finish_sign_other_example =
    finish_sign_other stand_in stand_in_laws stand_in_crypto stand_in_hex stand_in_hash
      token_context token_context-IsContext refl

-- A path of one component.
abbrev path_bytes : Bytes
path_bytes = 1 ∷ 0x80 ∷ 0 ∷ 0 ∷ 0x2c ∷ []

accumulate_transaction_data-Received_example :
    Received confirm_transaction (buffer_on (1 ∷ 2 ∷ [])) sample_context (
      accumulate_transaction_data stand_in
        (buffer_on (1 ∷ 2 ∷ []))
        confirm_transaction
        sample_context)
accumulate_transaction_data-Received_example =
    accumulate_transaction_data-Received stand_in stand_in_laws (buffer_on (1 ∷ 2 ∷ []))
      confirm_transaction sample_context sample_context-IsContext (buffer_on-IsBuffer (1 ∷ 2 ∷ []))
      refl (AllBytes-by (1 ∷ 2 ∷ []) refl)

validate_transaction_lem_example :
    (c : Context) × (validate_transaction stand_in_crypto true sample_context
      ≡ some (c, choice_reply stand_in_crypto true sample_context))
    × (c.state ≡ choice_state stand_in_crypto true sample_context)
    × (payload c ≡ payload sample_context)
    × IsContext c
validate_transaction_lem_example =
    validate_transaction_lem stand_in_crypto stand_in_sign true sample_context
      sample_context-IsContext
