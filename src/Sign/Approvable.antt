-- ===== src/Sign/Approvable.antt =====
-- What it takes for a context of src/handler/sign_tx.c to be shown to the user for signing.
use ledger_hardmail_app.Common.{◌≡◌, refl, true, false, arith, List, inl, inr, ◌⊎◌}
use ledger_hardmail_app.Sdk.Buffers.{IsBuffer}
use ledger_hardmail_app.Sdk.Crypto.{CryptoOps}
use ledger_hardmail_app.Email.{
  Status, parsing_ok, from_parsing_error, to_parsing_error, subject_parsing_error,
  body_parsing_error, field_encoding_error, challenge_parsing_error, wrong_length_error,
  attachment_parsing_error,
}
use ledger_hardmail_app.Wire.{Message, IsValid, encode}
use ledger_hardmail_app.Wire.Errors.{is_error}
use ledger_hardmail_app.Parser.{Parser}
use ledger_hardmail_app.Context.{
  Context, RequestType, confirm_address, confirm_transaction, confirm_token_transaction, is_request,
  state_parsed, Pair, Reply, review, send_sw, StatusWord,
}
use ledger_hardmail_app.Display.Review.{review_of}
use ledger_hardmail_app.Sign.{payload, payload_buffer, set_parsed, is_ok}
use ledger_hardmail_app.Sign.Chunks.{IsContext}

-- The review shows an allowed message in full, the payload received is that message byte for
-- byte, and the hash to be signed is the payload's.
pub record IsApprovable (crypto : CryptoOps) (c : Context) (pairs : List Pair) : Type 0 where
  pub message : Message
  pub valid : IsValid message
  pub received : payload c ≡ encode message
  pub shown : pairs ≡ review_of message
  pub digest : c.tx_info.m_hash ≡ (crypto.hash_sha256 (encode message)).1
  pub parsed : c.state ≡ state_parsed
  pub requested : c.req_type ≡ confirm_transaction

pub payload_buffer-IsBuffer : (c : Context) → IsContext c → IsBuffer (payload_buffer c)
payload_buffer-IsBuffer c h = record {
  in_memory = omega (arith, h.raw_size, h.raw_fits);
  in_buffer = omega arith;
}

pub not_ok : (e : Status) → is_error e ≡ true → is_ok e ≡ false
not_ok parsing_ok h = absurd (ground (arith, h))
not_ok from_parsing_error h = refl
not_ok to_parsing_error h = refl
not_ok subject_parsing_error h = refl
not_ok body_parsing_error h = refl
not_ok field_encoding_error h = refl
not_ok challenge_parsing_error h = refl
not_ok wrong_length_error h = refl
not_ok attachment_parsing_error h = refl

pub is_request-cases :
    (r : RequestType) → (r ≡ confirm_transaction) ⊎ (is_request r confirm_transaction ≡ false)
is_request-cases confirm_address = inr refl
is_request-cases confirm_transaction = inl refl
is_request-cases confirm_token_transaction = inr refl

-- What the last chunk comes to: an answer, or the review of an approvable context.
pub data Finished (crypto : CryptoOps) : Context × Reply → Type 0 where
  answered : {c : Context} {sw : StatusWord} → IsContext c → Finished crypto (c, send_sw sw)
  displayed :
      {c : Context} {pairs : List Pair}
      → IsContext c
      → IsApprovable crypto c pairs
      → Finished crypto (c, review pairs)

pub set_parsed-IsContext : (c : Context) (p : Parser) → IsContext c → IsContext (set_parsed c p)
set_parsed-IsContext c p h = record {
  raw_size = h.raw_size;
  raw_fits = h.raw_fits;
  raw_bytes = h.raw_bytes;
  signature_size = h.signature_size;
}
