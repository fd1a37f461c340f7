-- ===== src/Wire/Complete.antt =====
-- The reference parser reads back every message that the format allows.
use ledger_hardmail_app.Common.{
  ℕ, ◌^◌, ◌≤◌, ◌<◌, ◌≡◌, refl, sym, ap, true, false, [], ◌++◌, Option, none, some, arith, length,
  take-append, drop-append, length-append,
}
use ledger_hardmail_app.Sdk.Buffers.{Bytes}
use ledger_hardmail_app.Email.{
  Status, body_parsing_error, attachment_parsing_error, challenge_parsing_error, from_parsing_error,
  to_parsing_error, subject_parsing_error, max_from_len, max_to_len, max_subject_len, max_tx_len,
  challenge_len, max_body_len, max_att_name_len, att_hash_len,
}
use ledger_hardmail_app.Wire.{
  Attachment, Message, IsText, AttachmentOk, IsValid, u16, u32, put_text, put_attachment,
  put_message, encode,
}
use ledger_hardmail_app.Wire.Reference.{
  accept, bytes, u8, u16_be, u32_be, text, body, one_attachment, attachment, message, reference,
}

bytes-append :
    (n : ℕ) (e : Status) (cs r : Bytes) → length cs ≡ n → bytes n e (cs ++ r) ≡ accept cs r
unfolding bytes
bytes-append n e cs r h =
    ground (arith, take-append n cs r (sym h), drop-append n cs r (sym h), length-append cs r)

u16_be-u16 : (e : Status) (n : ℕ) (r : Bytes) → u16_be e (u16 n r) ≡ accept n r
unfolding u16_be
u16_be-u16 e n r = ap (λ k. accept k r) (omega arith)

u32_be-u32 : (e : Status) (n : ℕ) (r : Bytes) → n < 2 ^ 32 → u32_be e (u32 n r) ≡ accept n r
unfolding u32_be
u32_be-u32 e n r h = ap (λ k. accept k r) (omega arith)

text-put_text :
    (bound : ℕ) (e : Status) (cs r : Bytes)
    → IsText false bound cs
    → text bound e (put_text cs r) ≡ accept cs r
unfolding text u8
text-put_text bound e cs r h = ground (arith, bytes-append (length cs) e cs r refl)

body-put :
    (cs r : Bytes) → IsText true max_body_len cs → body (u16 (length cs) (cs ++ r)) ≡ accept cs r
unfolding body
body-put cs r h = ground (
  arith,
  u16_be-u16 body_parsing_error (length cs) (cs ++ r),
  bytes-append (length cs) body_parsing_error cs r refl,
)

attachment-put :
    (a : Option Attachment) (r : Bytes)
    → AttachmentOk a
    → attachment (put_attachment a r) ≡ accept a r
unfolding attachment one_attachment u8
attachment-put none r h = refl
attachment-put (some a) r h = ground (
  arith,
  text-put_text max_att_name_len attachment_parsing_error a.name (u32 a.size (a.hash ++ r))
      h.name_text,
  u32_be-u32 attachment_parsing_error a.size (a.hash ++ r) h.size_u32,
  bytes-append att_hash_len attachment_parsing_error a.hash r h.hash_len,
)

message-put_message : (m : Message) (r : Bytes) → IsValid m → message (put_message m r) ≡ accept m r
unfolding message
message-put_message m r h =
    let r6 = put_attachment m.attachment r in
    let r5 = u16 (length m.body) (m.body ++ r6) in
    let r4 = put_text m.subject r5 in
    let r3 = put_text m.to r4 in
    let r2 = put_text m.from r3 in
    ground (
      arith,
      bytes-append challenge_len challenge_parsing_error m.challenge r2 h.challenge_16,
      text-put_text max_from_len from_parsing_error m.from r3 h.from_text,
      text-put_text max_to_len to_parsing_error m.to r4 h.to_text,
      text-put_text max_subject_len subject_parsing_error m.subject r5 h.subject_text,
      body-put m.body r6 h.body_text,
      attachment-put m.attachment r h.attachment_ok,
    )

-- Every allowed message that is not longer than the limit is accepted, and read back.
pub reference-encode :
    (m : Message) → IsValid m → length (encode m) ≤ max_tx_len → reference (encode m) ≡ accept m []
unfolding reference encode
reference-encode m h short = ground (arith, message-put_message m [] h)
