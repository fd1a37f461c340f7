-- ===== src/Wire/Size.antt =====
-- How long the payload of an allowed message is, against MAX_TX_LEN of
-- src/transaction/tx_types.h.
use ledger_hardmail_app.Common.{
  ℕ, ◌+◌, ◌≤◌, ◌≡◌, none, some, arith, length, [], Option, length-append,
}
use ledger_hardmail_app.Wire.{
  Message, Attachment, IsValid, AttachmentOk, put_attachment, put_text, encode,
}
use ledger_hardmail_app.Sdk.Buffers.{Bytes}

attachment_size : Option Attachment → ℕ
attachment_size none = 1
attachment_size (some a) = 38 + length a.name

length-put_text : (s r : Bytes) → length (put_text s r) ≡ 1 + length s + length r
length-put_text s r = omega (arith, length-append s r)

length-put_attachment :
    (a : Option Attachment) (r : Bytes)
    → AttachmentOk a
    → length (put_attachment a r) ≡ attachment_size a + length r
unfolding attachment_size
length-put_attachment none r h = omega arith
length-put_attachment (some a) r h =
    omega (arith, length-append a.hash r, length-append a.name _, h.hash_len)

-- The size of a payload from the sizes of its fields.
length-encode :
    (m : Message)
    → IsValid m
    → length (encode m)
      ≡ 21
        + length m.from
        + length m.to
        + length m.subject
        + length m.body
        + attachment_size m.attachment
unfolding encode
length-encode m h = omega (
  arith,
  length-append m.challenge _,
  length-append m.from _,
  length-append m.to _,
  length-append m.subject _,
  length-append m.body _,
  length-put_attachment m.attachment [] h.attachment_ok,
  h.challenge_16,
)

-- A message with no attachment is at most 2526 bytes long.
pub length-encode_le : (m : Message) → IsValid m → m.attachment ≡ none → length (encode m) ≤ 2526
unfolding attachment_size
length-encode_le m h e =
    let one : attachment_size m.attachment ≡ 1 = rw e in omega (arith, length-encode m h, one)
