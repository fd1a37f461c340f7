-- ===== src/Serializer/Outcome.antt =====
-- Both outcomes of `transaction_serialize` of src/transaction/serialize.c.
use ledger_hardmail_app.Common.{
  ℤ, pos, negsuc, ◌≤◌, ◌<◌, ◌≡◌, some, length, ltb, take, drop, Bool-cases, inl, inr, ltb→lt,
  ltb→le,
}
use ledger_hardmail_app.Sdk.Buffers.{Bytes}
use ledger_hardmail_app.Email.{Email}
use ledger_hardmail_app.Wire.{encode}
use ledger_hardmail_app.Parser.Widths.{IsWide}
use ledger_hardmail_app.Parser.View.{view, IsInMemory}
use ledger_hardmail_app.Serializer.{transaction_serialize}
use ledger_hardmail_app.Serializer.Correct.{
  transaction_serialize-encode, transaction_serialize_short,
}

-- The result and the output array, for these bytes and the array before.
pub data Written (bytes out : Bytes) : ℤ × Bytes → Type 0 where
  whole :
      {out' : Bytes}
      → length bytes ≤ length out
      → take (length bytes) out' ≡ bytes
      → drop (length bytes) out' ≡ drop (length bytes) out
      → length out' ≡ length out
      → Written bytes out (pos (length bytes), out')
  no_room : {out' : Bytes} → length out < length bytes → Written bytes out (negsuc 0, out')

-- Into any output array: one that is large enough gets the encoding of the message that the email
-- stands for at its start, nothing else of it changes, and the result is the encoding's length; with
-- a smaller one the result is -1. Nothing is read outside of the memory of the email's fields.
pub transaction_serialize-Written :
    (mem : Bytes) (tx : Email) (out : Bytes)
    → IsInMemory mem tx
    → IsWide tx
    → (r : ℤ × Bytes) × (transaction_serialize mem tx out (length out) ≡ some r)
      × Written (encode (view mem tx)) out r
transaction_serialize-Written mem tx out h wide =
    elim (Bool-cases (ltb (length out) (length (encode (view mem tx))))) [
      | inl e ↦
          let short = ltb→lt _ _ e in
          let (out', ran) = transaction_serialize_short mem tx out h wide short in
          ((negsuc 0, out'), ran, no_room short)
      | inr e ↦
          let fits = ltb→le _ _ e in
          let (out', ran, start, rest, size) =
            transaction_serialize-encode mem tx out h wide fits in
          ((pos (length (encode (view mem tx))), out'), ran, whole fits start rest size)
    ]
