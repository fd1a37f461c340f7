-- ===== src/Serializer/RoundTrip.antt =====
-- src/transaction/serialize.c and src/transaction/deserialize.c, one after the other.
use ledger_hardmail_app.Common.{ℕ, ◌≤◌, ◌≡◌, refl, sym, ap, ◌∙◌, some, arith, length, take, pos}
use ledger_hardmail_app.Sdk.Buffers.{Bytes, Buffer, IsBuffer, rest, BufferOps, BufferLaws}
use ledger_hardmail_app.Email.{parsing_ok, Email, max_tx_len}
use ledger_hardmail_app.Wire.{AllBytes, IsValid, encode}
use ledger_hardmail_app.Parser.{Parser, transaction_deserialize}
use ledger_hardmail_app.Parser.View.{view, IsInMemory}
use ledger_hardmail_app.Parser.Primitives.{length-rest}
use ledger_hardmail_app.Parser.Correct.{
  transaction_deserialize-IsValid, transaction_deserialize-encode,
}
use ledger_hardmail_app.Parser.Widths.{view-IsWide}
use ledger_hardmail_app.Serializer.{transaction_serialize}
use ledger_hardmail_app.Serializer.Correct.{transaction_serialize-encode}

module _ (ops : BufferOps) (laws : BufferLaws ops) where
  -- Serializing a parsed payload gives the payload's bytes back, and its length, for every output
  -- array that is large enough.
  pub transaction_serialize-transaction_deserialize :
      (buf : Buffer) (tx : Email) (s : Parser) (out : Bytes)
      → IsBuffer buf
      → buf.offset ≡ 0
      → AllBytes (rest buf)
      → buf.size ≤ length out
      → transaction_deserialize ops buf tx ≡ some (parsing_ok, s)
      → (out' : Bytes) × (transaction_serialize buf.ptr s.tx out (length out)
          ≡ some (pos buf.size, out'))
        × (take buf.size out' ≡ rest buf)
  transaction_serialize-transaction_deserialize buf tx s out h z all room ok =
      let (bytes, valid, held, short) =
        transaction_deserialize-IsValid ops laws buf tx s h z all ok in
      let wide = view-IsWide buf.ptr s.tx held valid in
      let size : buf.size ≡ length (encode (view buf.ptr s.tx)) =
        rw (← bytes) (omega (arith, length-rest buf h)) in
      let (out', ran, start, _, _) =
        transaction_serialize-encode buf.ptr s.tx out held wide (omega arith) in
      (
        out',
        ran ∙ ap (λ n. some (pos n, out')) (sym size),
        ap (λ n. take n out') size ∙ start ∙ sym bytes,
      )

  -- Parsing what was serialized gives an email that stands for the same message, for every allowed
  -- message within the limit.
  pub transaction_deserialize-transaction_serialize :
      (mem : Bytes) (tx tx0 : Email) (out : Bytes)
      → IsInMemory mem tx
      → IsValid (view mem tx)
      → length (encode (view mem tx)) ≤ max_tx_len
      → length (encode (view mem tx)) ≤ length out
      → (n : ℕ) × (out' : Bytes) × (s : Parser) × (transaction_serialize mem tx out (length out)
          ≡ some (pos n, out'))
        × (transaction_deserialize ops (record { ptr = out'; size = n; offset = 0 }) tx0
            ≡ some (parsing_ok, s))
        × (view out' s.tx ≡ view mem tx)
  transaction_deserialize-transaction_serialize mem tx tx0 out h valid short room =
      let wide = view-IsWide mem tx h valid in
      let n = length (encode (view mem tx)) in
      let (out', ran, start, _, size) = transaction_serialize-encode mem tx out h wide room in
      let buf : Buffer = record { ptr = out'; size = n; offset = 0 } in
      let fits : IsBuffer buf = record { in_memory = omega arith; in_buffer = omega arith } in
      let (s, parsed, seen, _) =
        transaction_deserialize-encode ops laws buf tx0 (view mem tx) fits refl valid start short in
      (n, out', s, ran, parsed, seen)
