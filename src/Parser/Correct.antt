-- ===== src/Parser/Correct.antt =====
-- What `transaction_deserialize` of src/transaction/deserialize.c promises of a payload, in terms of
-- the wire format.
use ledger_hardmail_app.Common.{
  ◌≤◌, ◌≡◌, refl, ap, ◌∙◌, some, none, arith, length, [], inl, inr, ◌⊎◌,
}
use ledger_hardmail_app.Sdk.Buffers.{Bytes, Buffer, IsBuffer, rest, BufferOps, BufferLaws}
use ledger_hardmail_app.Email.{Status, parsing_ok, Email, max_tx_len}
use ledger_hardmail_app.Wire.{Message, AllBytes, IsValid, encode}
use ledger_hardmail_app.Wire.Reference.{Verdict, accept, refuse, reference}
use ledger_hardmail_app.Wire.Errors.{reference-refuse}
use ledger_hardmail_app.Wire.Sound.{reference-accept}
use ledger_hardmail_app.Wire.Complete.{reference-encode}
use ledger_hardmail_app.Wire.Size.{length-encode_le}
use ledger_hardmail_app.Parser.{Parser, transaction_deserialize}
use ledger_hardmail_app.Parser.View.{view, IsInMemory}
use ledger_hardmail_app.Parser.Refinement.{
  status_of, Shows, Stands, transaction_deserialize-reference,
}
use ledger_hardmail_app.Parser.Primitives.{length-rest}

pub Verdict-cases :
    {A : Type 0} (v : Verdict A)
    → ((a : A) × (r : Bytes) × (v ≡ accept a r)) ⊎ ((e : Status) × (v ≡ refuse e))
Verdict-cases (accept a r) = inl (a, r, refl)
Verdict-cases (refuse e) = inr (e, refl)

-- Success means that the reference parser accepts.
accepted :
    (bs : Bytes)
    → status_of (reference bs) ≡ parsing_ok
    → (m : Message) × (r : Bytes) × (reference bs ≡ accept m r)
accepted bs h = elim (Verdict-cases (reference bs)) [
  | inl found ↦ found
  | inr (e, q) ↦ absurd (ground (arith, reference-refuse bs q, q, h))
]

Stands-of_Shows :
    (buf : Buffer) (m : Message) (r : Bytes) (s' s : Parser)
    → reference (rest buf) ≡ accept m r
    → s' ≡ s
    → Shows buf.ptr (reference (rest buf)) s'.tx
    → Stands buf.ptr s.tx m
Stands-of_Shows buf m r s' s e same shows = rw (← same) (rw e at shows)

module _ (ops : BufferOps) (laws : BufferLaws ops) where
  returned_once :
      (buf : Buffer) (tx : Email) (s s' : Parser) (e e' : Status)
      → transaction_deserialize ops buf tx ≡ some (e, s)
      → transaction_deserialize ops buf tx ≡ some (e', s')
      → (e ≡ e') × (s ≡ s')
  returned_once buf tx s s' e e' p q = ground (arith, p, q)

  -- A payload of bytes that is parsed successfully is, byte for byte, the encoding of the message
  -- that the email's pointers and lengths stand for; that message is allowed (16 challenge bytes,
  -- text fields that are not empty, within their bounds and printable, at most one attachment),
  -- every pointer lies in the payload's memory, and the payload is within the limit.
  pub transaction_deserialize-IsValid :
      (buf : Buffer) (tx : Email) (s : Parser)
      → IsBuffer buf
      → buf.offset ≡ 0
      → AllBytes (rest buf)
      → transaction_deserialize ops buf tx ≡ some (parsing_ok, s)
      → (rest buf ≡ encode (view buf.ptr s.tx))
        × IsValid (view buf.ptr s.tx)
        × IsInMemory buf.ptr s.tx
        × (buf.size ≤ max_tx_len)
  transaction_deserialize-IsValid buf tx s h z all ok =
      let (s', ran, shows) = transaction_deserialize-reference ops laws buf tx h z in
      let (status, same) = returned_once buf tx s' s _ _ ran ok in
      let (m, r, e) = accepted (rest buf) status in
      let (seen, held) = Stands-of_Shows buf m r s' s e same shows in
      let (bytes, valid, short) = reference-accept (rest buf) all e in
      rw seen (bytes, valid, held, omega (arith, length-rest buf h))

  -- Every allowed message whose encoding is within the limit is parsed successfully, into an
  -- email whose pointers and lengths stand for that message and lie in the payload's memory.
  pub transaction_deserialize-encode :
      (buf : Buffer) (tx : Email) (m : Message)
      → IsBuffer buf
      → buf.offset ≡ 0
      → IsValid m
      → rest buf ≡ encode m
      → length (encode m) ≤ max_tx_len
      → (s : Parser) × (transaction_deserialize ops buf tx ≡ some (parsing_ok, s))
        × (view buf.ptr s.tx ≡ m)
        × IsInMemory buf.ptr s.tx
  transaction_deserialize-encode buf tx m h z valid written short =
      let (s, ran, shows) = transaction_deserialize-reference ops laws buf tx h z in
      let e : reference (rest buf) ≡ accept m [] = rw written (reference-encode m valid short) in
      let (seen, held) = Stands-of_Shows buf m [] s s e refl shows in
      (s, ran ∙ ap (λ v. some (status_of v, s)) e, seen, held)

  -- An allowed message with no attachment is never too long: it is parsed successfully, and read
  -- back.
  pub transaction_deserialize-no_attachment :
      (buf : Buffer) (tx : Email) (m : Message)
      → IsBuffer buf
      → buf.offset ≡ 0
      → IsValid m
      → m.attachment ≡ none
      → rest buf ≡ encode m
      → (s : Parser) × (transaction_deserialize ops buf tx ≡ some (parsing_ok, s))
        × (view buf.ptr s.tx ≡ m)
  transaction_deserialize-no_attachment buf tx m h z valid bare written =
      let fits = length-encode_le m valid bare in
      let (s, ran, seen, held) =
        transaction_deserialize-encode buf tx m h z valid written (omega (arith, fits)) in
      (s, ran, seen)
