-- ===== src/Parser/Refinement.antt =====
-- The whole of `transaction_deserialize` in src/transaction/deserialize.c against the reference
-- parser: the same verdict on every payload.
use ledger_hardmail_app.Common.{◌≡◌, refl, ◌∙◌, not, some, [], ◌∷◌, arith, length, ltb, ◌==◌}
use ledger_hardmail_app.Sdk.Buffers.{Bytes, Buffer, IsBuffer, rest, BufferOps, BufferLaws}
use ledger_hardmail_app.Email.{
  Status, parsing_ok, challenge_parsing_error, from_parsing_error, to_parsing_error,
  subject_parsing_error, wrong_length_error, at, Email, challenge_len, max_from_len, max_to_len,
  max_subject_len, max_tx_len,
}
use ledger_hardmail_app.Wire.{Message}
use ledger_hardmail_app.Wire.Reference.{
  message, reference, is_nil, require as require', Verdict, accept, refuse,
}
use ledger_hardmail_app.Parser.{
  Parser, Outcome, require, challenge_field, fields, parse, from_of, put_from, to_of, put_to,
  subject_of, put_subject, transaction_deserialize, returned,
}
use ledger_hardmail_app.Parser.View.{view, IsInMemory, InMemory-at}
use ledger_hardmail_app.Parser.Agrees.{Agrees, both, neither, Agrees-pure, >>=-Agrees}
use ledger_hardmail_app.Parser.Primitives.{seek_or-Agrees, require-Agrees, length-rest}
use ledger_hardmail_app.Parser.Fields.{text_field-Agrees, body_field-Agrees}
use ledger_hardmail_app.Parser.Attachments.{attachment_field-Agrees}

-- The email that was read stands for `m`, and `r` is left.
record Reads (s : Parser) (u : Unit {0}) (s' : Parser) (m : Message) (r : Bytes) : Type 0 where
  size_same : s'.buf.size ≡ s.buf.size
  fits : IsBuffer s'.buf
  left : rest s'.buf ≡ r
  stands_for : view s.buf.ptr s'.tx ≡ m
  in_memory : IsInMemory s.buf.ptr s'.tx

-- The email stands for the message, by pointers into the memory.
abbrev pub Stands : Bytes → Email → Message → Type 0
Stands mem tx m = (view mem tx ≡ m) × IsInMemory mem tx

abbrev Parsed : Bytes → Unit {0} → Parser → Message → Bytes → Type 0
Parsed mem _ s m _ = Stands mem s.tx m

end-Agrees :
    (mem : Bytes) (s : Parser) (m : Message) (r : Bytes)
    → (s.buf.offset == s.buf.size) ≡ is_nil r
    → Stands mem s.tx m
    → Agrees
        (Parsed mem)
        (require (s.buf.offset == s.buf.size) wrong_length_error s)
        (elim (require' (is_nil r) wrong_length_error r) [
          | accept _ r' ↦ accept m r'
          | refuse e ↦ refuse e
        ])
end-Agrees mem s m [] e v = rw e (both v)
end-Agrees mem s m (x ∷ r) e v = rw e neither

module _ (ops : BufferOps) (laws : BufferLaws ops) where
  fields-Agrees :
      (s : Parser) (bs : Bytes)
      → IsBuffer s.buf
      → rest s.buf ≡ bs
      → Agrees (Reads s) (fields ops s) (message bs)
  unfolding fields challenge_field message
  fields-Agrees s bs h q =
      let s0 : Parser = record s { tx = record s.tx { challenge = at s.buf.offset } } in
      >>=-Agrees (seek_or-Agrees ops laws challenge_parsing_error challenge_len s0 bs h q)
        λ _ s1 challenge r1 (h1, v1, i1).
          >>=-Agrees
            (text_field-Agrees ops laws from_of put_from max_from_len from_parsing_error s1 r1
              h1.fits h1.left)
            λ _ s2 from r2 (p2, h2, v2, i2).
              >>=-Agrees
                (text_field-Agrees ops laws to_of put_to max_to_len to_parsing_error s2 r2 h2.fits
                  h2.left)
                λ _ s3 to r3 (p3, h3, v3, i3).
                  >>=-Agrees
                    (text_field-Agrees ops laws subject_of put_subject max_subject_len
                      subject_parsing_error s3 r3 h3.fits h3.left)
                    λ _ s4 subject r4 (p4, h4, v4, i4).
                      >>=-Agrees (body_field-Agrees ops laws s4 r4 h4.fits h4.left)
                        λ _ s5 cs r5 (p5, h5, v5, i5).
                          Agrees-pure _ (attachment_field-Agrees ops laws s5 r5 h5.fits h5.left)
                            λ _ s6 a r6 (h6, v6, i6).
                              let f1 = h1.filled in
                              let f2 = h2.filled in
                              let f3 = h3.filled in
                              let f4 = h4.filled in
                              let f5 = h5.filled in
                              let f6 = h6.filled in
                              let e1 = h1.ptr_same in
                              let e2 = h2.ptr_same ∙ e1 in
                              let e3 = h3.ptr_same ∙ e2 in
                              let e4 = h4.ptr_same ∙ e3 in
                              let e5 = h5.ptr_same ∙ e4 in
                              record {
                                size_same =
                                    h6.size_same ∙ h5.size_same ∙ h4.size_same ∙ h3.size_same
                                    ∙ h2.size_same ∙ h1.size_same;
                                fits = h6.fits;
                                left = h6.left;
                                stands_for = ground (
                                  arith, f1, f2, f3, f4, f5, f6, v1, v2, v3, v4, v5, v6, e1, e2, e3,
                                  e4, e5,
                                );
                                in_memory = record {
                                  challenge_in =
                                      InMemory-at s.buf.ptr s.buf.offset challenge_len
                                        (ground (arith, f1, f2, f3, f4, f5, f6)) refl i1;
                                  from_in =
                                      InMemory-at s.buf.ptr p2 (length from)
                                        (ground (arith, f2, f3, f4, f5, f6))
                                        (ground (arith, f2, f3, f4, f5, f6))
                                        (ground (arith, e1, i2));
                                  to_in =
                                      InMemory-at s.buf.ptr p3 (length to)
                                        (ground (arith, f3, f4, f5, f6))
                                        (ground (arith, f3, f4, f5, f6)) (ground (arith, e2, i3));
                                  subject_in =
                                      InMemory-at s.buf.ptr p4 (length subject)
                                        (ground (arith, f4, f5, f6)) (ground (arith, f4, f5, f6))
                                        (ground (arith, e3, i4));
                                  body_in =
                                      InMemory-at s.buf.ptr p5 (length cs) (ground (arith, f5, f6))
                                        (ground (arith, f5, f6)) (ground (arith, e4, i5));
                                  attachment_in = rw (← e5) i6;
                                };
                              }

  is_nil_lem : (b : Buffer) (r : Bytes) → IsBuffer b → rest b ≡ r → (b.offset == b.size) ≡ is_nil r
  is_nil_lem b [] h q = ground (arith, length-rest b h, q)
  is_nil_lem b (x ∷ r) h q = ground (arith, length-rest b h, q)

  parse-Agrees :
      (s : Parser)
      → IsBuffer s.buf
      → s.buf.offset ≡ 0
      → Agrees (Parsed s.buf.ptr) (parse ops s) (reference (rest s.buf))
  unfolding parse reference
  parse-Agrees s h zero_offset =
      let size : length (rest s.buf) ≡ s.buf.size = omega (arith, length-rest s.buf h) in
      rw size (
        require-Agrees _ _ (not (ltb max_tx_len s.buf.size)) wrong_length_error s (rest s.buf)
          λ short. >>=-Agrees (fields-Agrees s (rest s.buf) h refl) λ _ s1 m r1 h1.
            end-Agrees s.buf.ptr s1 m r1 (is_nil_lem s1.buf r1 h1.fits h1.left)
              (h1.stands_for, h1.in_memory))

-- The status that a verdict comes to.
abbrev pub status_of : {A : Type 0} → Verdict A → Status
status_of (accept _ _) = parsing_ok
status_of (refuse e) = e

-- What a verdict says of the email.
abbrev pub Shows : Bytes → Verdict Message → Email → Type 0
Shows mem (accept m _) tx = Stands mem tx m
Shows mem (refuse e) tx = Unit {0}

Agrees-returned :
    (mem : Bytes) {o : Outcome (Unit {0})} {v : Verdict Message}
    → Agrees (Parsed mem) o v
    → (s' : Parser) × (returned o ≡ some (status_of v, s')) × Shows mem v s'.tx
Agrees-returned mem (both {s} h) = (s, refl, h)
Agrees-returned mem (neither {s}) = (s, refl, tt)

module _ (ops : BufferOps) (laws : BufferLaws ops) where
  -- Parsing a payload always returns, without a read outside of the payload's memory; its status
  -- is the one that the reference parser gives the payload, and on success the email's pointers
  -- and lengths stand for exactly the message that the reference parser reads.
  pub transaction_deserialize-reference :
      (buf : Buffer) (tx : Email)
      → IsBuffer buf
      → buf.offset ≡ 0
      → (s' : Parser) × (transaction_deserialize ops buf tx
          ≡ some (status_of (reference (rest buf)), s'))
        × Shows buf.ptr (reference (rest buf)) s'.tx
  unfolding transaction_deserialize
  transaction_deserialize-reference buf tx h z =
      Agrees-returned buf.ptr (parse-Agrees ops laws (record { buf = buf; tx = tx }) h z)
