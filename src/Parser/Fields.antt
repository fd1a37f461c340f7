-- ===== src/Parser/Fields.antt =====
-- Each field of src/transaction/deserialize.c against the same field of the reference parser.
use ledger_hardmail_app.Common.{
  ℕ, ◌+◌, ◌≤◌, ◌≡◌, refl, sym, ap, ◌∙◌, true, false, not, ◌||◌, [], ◌∷◌, inl, inr, arith, length,
  slice, take, drop, ltb, ◌==◌, ltb→lt, ltb→le, Bool-cases, length-take, length-slice,
}
use ledger_hardmail_app.Sdk.Buffers.{Bytes, IsBuffer, rest, advance, BufferOps, BufferLaws}
use ledger_hardmail_app.Email.{
  Status, body_parsing_error, field_encoding_error, max_body_len, at, Email,
}
use ledger_hardmail_app.Wire.{all_text}
use ledger_hardmail_app.Wire.Reference.{u8, body, text, text-cons}
use ledger_hardmail_app.Parser.{body_field, Parser, Field, read_text_field, text_field}
use ledger_hardmail_app.Parser.Text.{text_ok-all_text}
use ledger_hardmail_app.Parser.Agrees.{Agrees, both, neither, >>=-Agrees, Step}
use ledger_hardmail_app.Parser.Primitives.{
  length-rest, rest-advance, advance-IsBuffer, take-rest, seek_or-Agrees, u16_be-Agrees,
  require-Agrees,
}

module _ (ops : BufferOps) (laws : BufferLaws ops) where
  pub text_field-Agrees :
      (get : Email → Field) (put : Field → Email → Email) (bound : ℕ) (e : Status) (s : Parser)
      (bs : Bytes)
      → IsBuffer s.buf
      → rest s.buf ≡ bs
      → Agrees
          (λ _ s' cs r.
            (p : ℕ) × Step s s' (put (record { ptr = at p; len = length cs }) s.tx) r
            × (slice s.buf.ptr p (length cs) ≡ cs)
            × (p + length cs ≤ length s.buf.ptr))
          (text_field ops get put bound e s)
          (text bound e bs)
  unfolding text_field read_text_field text u8
  text_field-Agrees get put bound e s [] h q =
      rw (laws.read_u8_short s.buf h q, text_field, read_text_field) neither
  text_field-Agrees get put bound e s (n ∷ bs) h q =
      let b1 = advance s.buf 1 in
      let fits : IsBuffer b1 = advance-IsBuffer s.buf 1 h (rw q (omega arith)) in
      let left : rest b1 ≡ bs = rest-advance s.buf 1 ∙ ap (drop 1) q in
      rw (text-cons bound e n bs, laws.read_u8_done s.buf n bs h q, text_field, read_text_field)
        (elim (Bool-cases (n == 0 || ltb bound n)) [
          | inl bad ↦ rw bad neither
          | inr fine ↦ rw fine (elim (Bool-cases (ltb (length bs) n)) [
            | inl short ↦
                rw (short, laws.seek_cur_short b1 n fits (rw left (ltb→lt _ _ short))) neither
            | inr long ↦
                let enough : n ≤ length (rest b1) = rw left (ltb→le _ _ long) in
                let here : slice s.buf.ptr (s.buf.offset + 1) n ≡ take n bs =
                  sym (take-rest b1 n fits enough) ∙ ap (take n) left in
                let inside : s.buf.offset + 1 + n ≤ length s.buf.ptr =
                  ground (arith, length-rest b1 fits) in
                let len : length (take n bs) ≡ n = ground (arith, length-take n bs) in
                rw
                  (
                    long,
                    laws.seek_cur_done b1 n fits enough,
                    text_ok-all_text s.buf.ptr (s.buf.offset + 1) n false inside,
                    here,
                  )
                  (elim (Bool-cases (all_text false (take n bs))) [
                    | inl good ↦ rw good (
                        both (
                          s.buf.offset + 1,
                          record {
                            ptr_same = refl;
                            size_same = refl;
                            fits = advance-IsBuffer b1 n fits enough;
                            left = rest-advance b1 n ∙ ap (drop n) left;
                            filled =
                                ap (λ k. put (record { ptr = at (s.buf.offset + 1); len = k }) s.tx)
                                  (sym len);
                          },
                          rw len here,
                          rw len inside,
                        ))
                    | inr bad ↦ rw bad neither
                  ])
          ])
        ])

  pub body_field-Agrees :
      (s : Parser) (bs : Bytes)
      → IsBuffer s.buf
      → rest s.buf ≡ bs
      → Agrees
          (λ _ s' cs r.
            (p : ℕ) × Step s s' (record s.tx { body = at p; body_len = length cs }) r
            × (slice s.buf.ptr p (length cs) ≡ cs)
            × (p + length cs ≤ length s.buf.ptr))
          (body_field ops s)
          (body bs)
  unfolding body_field body
  body_field-Agrees s bs h q =
      >>=-Agrees (u16_be-Agrees ops laws body_parsing_error s bs h q) λ v s1 n r1 (e1, h1). rw e1 (
        require-Agrees _ _ (not (n == 0 || ltb max_body_len n)) body_parsing_error s1 r1 λ fine.
          let s2 : Parser = record s1 { tx = record s1.tx { body = at s1.buf.offset } } in
          >>=-Agrees (seek_or-Agrees ops laws body_parsing_error n s2 r1 h1.fits h1.left)
            λ _ s3 cs r3 (h3, here, inside).
              let len : length cs ≡ n =
                rw (← here) (length-slice s1.buf.ptr s1.buf.offset n inside) in
              rw (text_ok-all_text s1.buf.ptr s1.buf.offset n true inside, here)
                (require-Agrees _ _ (all_text true cs) field_encoding_error s3 r3 λ good. both (
                  s1.buf.offset,
                  record {
                    ptr_same = h3.ptr_same ∙ h1.ptr_same;
                    size_same = h3.size_same ∙ h1.size_same;
                    fits = h3.fits;
                    left = h3.left;
                    filled = ground (arith, h3.filled, h1.filled, len);
                  },
                  ground (arith, h1.ptr_same, len, here),
                  ground (arith, h1.ptr_same, len, inside),
                )))
