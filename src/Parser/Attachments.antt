-- ===== src/Parser/Attachments.antt =====
-- The optional attachment of src/transaction/deserialize.c against the reference parser.
use ledger_hardmail_app.Common.{◌≡◌, ◌∙◌, not, Option, inl, inr, arith, ltb, ◌==◌, Bool-cases}
use ledger_hardmail_app.Sdk.Buffers.{Bytes, IsBuffer, rest, BufferOps, BufferLaws}
use ledger_hardmail_app.Email.{
  attachment_parsing_error, null, at, Email, max_att_name_len, att_hash_len,
}
use ledger_hardmail_app.Wire.{Attachment}
use ledger_hardmail_app.Wire.Reference.{one_attachment, attachment as attachment'}
use ledger_hardmail_app.Parser.{Parser, attachment, attachment_field, att_name_of, put_att_name}
use ledger_hardmail_app.Parser.View.{view_attachment, AttachmentInMemory}
use ledger_hardmail_app.Parser.Agrees.{Agrees, both, Agrees-map, >>=-Agrees, Step}
use ledger_hardmail_app.Parser.Primitives.{seek_or-Agrees, u8-Agrees, u32_be-Agrees, require-Agrees}
use ledger_hardmail_app.Parser.Fields.{text_field-Agrees}

-- The five fields of the attachment are those of `t`, the others those of `tx`.
abbrev pub with_attachment : Email → Email → Email
with_attachment tx t = record tx {
  has_attachment = t.has_attachment;
  att_name = t.att_name;
  att_name_len = t.att_name_len;
  att_size = t.att_size;
  att_hash = t.att_hash;
}

abbrev pub Attached : Parser → Unit {0} → Parser → Option Attachment → Bytes → Type 0
Attached s _ s' a r =
    Step s s' (with_attachment s.tx s'.tx) r
    × (view_attachment s.buf.ptr s'.tx ≡ a)
    × AttachmentInMemory s.buf.ptr s'.tx

module _ (ops : BufferOps) (laws : BufferLaws ops) where
  one_attachment-Agrees :
      (s : Parser) (bs : Bytes)
      → IsBuffer s.buf
      → rest s.buf ≡ bs
      → Agrees (Attached s) (attachment ops s) (one_attachment bs)
  unfolding attachment one_attachment
  one_attachment-Agrees s bs h q =
      >>=-Agrees
        (text_field-Agrees ops laws att_name_of put_att_name max_att_name_len
          attachment_parsing_error s bs h q)
        λ _ s1 name r1 (p, h1, name_at, name_in).
          >>=-Agrees (u32_be-Agrees ops laws attachment_parsing_error s1 r1 h1.fits h1.left)
            λ v s2 size r2 (e2, h2).
              let s3 : Parser = record s2 {
                tx = record s2.tx { att_size = v; att_hash = at s2.buf.offset };
              } in
              >>=-Agrees
                (seek_or-Agrees ops laws attachment_parsing_error att_hash_len s3 r2 h2.fits
                  h2.left)
                λ _ s4 hash r4 (h4, hash_at, inside). both (
                  record {
                    ptr_same = h4.ptr_same ∙ h2.ptr_same ∙ h1.ptr_same;
                    size_same = h4.size_same ∙ h2.size_same ∙ h1.size_same;
                    fits = h4.fits;
                    left = h4.left;
                    filled = ground (arith, h4.filled, h2.filled, h1.filled);
                  },
                  ground (
                    arith, h4.filled, h2.filled, h1.filled, e2, name_at, hash_at, h2.ptr_same,
                    h1.ptr_same,
                  ),
                  rw (h4.filled, h2.filled, h1.filled)
                      (name_in, ground (arith, h2.ptr_same, h1.ptr_same, inside)),
                )

  pub attachment_field-Agrees :
      (s : Parser) (bs : Bytes)
      → IsBuffer s.buf
      → rest s.buf ≡ bs
      → Agrees (Attached s) (attachment_field ops s) (attachment' bs)
  unfolding attachment_field attachment'
  attachment_field-Agrees s bs h q =
      let s0 : Parser = record s {
        tx = record s.tx {
          has_attachment = 0;
          att_name = null;
          att_name_len = 0;
          att_size = 0;
          att_hash = null;
        };
      } in
      >>=-Agrees (u8-Agrees ops laws attachment_parsing_error s0 bs h q) λ v s1 n r1 (e1, h1).
        rw e1 (
          require-Agrees _ _ (not (ltb 1 n)) attachment_parsing_error s1 r1 λ few.
            elim (Bool-cases (n == 1)) [
              | inl one ↦ rw one (
                  Agrees-map (one_attachment-Agrees s1 r1 h1.fits h1.left)
                    λ _ s2 a r2 (h2, seen, held). (
                      record {
                        ptr_same = h2.ptr_same ∙ h1.ptr_same;
                        size_same = h2.size_same ∙ h1.size_same;
                        fits = h2.fits;
                        left = h2.left;
                        filled = ground (arith, h2.filled, h1.filled);
                      },
                      ground (arith, seen, h1.ptr_same),
                      rw (← h1.ptr_same) held,
                    ))
              | inr other ↦ rw other (
                  both (
                    record {
                      ptr_same = h1.ptr_same;
                      size_same = h1.size_same;
                      fits = h1.fits;
                      left = h1.left;
                      filled = ground (arith, h1.filled);
                    },
                    ground (arith, h1.filled),
                    rw h1.filled tt,
                  ))
            ])
