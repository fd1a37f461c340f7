-- ===== src/Display/Review.antt =====
-- What src/ui/nbgl_display_transaction.c is to show of a message: every field in full.
use ledger_hardmail_app.Common.{
  ◌+◌, ◌-◌, ◌*◌, ◌≡◌, refl, true, false, List, [], ◌∷◌, ◌++◌, Option, none, some, arith, ◌==◌,
  take_all, length-append, Bool-cases, inl, inr,
}
use ledger_hardmail_app.Sdk.Buffers.{Bytes}
use ledger_hardmail_app.Sdk.Crypto.{CryptoOps, HexLaw, hex}
use ledger_hardmail_app.Email.{
  Email, challenge_len, att_hash_len, max_from_len, max_to_len, max_subject_len, max_body_len,
  max_att_name_len,
}
use ledger_hardmail_app.Wire.{Attachment, Message, IsValid, IsAttachment}
use ledger_hardmail_app.Parser.View.{load, view, IsInMemory}
use ledger_hardmail_app.Context.{Pair}
use ledger_hardmail_app.Display.{
  codes, c_string, decimal, print_attachment, pair, shown, attachment_pairs, email_pairs,
}
use ledger_hardmail_app.Display.Strings.{read_mem-load, copy_field-IsText}
use ledger_hardmail_app.Display.Numbers.{length-decimal_le}

-- The size in decimal: a number below 2 ^ 32 has at most ten digits.
abbrev pub attachment_line : Attachment → Bytes
attachment_line a = a.name ++ (codes " (" ++ (decimal 10 a.size ++ codes " bytes)"))

abbrev pub attachment_review : Option Attachment → List Pair
attachment_review none = []
attachment_review (some a) =
    pair "Attachment" (attachment_line a) ∷ pair "Attachment SHA-256" (hex a.hash) ∷ []

abbrev pub review_of : Message → List Pair
review_of m =
    pair "From" m.from
    ∷ pair "To" m.to
    ∷ pair "Subject" m.subject
    ∷ pair "Message" m.body
    ∷ (attachment_review m.attachment ++ pair "Request ID" (hex m.challenge) ∷ [])

-- The array of `snprintf` has room for the longest name and the longest number.
print_attachment_lem :
    (name : Bytes) (a : Attachment)
    → c_string name ≡ a.name
    → IsAttachment a
    → print_attachment (max_att_name_len + 40) name a.size ≡ attachment_line a
unfolding print_attachment
print_attachment_lem name a e h =
    let digits = decimal 10 a.size in
    let n = length-append a.name (codes " (" ++ (digits ++ codes " bytes)")) in
    let k = length-append digits (codes " bytes)") in
    rw e (
      take_all (max_att_name_len + 40 - 1) (attachment_line a)
        (omega (arith, n, k, length-decimal_le 10 a.size, h.name_text.bounded)))

module _ (crypto : CryptoOps) (law : HexLaw crypto) where
  attachment_pairs_by :
      (mem : Bytes) (tx : Email)
      → IsInMemory mem tx
      → IsValid (view mem tx)
      → attachment_pairs crypto mem tx ≡ some (shown (attachment_review (view mem tx).attachment))
  unfolding attachment_pairs
  attachment_pairs_by mem tx held valid = elim (Bool-cases (tx.has_attachment == 0)) [
    | inl e ↦ rw e refl
    | inr e ↦
        let (name_in, hash_in) = (rw e at held.attachment_in) in
        let a : Attachment = record {
          name = load mem tx.att_name tx.att_name_len;
          size = tx.att_size;
          hash = load mem tx.att_hash att_hash_len;
        } in
        let ok : IsAttachment a = rw e at valid.attachment_ok in
        let (name, copy, name_shown) =
          copy_field-IsText false max_att_name_len mem tx.att_name tx.att_name_len name_in
            ok.name_text in
        let hash = read_mem-load mem tx.att_hash att_hash_len hash_in in
        let text = law.format_hex_done a.hash (2 * att_hash_len + 1) (omega (arith, ok.hash_len)) in
        rw (e, copy, hash, text, print_attachment_lem name a name_shown ok) refl
  ]

  -- The review of an email that stands for an allowed message shows that message in full.
  pub email_pairs-review_of :
      (mem : Bytes) (tx : Email)
      → IsInMemory mem tx
      → IsValid (view mem tx)
      → email_pairs crypto mem tx ≡ some (shown (review_of (view mem tx)))
  unfolding email_pairs
  email_pairs-review_of mem tx held valid =
      let (from, f, from_shown) =
        copy_field-IsText false max_from_len mem tx.from tx.from_len held.from_in valid.from_text in
      let (to, t, to_shown) =
        copy_field-IsText false max_to_len mem tx.to tx.to_len held.to_in valid.to_text in
      let (subject, s, subject_shown) =
        copy_field-IsText false max_subject_len mem tx.subject tx.subject_len held.subject_in
          valid.subject_text in
      let (body, b, body_shown) =
        copy_field-IsText true max_body_len mem tx.body tx.body_len held.body_in valid.body_text in
      let c = read_mem-load mem tx.challenge challenge_len held.challenge_in in
      let x =
        law.format_hex_done (load mem tx.challenge challenge_len) (2 * challenge_len + 1)
          (omega (arith, valid.challenge_16)) in
      let a = attachment_pairs_by mem tx held valid in
      rw (f, t, s, b, c, x, a, from_shown, to_shown, subject_shown, body_shown) refl
