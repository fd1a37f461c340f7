-- ===== src/Wire/Sound.antt =====
-- What the reference parser accepts is what the format writes.
use ledger_hardmail_app.Common.{
  ℕ, ◌^◌, ◌≤◌, ◌<◌, ◌≡◌, refl, sym, Bool, true, false, not, ◌||◌, [], ◌∷◌, ◌++◌, arith, length, ltb,
  ◌==◌, take-append-drop, length-take, Bool-cases, ==_iff, inl, inr,
}
use ledger_hardmail_app.Sdk.Buffers.{Bytes}
use ledger_hardmail_app.Email.{
  Status, body_parsing_error, attachment_parsing_error, challenge_parsing_error, from_parsing_error,
  to_parsing_error, subject_parsing_error, wrong_length_error, max_from_len, max_to_len,
  max_subject_len, max_tx_len, challenge_len, max_body_len, max_att_name_len, att_hash_len,
}
use ledger_hardmail_app.Wire.{
  Message, all_text, AllBytes, IsText, AttachmentOk, IsValid, u16, u32, put_text, put_attachment,
  put_message, encode,
}
use ledger_hardmail_app.Wire.Reference.{
  accept, Ensures, accepts, refuses, >>=-Ensures, Ensures-accept, bytes, u8, u16_be, u32_be, text,
  body, one_attachment, attachment, message, is_nil, reference, require,
}

pub AllBytes-append_right : (xs ys : Bytes) → AllBytes (xs ++ ys) → AllBytes ys
AllBytes-append_right [] ys h = h
AllBytes-append_right (x ∷ xs) ys h = AllBytes-append_right xs ys h.1

bytes_sound :
    (n : ℕ) (e : Status) (bs : Bytes)
    → Ensures (λ cs r. (bs ≡ cs ++ r) × (length cs ≡ n)) (bytes n e bs)
unfolding bytes
bytes_sound n e bs = elim (Bool-cases (ltb (length bs) n)) [
  | inl short ↦ rw short refuses
  | inr long ↦ rw long (accepts (sym (take-append-drop n bs), ground (arith, length-take n bs)))
]

u16_sound : (e : Status) (bs : Bytes) → AllBytes bs → Ensures (λ n r. bs ≡ u16 n r) (u16_be e bs)
unfolding u16_be
u16_sound e [] a = refuses
u16_sound e (x ∷ []) a = refuses
u16_sound e (x ∷ y ∷ bs) a = accepts (ground arith)

u32_sound :
    (e : Status) (bs : Bytes)
    → AllBytes bs
    → Ensures (λ n r. (bs ≡ u32 n r) × (n < 2 ^ 32)) (u32_be e bs)
unfolding u32_be
u32_sound e [] a = refuses
u32_sound e (x ∷ []) a = refuses
u32_sound e (x ∷ y ∷ []) a = refuses
u32_sound e (x ∷ y ∷ z ∷ []) a = refuses
u32_sound e (x ∷ y ∷ z ∷ w ∷ bs) a = accepts (ground arith)

require_sound :
    (b : Bool) (e : Status) (bs : Bytes) → Ensures (λ _ r. (b ≡ true) × (r ≡ bs)) (require b e bs)
require_sound true e bs = accepts (refl, refl)
require_sound false e bs = refuses

text_sound :
    (bound : ℕ) (e : Status) (bs : Bytes)
    → Ensures (λ cs r. (bs ≡ put_text cs r) × IsText false bound cs) (text bound e bs)
unfolding text u8
text_sound bound e [] = refuses
text_sound bound e (n ∷ bs) =
    >>=-Ensures (require_sound (not (n == 0 || ltb bound n)) e bs) λ _ r1 h1.
      >>=-Ensures (bytes_sound n e r1) λ cs r2 h2.
        >>=-Ensures (require_sound (all_text false cs) e r2) λ _ r3 h3. accepts (ground arith)

body_sound :
    (bs : Bytes)
    → AllBytes bs
    → Ensures (λ cs r. (bs ≡ u16 (length cs) (cs ++ r)) × IsText true max_body_len cs) (body bs)
unfolding body
body_sound bs a = >>=-Ensures (u16_sound body_parsing_error bs a) λ n r0 e.
    >>=-Ensures (require_sound (not (n == 0 || ltb max_body_len n)) _ r0) λ _ r1 h1.
      >>=-Ensures (bytes_sound n body_parsing_error r1) λ cs r2 h2.
        >>=-Ensures (require_sound (all_text true cs) _ r2) λ _ r3 h3. accepts (ground arith)

AllBytes-text : (cs r : Bytes) {bs : Bytes} → AllBytes bs → bs ≡ put_text cs r → AllBytes r
AllBytes-text cs r a e = AllBytes-append_right (length cs ∷ cs) r (rw e at a)

one_attachment_sound :
    (bs : Bytes)
    → AllBytes bs
    → Ensures (λ a r. (1 ∷ bs ≡ put_attachment a r) × AttachmentOk a) (one_attachment bs)
unfolding one_attachment
one_attachment_sound bs all =
    >>=-Ensures (text_sound max_att_name_len attachment_parsing_error bs) λ name r1 h1.
      >>=-Ensures (u32_sound attachment_parsing_error r1 (AllBytes-text name r1 all h1.0))
        λ size r2 h2.
          >>=-Ensures (bytes_sound att_hash_len attachment_parsing_error r2)
            λ hash r3 h3. accepts (ground arith)

attachment_sound :
    (bs : Bytes)
    → AllBytes bs
    → Ensures (λ a r. (bs ≡ put_attachment a r) × AttachmentOk a) (attachment bs)
unfolding attachment u8
attachment_sound [] all = refuses
attachment_sound (n ∷ bs) all =
    >>=-Ensures (require_sound (not (ltb 1 n)) attachment_parsing_error bs) λ _ r0 h0.
      elim (Bool-cases (n == 1)) [
        | inl one ↦ rw (one, h0.1, (==_iff n 1).0 one) (one_attachment_sound bs all.1)
        | inr other ↦ rw other (accepts (ground arith))
      ]

message_sound :
    (bs : Bytes) → AllBytes bs → Ensures (λ m r. (bs ≡ put_message m r) × IsValid m) (message bs)
unfolding message
message_sound bs all =
    >>=-Ensures (bytes_sound challenge_len challenge_parsing_error bs) λ challenge r1 h1.
      let all1 = AllBytes-append_right challenge r1 (rw h1.0 at all) in
      >>=-Ensures (text_sound max_from_len from_parsing_error r1) λ from r2 h2.
        let all2 = AllBytes-text from r2 all1 h2.0 in
        >>=-Ensures (text_sound max_to_len to_parsing_error r2) λ to r3 h3.
          let all3 = AllBytes-text to r3 all2 h3.0 in
          >>=-Ensures (text_sound max_subject_len subject_parsing_error r3) λ subject r4 h4.
            let all4 = AllBytes-text subject r4 all3 h4.0 in
            >>=-Ensures (body_sound r4 all4) λ cs r5 h5.
              let all5 = AllBytes-append_right (u16 (length cs) cs) r5 (rw h5.0 at all4) in
              >>=-Ensures (attachment_sound r5 all5) λ a r6 h6. accepts (ground arith)

is_nil_lem : (r : Bytes) → is_nil r ≡ true → r ≡ []
is_nil_lem [] h = refl
is_nil_lem (x ∷ r) h = cc

-- What is accepted is, byte for byte, what the format writes for the message returned.
reference_sound :
    (bs : Bytes)
    → AllBytes bs
    → Ensures (λ m _. (bs ≡ encode m) × IsValid m × (length bs ≤ max_tx_len)) (reference bs)
unfolding reference encode
reference_sound bs all =
    >>=-Ensures (require_sound (not (ltb max_tx_len (length bs))) wrong_length_error bs) λ _ r0 h0.
      >>=-Ensures (message_sound r0 (rw (← h0.1) at all)) λ m r h.
        >>=-Ensures (require_sound (is_nil r) wrong_length_error r)
          λ _ r' e. accepts (ground (arith, is_nil_lem r e.0), h.1, ground arith)

pub reference-accept :
    (bs : Bytes) {m : Message} {r : Bytes}
    → AllBytes bs
    → reference bs ≡ accept m r
    → (bs ≡ encode m) × IsValid m × (length bs ≤ max_tx_len)
reference-accept bs all e = Ensures-accept (reference_sound bs all) e
