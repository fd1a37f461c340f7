-- ===== src/Machine/Chunks.antt =====
-- The chunks of src/handler/sign_tx.c and the session.
use ledger_hardmail_app.Common.{
  ◌+◌, ◌≤◌, ◌≡◌, refl, sym, ap, subst, ◌∙◌, Bool, true, false, not, ◌++◌, none, some, length, ltb,
  if◌then◌else◌, ◌>>=◌, arith, inl, inr, if_true, if_false, lt→ltb, le→ltb, take_all,
}
use ledger_hardmail_app.Sdk.Buffers.{Bytes, rest, BufferOps, BufferLaws}
use ledger_hardmail_app.Sdk.Crypto.{CryptoOps, HexLaw, HashLaw}
use ledger_hardmail_app.Wire.Sound.{reference-accept}
use ledger_hardmail_app.Wire.Reference.{reference}
use ledger_hardmail_app.Parser.Correct.{Verdict-cases}
use ledger_hardmail_app.Context.{
  Context, StatusWord, confirm_transaction, is_request, max_transaction_len, send_sw, state_none,
  swo_success, swo_wrong_data_length, swo_conditions_not_satisfied, swo_incorrect_data,
}
use ledger_hardmail_app.Display.Review.{review_of}
use ledger_hardmail_app.Sign.{set_parsed, payload, continue_sign, request_of, finish_sign}
use ledger_hardmail_app.Sign.Chunks.{
  IsContext, IsContext-tx_info, Received, other_request, too_long, taken,
}
use ledger_hardmail_app.Sign.Approvable.{is_request-cases, set_parsed-IsContext}
use ledger_hardmail_app.Sign.Process.{refuses, hides_message}
use ledger_hardmail_app.Sign.Reviewed.{ready, ready-IsContext, displays_message}
use ledger_hardmail_app.Sign.Session.{payload_length}
use ledger_hardmail_app.Sign.Gather.{chunk_buffer}
use ledger_hardmail_app.Machine.{signer_of, judged, take_chunk}
use ledger_hardmail_app.Machine.Stands.{Implements, session_of, KeepsPath, implemented, status_sent}

-- The session when a chunk is taken.
gathered :
    (c c' : Context) (bytes : Bytes)
    → payload c' ≡ payload c ++ rest (chunk_buffer bytes)
    → c'.req_type ≡ c.req_type
    → KeepsPath c (c', swo_success)
    → session_of c' none ≡ record (session_of c none) { received = payload c ++ bytes }
gathered c c' bytes joined kept path =
    let bytes_in =
      joined ∙ ap (λ b. payload c ++ b) (take_all (length bytes) bytes (omega arith)) in
    ground (arith, bytes_in, kept, path.same_path, path.same_len)

kept_chunk :
    (token more : Bool) (bytes : Bytes) (c : Context)
    → IsContext c
    → is_request c.req_type (request_of token) ≡ true
    → c.tx_info.raw_tx_len + length bytes ≤ max_transaction_len
    → let a = record (session_of c none) { received = payload c ++ bytes } in
      take_chunk token more bytes (session_of c none) ≡ (
        if more then (a, some (send_sw swo_success)) else judged a (reference (payload c ++ bytes)))
unfolding take_chunk
kept_chunk token more bytes c h e fits =
    if_false _ _ _ (ap not e)
    ∙ if_false _ _ _ (
        le→ltb max_transaction_len (length (payload c) + length bytes)
          (omega (arith, payload_length c h)))

module _ (ops : BufferOps) (laws : BufferLaws ops) (crypto : CryptoOps) (hexes : HexLaw crypto)
    (hashes : HashLaw crypto) where
  -- The last chunk, where the payload is what the session has received.
  finished :
      (c : Context)
      → IsContext c
      → Implements crypto
          (finish_sign ops crypto c >>= λ r. some (signer_of r))
          (judged (session_of c none) (reference (payload c)))
  finished c h = elim (Verdict-cases (reference (payload c))) [
    | inr (e, q) ↦
        let (p, ran) = refuses ops laws crypto hexes hashes c e h q in
        implemented crypto _ _ _ _ ran (ap (judged (session_of c none)) q)
          (status_sent crypto (set_parsed c p) swo_incorrect_data (set_parsed-IsContext c p h))
    | inl (m, r, e) ↦
        let (bytes, valid, _) = reference-accept (payload c) h.raw_bytes e in
        let judge = ap (judged (session_of c none)) e in
        elim (is_request-cases c.req_type) [
          | inl req ↦
              let (p, ran, _) =
                displays_message ops laws crypto hexes hashes c m h req valid bytes in
              implemented crypto _ _ _ _ ran
                (judge ∙ if_true _ _ _ (ap (λ r. is_request r confirm_transaction) req))
                (
                  record { context = ready crypto c p; shown = some (review_of m) },
                  refl,
                  record {
                    well = ready-IsContext crypto c p h;
                    request = refl;
                    received = refl;
                    path = refl;
                    path_len = refl;
                    pending = (refl, ap (λ bs. (crypto.hash_sha256 bs).1) bytes);
                  },
                )
          | inr other ↦
              let (p, ran) = hides_message ops laws crypto hexes hashes c m h other valid bytes in
              implemented crypto _ _ _ _ ran (judge ∙ if_false _ _ _ other) (
                status_sent crypto (record (ready crypto c p) { state = state_none })
                  swo_conditions_not_satisfied
                  (IsContext-tx_info (ready crypto c p) _ refl (ready-IsContext crypto c p h)))
        ]
  ]

  pub after_chunk :
      (token more : Bool) (bytes : Bytes) (c : Context) {r : Context × StatusWord}
      → IsContext c
      → KeepsPath c r
      → Received (request_of token) (chunk_buffer bytes) c r
      → Implements crypto
          (continue_sign ops crypto more r >>= λ r. some (signer_of r))
          (take_chunk token more bytes (session_of c none))
  unfolding continue_sign take_chunk
  after_chunk token more bytes c h path (other_request e) =
      subst (λ x. Implements crypto (some (signer_of (c, send_sw swo_conditions_not_satisfied))) x)
        (sym (if_true _ _ _ (ap not e))) (status_sent crypto c swo_conditions_not_satisfied h)
  after_chunk token more bytes c h path (too_long e long) =
      let over : ltb max_transaction_len (length (payload c) + length bytes) ≡ true =
        lt→ltb _ _ (omega (arith, payload_length c h)) in
      subst (λ x. Implements crypto (some (signer_of (c, send_sw swo_wrong_data_length))) x)
        (sym (if_false _ _ _ (ap not e) ∙ if_true _ _ _ over))
        (status_sent crypto c swo_wrong_data_length h)
  after_chunk token true bytes c h path (taken {c'} e fits joined len kept ok) =
      subst (λ x. Implements crypto (some (signer_of (c', send_sw swo_success))) x)
        (ap (λ a. (a, some (send_sw swo_success))) (gathered c c' bytes joined kept path)
          ∙ sym (kept_chunk token true bytes c h e fits))
        (status_sent crypto c' swo_success ok)
  after_chunk token false bytes c h path (taken {c'} e fits joined len kept ok) =
      let bytes_in =
        joined ∙ ap (λ b. payload c ++ b) (take_all (length bytes) bytes (omega arith)) in
      subst (λ x. Implements crypto (finish_sign ops crypto c' >>= λ r. some (signer_of r)) x)
        (ap (λ b. judged (session_of c' none) (reference b)) bytes_in
          ∙ ap (λ a. judged a (reference (payload c ++ bytes)))
              (gathered c c' bytes joined kept path)
          ∙ sym (kept_chunk token false bytes c h e fits))
        (finished c' ok)
