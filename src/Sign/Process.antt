-- ===== src/Sign/Process.antt =====
-- What the last chunk leads to: `process_transaction` of src/handler/sign_tx.c and the review.
use ledger_hardmail_app.Common.{◌≡◌, refl, ap, ◌∙◌, false, some, inl, inr}
use ledger_hardmail_app.Sdk.Buffers.{BufferOps, BufferLaws}
use ledger_hardmail_app.Sdk.Crypto.{CryptoOps, HexLaw, HashLaw}
use ledger_hardmail_app.Email.{Status, parsing_ok}
use ledger_hardmail_app.Wire.{Message, IsValid, encode}
use ledger_hardmail_app.Wire.Errors.{reference-refuse}
use ledger_hardmail_app.Wire.Reference.{reference, refuse, accept, Verdict}
use ledger_hardmail_app.Parser.{Parser, transaction_deserialize}
use ledger_hardmail_app.Parser.Refinement.{status_of, transaction_deserialize-reference}
use ledger_hardmail_app.Parser.Correct.{Verdict-cases}
use ledger_hardmail_app.Context.{
  Context, State, StatusWord, confirm_transaction, is_request, state_none, Reply, review, send_sw,
  swo_incorrect_data, swo_conditions_not_satisfied,
}
use ledger_hardmail_app.Display.{ui_display_transaction}
use ledger_hardmail_app.Display.Review.{review_of}
use ledger_hardmail_app.Sign.{
  payload, payload_buffer, set_parsed, is_ok, hash_parsed, process_transaction, finish_sign,
}
use ledger_hardmail_app.Sign.Chunks.{IsContext, IsContext-tx_info}
use ledger_hardmail_app.Sign.Approvable.{
  IsApprovable, Finished, answered, displayed, payload_buffer-IsBuffer, not_ok, is_request-cases,
  set_parsed-IsContext,
}
use ledger_hardmail_app.Sign.Reviewed.{
  ready, ready-IsContext, reviewed, parses_message, displays_message,
}

-- The answer to a payload of another request, and the state after it.
abbrev pub other_status : Verdict Message → StatusWord
other_status (accept m r) = swo_conditions_not_satisfied
other_status (refuse e) = swo_incorrect_data

abbrev pub other_state : State → Verdict Message → State
other_state s (accept m r) = state_none
other_state s (refuse e) = s

module _ (ops : BufferOps) (laws : BufferLaws ops) (crypto : CryptoOps) (hexes : HexLaw crypto)
    (hashes : HashLaw crypto) where
  -- The last chunk of an email request whose payload is the encoding of an allowed message puts the
  -- review of exactly that message on the screen, with the payload's hash ready to be signed.
  pub finish_sign-encode :
      (c : Context) (m : Message)
      → IsContext c
      → c.req_type ≡ confirm_transaction
      → IsValid m
      → payload c ≡ encode m
      → (c' : Context) × (finish_sign ops crypto c ≡ some (c', review (review_of m)))
        × IsApprovable crypto c' (review_of m)
  finish_sign-encode c m h req valid written =
      let (p, ran, ok) = displays_message ops laws crypto hexes hashes c m h req valid written in
      (ready crypto c p, ran, ok)

  pub refuses :
      (c : Context) (e : Status)
      → IsContext c
      → reference (payload c) ≡ refuse e
      → (p : Parser) × (finish_sign ops crypto c
          ≡ some (set_parsed c p, send_sw swo_incorrect_data))
  unfolding finish_sign process_transaction hash_parsed
  refuses c e h refused =
      let (p, ran, _) =
        transaction_deserialize-reference ops laws (payload_buffer c) c.tx_info.transaction
          (payload_buffer-IsBuffer c h) refl in
      let bad : is_ok e ≡ false = not_ok e (reference-refuse (payload c) refused) in
      (p, rw (ran, refused, bad) refl)

  -- The last chunk of a payload that the wire format refuses, of any request, is answered with
  -- SWO_INCORRECT_DATA; the state and the payload are as before.
  pub finish_sign-refuse :
      (c : Context) (e : Status)
      → IsContext c
      → reference (payload c) ≡ refuse e
      → (c' : Context) × (finish_sign ops crypto c ≡ some (c', send_sw swo_incorrect_data))
        × (c'.state ≡ c.state)
        × (payload c' ≡ payload c)
  finish_sign-refuse c e h refused =
      let (p, ran) = refuses c e h refused in (set_parsed c p, ran, refl, refl)

  not_displayed :
      (c : Context) (p : Parser)
      → IsContext c
      → is_request c.req_type confirm_transaction ≡ false
      → transaction_deserialize ops (payload_buffer c) c.tx_info.transaction ≡ some (parsing_ok, p)
      → finish_sign ops crypto c
        ≡ some
            (record (ready crypto c p) { state = state_none }, send_sw swo_conditions_not_satisfied)
  unfolding finish_sign process_transaction hash_parsed ui_display_transaction
  not_displayed c p h req ran = rw (ran, hashes.digest_written (payload c), req) refl

  pub hides_message :
      (c : Context) (m : Message)
      → IsContext c
      → is_request c.req_type confirm_transaction ≡ false
      → IsValid m
      → payload c ≡ encode m
      → (p : Parser) × (finish_sign ops crypto c
          ≡ some (
            record (ready crypto c p) { state = state_none },
            send_sw swo_conditions_not_satisfied,
          ))
  hides_message c m h req valid written =
      let (p, ran, _) = parses_message ops laws crypto hexes hashes c m h valid written in
      (p, not_displayed c p h req ran)

  -- The last chunk of a request that is no email request shows nothing, whatever its payload: where the
  -- wire format accepts it, the answer is SWO_CONDITIONS_NOT_SATISFIED and there is no state; where it
  -- refuses it, the answer is SWO_INCORRECT_DATA and the state is as before. The payload is kept.
  pub finish_sign_other :
      (c : Context)
      → IsContext c
      → is_request c.req_type confirm_transaction ≡ false
      → (c' : Context) × (finish_sign ops crypto c
          ≡ some (c', send_sw (other_status (reference (payload c)))))
        × (c'.state ≡ other_state c.state (reference (payload c)))
        × (payload c' ≡ payload c)
  finish_sign_other c h req = elim (Verdict-cases (reference (payload c))) [
    | inl (m, r, e) ↦
        let (p, returned, _) =
          transaction_deserialize-reference ops laws (payload_buffer c) c.tx_info.transaction
            (payload_buffer-IsBuffer c h) refl in
        let ran = returned ∙ ap (λ v. some (status_of v, p)) e in
        (
          record (ready crypto c p) { state = state_none },
          not_displayed c p h req ran ∙ rw e refl,
          rw e refl,
          refl,
        )
    | inr (e, q) ↦
        let (p, ran) = refuses c e h q in (set_parsed c p, ran ∙ rw q refl, rw q refl, refl)
  ]

  -- The last chunk always returns, with an answer or with the review of an approvable context.
  pub finish_sign-Finished :
      (c : Context)
      → IsContext c
      → (r : Context × Reply) × (finish_sign ops crypto c ≡ some r) × Finished crypto r
  finish_sign-Finished c h = elim (Verdict-cases (reference (payload c))) [
    | inl (m, r, e) ↦
        let (p, returned, _) =
          transaction_deserialize-reference ops laws (payload_buffer c) c.tx_info.transaction
            (payload_buffer-IsBuffer c h) refl in
        let ran = returned ∙ ap (λ v. some (status_of v, p)) e in
        elim (is_request-cases c.req_type) [
          | inl req ↦
              let (displays, ok) = reviewed ops laws crypto hexes hashes c p h req ran in
              (_, displays, displayed (ready-IsContext crypto c p h) ok)
          | inr other ↦ (
            _,
            not_displayed c p h other ran,
            answered (IsContext-tx_info (ready crypto c p) _ refl (ready-IsContext crypto c p h)),
          )
        ]
    | inr (e, q) ↦ let (p, ran) = refuses c e h q in (_, ran, answered (set_parsed-IsContext c p h))
  ]
