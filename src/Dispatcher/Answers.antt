-- ===== src/Dispatcher/Answers.antt =====
-- What src/apdu/dispatcher.c answers to a command.
use ledger_hardmail_app.Common.{
  ℕ, ◌≡◌, refl, ap, Bool, true, false, not, List, [], Option, none, some, arith, ◌==◌,
  if◌then◌else◌, Bool-cases, inl, inr, take_all, ◌>>=◌,
}
use ledger_hardmail_app.Sdk.Buffers.{Bytes, Buffer, IsBuffer, rest, BufferOps, BufferLaws}
use ledger_hardmail_app.Sdk.Crypto.{CryptoOps, HexLaw, HashLaw}
use ledger_hardmail_app.Wire.{AllBytes}
use ledger_hardmail_app.Context.{
  Context, zero_context, Pair, Reply, respond, review, review_address, send_sw, StatusWord,
  RequestType, state_none, swo_wrong_data_length,
}
use ledger_hardmail_app.Address.{handler_get_public_key}
use ledger_hardmail_app.Address.Answers.{
  ShowsAddress, KeyAnswer, replied, addressed, handler_get_public_key-KeyAnswer, read_path-tx_info,
}
use ledger_hardmail_app.Sign.{handler_sign_tx, init_transaction_context, continue_sign, request_of}
use ledger_hardmail_app.Sign.Chunks.{
  IsContext, zero_context-IsContext, IsContext-tx_info, Received, other_request, too_long, taken,
  accumulate_transaction_data-Received,
}
use ledger_hardmail_app.Sign.Process.{finish_sign-Finished}
use ledger_hardmail_app.Sign.Approvable.{IsApprovable, Finished, answered, displayed}
use ledger_hardmail_app.Tokens.{TlvOps}
use ledger_hardmail_app.Tokens.Lookup.{TlvLaws, handler_provide_token_info-Stored}
use ledger_hardmail_app.Dispatcher.{
  Command, IsPayload, Globals, Instruction, get_version, get_app_name, get_public_key, sign_tx,
  sign_token_tx, provide_token_info, unknown, instruction, buffer_of, with_context, with_token,
  sign, run_instruction, apdu_dispatcher, handler_get_version, handler_get_app_name, p2_more,
}

-- An answer, the review of an approvable context, or the review of an address.
pub data Answer (crypto : CryptoOps) : Context × Reply → Type 0 where
  responded :
      {c : Context} {bytes : Bytes} {sw : StatusWord}
      → IsContext c
      → Answer crypto (c, respond bytes sw)
  email_review :
      {c : Context} {pairs : List Pair}
      → IsContext c
      → IsApprovable crypto c pairs
      → Answer crypto (c, review pairs)
  key_review :
      {c : Context} {text : Bytes}
      → IsContext c
      → ShowsAddress crypto c text
      → Answer crypto (c, review_address text)

of_KeyAnswer : {crypto : CryptoOps} {r : Context × Reply} → KeyAnswer crypto r → Answer crypto r
of_KeyAnswer (replied h) = responded h
of_KeyAnswer (addressed h shows) = key_review h shows

of_Finished : {crypto : CryptoOps} {r : Context × Reply} → Finished crypto r → Answer crypto r
of_Finished (answered h) = responded h
of_Finished (displayed h ok) = email_review h ok

-- A command is answered: it returns, and with an answer of the kinds above.
abbrev pub Answered : CryptoOps → Option (Globals × Reply) → Type 0
Answered crypto o = (r : Globals × Reply) × (o ≡ some r) × Answer crypto (r.0.context, r.1)

if-Answered :
    {crypto : CryptoOps} (b : Bool) {x y : Option (Globals × Reply)}
    → Answered crypto x
    → Answered crypto y
    → Answered crypto (if b then x else y)
if-Answered true h k = h
if-Answered false h k = k

plain :
    {crypto : CryptoOps} (g : Globals) (bytes : Bytes) (sw : StatusWord)
    → IsContext g.context
    → Answered crypto (some (g, respond bytes sw))
plain g bytes sw h = ((g, respond bytes sw), refl, responded h)

-- A handler that needs the data of a command, and the answer to a command without.
pub with_data-cases :
    (P : Option (Globals × Reply) → Type 0) (g : Globals) (lc : ℕ) (data_in : Option Bytes)
    (handler : Buffer → Option (Globals × Reply))
    → P (some (g, send_sw swo_wrong_data_length))
    → IsPayload lc data_in
    → ((b : Buffer) → IsBuffer b → b.offset ≡ 0 → AllBytes (rest b) → P (handler b))
    → P (elim data_in [
      | none ↦ some (g, send_sw swo_wrong_data_length)
      | some bytes ↦ handler (buffer_of lc bytes)
    ])
with_data-cases P g lc none handler h ok k = h
with_data-cases P g lc (some bytes) handler h (n, all) k =
    k (buffer_of lc bytes) (record { in_memory = omega arith; in_buffer = omega arith }) refl
      (rw (take_all lc bytes (omega arith)) all)

module _ (ops : BufferOps) (laws : BufferLaws ops) (crypto : CryptoOps) (hexes : HexLaw crypto)
    (hashes : HashLaw crypto) where
  init_transaction_context-Answer :
      (cdata : Buffer) (r : RequestType) → Answer crypto (init_transaction_context ops cdata r)
  unfolding init_transaction_context
  init_transaction_context-Answer cdata r =
      let c : Context = record zero_context { req_type = r; state = state_none } in
      responded
        (IsContext-tx_info zero_context _ (read_path-tx_info ops cdata c) zero_context-IsContext)

  continue_sign-Answer :
      (more : Bool) (req_type : RequestType) (cdata : Buffer) (c : Context)
      {r : Context × StatusWord}
      → IsContext c
      → Received req_type cdata c r
      → (a : Context × Reply) × (continue_sign ops crypto more r ≡ some a) × Answer crypto a
  unfolding continue_sign
  continue_sign-Answer more req_type cdata c h (other_request e) = (_, refl, responded h)
  continue_sign-Answer more req_type cdata c h (too_long e long) = (_, refl, responded h)
  continue_sign-Answer true req_type cdata c h (taken e fits joined len kept ok) =
      (_, refl, responded ok)
  continue_sign-Answer false req_type cdata c h (taken {c'} e fits joined len kept ok) =
      let (a, ran, done) = finish_sign-Finished ops laws crypto hexes hashes c' ok in
      (a, ran, of_Finished done)

  handler_sign_tx-Answer :
      (cdata : Buffer) (chunk : ℕ) (more token : Bool) (c : Context)
      → IsContext c
      → IsBuffer cdata
      → cdata.offset ≡ 0
      → AllBytes (rest cdata)
      → (a : Context × Reply) × (handler_sign_tx ops crypto cdata chunk more token c ≡ some a)
        × Answer crypto a
  unfolding handler_sign_tx
  handler_sign_tx-Answer cdata chunk more token c h b z all = elim (Bool-cases (chunk == 0)) [
    | inl e ↦ (_, rw e refl, init_transaction_context-Answer cdata (request_of token))
    | inr e ↦
        let (a, ran, answer) =
          continue_sign-Answer more (request_of token) cdata c h
            (accumulate_transaction_data-Received ops laws cdata (request_of token) c h b z all) in
        (a, rw e ran, answer)
  ]

  module _ (tlv : TlvOps) (tokens : TlvLaws tlv) where
    sign-Answered :
        (g : Globals) (cmd : Command) (token : Bool)
        → IsContext g.context
        → IsPayload cmd.lc cmd.payload
        → Answered crypto (sign ops crypto tlv g cmd token)
    unfolding sign
    sign-Answered g cmd token h ok = if-Answered _ (plain g [] _ h) (
        with_data-cases (Answered crypto) g cmd.lc cmd.payload _ (plain g [] _ h) ok λ b held z all.
          let (a, ran, answer) =
            handler_sign_tx-Answer b cmd.p1 (cmd.p2 == p2_more) token g.context h held z all in
          (with_context g a, ap (λ o. o >>= λ r. some (with_context g r)) ran, answer))

    run_instruction-Answered :
        (i : Instruction) (g : Globals) (cmd : Command)
        → IsContext g.context
        → IsPayload cmd.lc cmd.payload
        → Answered crypto (run_instruction ops crypto tlv i g cmd)
    unfolding run_instruction handler_get_version handler_get_app_name
    run_instruction-Answered get_version g cmd h ok = if-Answered _ (plain g [] _ h) (plain g _ _ h)
    run_instruction-Answered get_app_name g cmd h ok =
        if-Answered _ (plain g [] _ h) (plain g _ _ h)
    run_instruction-Answered get_public_key g cmd h ok =
        let key_reply = λ (b : Buffer).
          with_context g (handler_get_public_key crypto ops b (not (cmd.p1 == 0))) in
        if-Answered _ (plain g [] _ h) (
          with_data-cases (Answered crypto) g cmd.lc cmd.payload (λ b. some (key_reply b))
            (plain g [] _ h) ok
            λ b held z all. (
              key_reply b,
              refl,
              of_KeyAnswer (handler_get_public_key-KeyAnswer crypto ops b (not (cmd.p1 == 0))),
            ))
    run_instruction-Answered sign_tx g cmd h ok = sign-Answered g cmd false h ok
    run_instruction-Answered sign_token_tx g cmd h ok = sign-Answered g cmd true h ok
    run_instruction-Answered provide_token_info g cmd h ok = if-Answered _ (plain g [] _ h) (
        with_data-cases (Answered crypto) g cmd.lc cmd.payload _ (plain g [] _ h) ok λ b held z all.
          let (r, ran, _) = handler_provide_token_info-Stored tlv tokens b in
          (with_token g r, ap (λ o. o >>= λ t. some (with_token g t)) ran, responded h))
    run_instruction-Answered unknown g cmd h ok = plain g [] _ h

    -- Every command is answered, whatever its bytes are and whatever came before: no read or write
    -- goes out of bounds, the context stays well-formed, and a review on the screen is of an
    -- approvable context or of the address of the key in the context.
    pub apdu_dispatcher-Answered :
        (g : Globals) (cmd : Command)
        → IsContext g.context
        → IsPayload cmd.lc cmd.payload
        → Answered crypto (apdu_dispatcher ops crypto tlv g cmd)
    unfolding apdu_dispatcher
    apdu_dispatcher-Answered g cmd h ok =
        if-Answered _ (plain g [] _ h) (run_instruction-Answered (instruction cmd.ins) g cmd h ok)
