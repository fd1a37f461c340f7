-- ===== src/Swap/Signing.antt =====
-- How a swap comes to a signature: src/handler/sign_tx.c with src/swap/handle_swap_sign_transaction.c.
use ledger_hardmail_app.Common.{
  ℕ, ◌≡◌, refl, sym, ap, ◌∙◌, subst, true, false, some, inl, inr, ◌>>=◌, arith, Bool-cases,
  bind-some, some_eq, otherwise,
}
use ledger_hardmail_app.Sdk.Buffers.{BufferOps}
use ledger_hardmail_app.Sdk.Crypto.{CryptoOps}
use ledger_hardmail_app.Email.{Status, parsing_ok}
use ledger_hardmail_app.Parser.{Parser, transaction_deserialize}
use ledger_hardmail_app.Context.{Context, Reply, StatusWord}
use ledger_hardmail_app.Sign.{
  payload, payload_buffer, set_parsed, set_hash, is_success, hash_parsed, process_transaction,
}
use ledger_hardmail_app.Sign.Reviewed.{ready}
use ledger_hardmail_app.Validate.{validate_transaction}
use ledger_hardmail_app.Tokens.{TokenInfo}
use ledger_hardmail_app.Swap.{
  SwapGlobals, Validity, matches, mismatch, SwapEnd, double_signing, signed, swap_check_validity,
  sign_if_matches, check_and_sign_swap_tx, finish_swap,
}

abbrev pub signing : SwapGlobals → Context → SwapGlobals
signing g c = record g { response_ready = true; globals = record (g.globals) { context = c } }

signed_eq : (x y : Reply) → signed x ≡ signed y → x ≡ y
signed_eq x y h = ground (arith, h)

-- The globals when the payload is parsed and hashed.
abbrev pub with_ready : CryptoOps → SwapGlobals → Parser → SwapGlobals
with_ready crypto g p = record g {
  globals = record (g.globals) { context = ready crypto g.globals.context p };
}

module _ (crypto : CryptoOps) where
  sign_if_matches-signed :
      (g g' : SwapGlobals) (v : Validity) (reply : Reply)
      → sign_if_matches crypto g v ≡ some (g', signed reply)
      → (v ≡ matches)
        × (c : Context) × (validate_transaction crypto true g.globals.context ≡ some (c, reply))
        × (g' ≡ record g { globals = record (g.globals) { context = c } })
  unfolding sign_if_matches
  sign_if_matches-signed g g' (mismatch error) reply ran = absurd (ground (arith, ran))
  sign_if_matches-signed g g' matches reply ran =
      let ((c, answer), validated, made) =
        bind-some (validate_transaction crypto true g.globals.context) _ (g', signed reply) ran in
      let same = some_eq _ _ made in
      let sent : answer ≡ reply =
        signed_eq answer reply (ap (λ (x : SwapGlobals × SwapEnd). x.1) same) in
      (
        refl,
        c,
        validated ∙ ap (λ x. some (c, x)) sent,
        sym (ap (λ (x : SwapGlobals × SwapEnd). x.0) same),
      )

  pub check_and_sign-signed :
      (g g' : SwapGlobals) (value fee : ℕ) (token_info : TokenInfo) (reply : Reply)
      → check_and_sign_swap_tx crypto g value fee token_info ≡ some (g', signed reply)
      → (g.response_ready ≡ false)
        × (swap_check_validity crypto
              (record g { response_ready = true })
              value
              fee
              g.globals.context.tx_info.transaction.to
              token_info
            ≡ some matches)
        × (c : Context) × (validate_transaction crypto true g.globals.context ≡ some (c, reply))
        × (g' ≡ signing g c)
  unfolding check_and_sign_swap_tx
  check_and_sign-signed g g' value fee token_info reply ran =
      let going = record g { response_ready = true } in
      let check =
        swap_check_validity crypto going value fee g.globals.context.tx_info.transaction.to
          token_info in
      let (not_ready, ran1) =
        otherwise g.response_ready (some (g, double_signing))
          (check >>= λ v. sign_if_matches crypto going v) (some (g', signed reply))
          (λ e. ground (arith, e)) ran in
      let (v, checked, ran2) =
        bind-some check (λ v. sign_if_matches crypto going v) (g', signed reply) ran1 in
      let (same, c, validated, made) = sign_if_matches-signed going g' v reply ran2 in
      (not_ready, checked ∙ ap some same, c, validated, made)

  hashed :
      (ops : BufferOps) (status : Status) (c c' : Context) (sw : StatusWord)
      → hash_parsed ops crypto status c ≡ (c', sw)
      → is_success sw ≡ true
      → (status ≡ parsing_ok) × (c' ≡ set_hash c (crypto.hash_sha256 (payload c)).1)
  unfolding hash_parsed
  hashed ops parsing_ok c c' sw e ok = (refl, sym (ap (λ (x : Context × StatusWord). x.0) e))
  hashed ops _ c c' sw e ok =
      absurd (ground (arith, ap (λ (x : Context × StatusWord). is_success x.1) e, ok))

  processed :
      (ops : BufferOps) (c c' : Context) (sw : StatusWord)
      → process_transaction ops crypto c ≡ some (c', sw)
      → is_success sw ≡ true
      → (p : Parser) × (transaction_deserialize ops (payload_buffer c) c.tx_info.transaction
          ≡ some (parsing_ok, p))
        × (c' ≡ ready crypto c p)
  unfolding process_transaction
  processed ops c c' sw ran ok =
      let ((status, p), parsed, made) =
        bind-some (transaction_deserialize ops (payload_buffer c) c.tx_info.transaction) _ (c', sw)
          ran in
      let (status_ok, kept) = hashed ops status (set_parsed c p) c' sw (some_eq _ _ made) ok in
      (p, parsed ∙ ap (λ e. some (e, p)) status_ok, kept)

  pub finish_swap-processed :
      (ops : BufferOps) (g g' : SwapGlobals) (value fee : ℕ) (token_info : TokenInfo)
      (reply : Reply)
      → finish_swap crypto ops g value fee token_info ≡ some (g', signed reply)
      → (p : Parser) × (transaction_deserialize ops
            (payload_buffer g.globals.context)
            g.globals.context.tx_info.transaction
          ≡ some (parsing_ok, p))
        × (check_and_sign_swap_tx crypto (with_ready crypto g p) value fee token_info
            ≡ some (g', signed reply))
  unfolding finish_swap
  finish_swap-processed ops g g' value fee token_info reply ran =
      let ((c, sw), processed_c, ran1) =
        bind-some (process_transaction ops crypto g.globals.context) _ (g', signed reply) ran in
      elim (Bool-cases (is_success sw)) [
        | inr e ↦ absurd (ground (arith, rw e at ran1))
        | inl e ↦
            let (p, parsed, made) = processed ops g.globals.context c sw processed_c e in
            (
              p,
              parsed,
              subst
                  (λ x.
                    check_and_sign_swap_tx crypto
                      (record g { globals = record (g.globals) { context = x } }) value fee
                      token_info
                    ≡ some (g', signed reply))
                  made (rw e at ran1),
            )
      ]
