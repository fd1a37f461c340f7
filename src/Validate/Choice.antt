-- ===== src/Validate/Choice.antt =====
-- What the user's choice on a review leads to, in src/ui/action/validate.c.
use ledger_hardmail_app.Common.{
  Bool, ℕ, ◌%◌, ◌≡◌, refl, sym, ap, ◌∙◌, true, false, List, [], ◌∷◌, ◌++◌, some, arith, take, ◌==◌,
  if◌then◌else◌, write_at, take-write_at_start, length-write_at, Bool-cases, inl, inr, ==_iff,
}
use ledger_hardmail_app.Sdk.Buffers.{Bytes}
use ledger_hardmail_app.Sdk.Crypto.{CryptoOps, SignLaw}
use ledger_hardmail_app.Context.{
  Context, State, state_none, state_approved, Reply, respond, send_sw, swo_success,
  swo_security_issue, swo_conditions_not_satisfied,
}
use ledger_hardmail_app.Sign.Chunks.{IsContext, IsContext-tx_info}
use ledger_hardmail_app.Sign.{payload}
use ledger_hardmail_app.Validate.{
  helper_send_response_sig, crypto_sign_message, validate_transaction,
}

-- The answer to an approval: the length, the signature of the digest and a zero, or the error.
abbrev pub signature_reply : CryptoOps → List ℕ → ℕ → Bytes → Reply
signature_reply crypto path n digest =
    if (crypto.eddsa_sign path n digest).0 == 0
    then respond (64 ∷ ((crypto.eddsa_sign path n digest).1 ++ 0 ∷ [])) swo_success
    else send_sw swo_security_issue

-- The answer to a choice, and the state that it leaves.
abbrev pub choice_reply : CryptoOps → Bool → Context → Reply
choice_reply crypto choice c =
    if choice
    then signature_reply crypto c.bip32_path c.bip32_path_len c.tx_info.m_hash
    else send_sw swo_conditions_not_satisfied

abbrev pub choice_state : CryptoOps → Bool → Context → State
choice_state crypto choice c =
    if choice
    then (if (crypto.eddsa_sign c.bip32_path c.bip32_path_len c.tx_info.m_hash).0 == 0
        then state_approved
        else state_none)
    else state_none

module _ (crypto : CryptoOps) (signs : SignLaw crypto) where
  -- The context after an approval: approved with the signature stored, or none.
  abbrev signed_context : Context → Context
  signed_context c = record c {
    state = state_approved;
    tx_info = record (c.tx_info) {
      signature =
          write_at c.tx_info.signature 0
            (crypto.eddsa_sign c.bip32_path c.bip32_path_len c.tx_info.m_hash).1;
      signature_len = (crypto.eddsa_sign c.bip32_path c.bip32_path_len c.tx_info.m_hash).2 % 256;
      v = 0;
    };
  }

  signed_context-IsContext : (c : Context) → IsContext c → IsContext (signed_context c)
  signed_context-IsContext c h = record {
    raw_size = h.raw_size;
    raw_fits = h.raw_fits;
    raw_bytes = h.raw_bytes;
    signature_size = length-write_at _ _ _ ∙ h.signature_size;
  }

  -- An approval is answered with the signature of the hash in the context, by the key of its path,
  -- or with SWO_SECURITY_ISSUE if signing failed; only a signature leaves the state approved.
  pub validate_transaction-approve :
      (c : Context)
      → IsContext c
      → (c' : Context) × (validate_transaction crypto true c
          ≡ some (c', signature_reply crypto c.bip32_path c.bip32_path_len c.tx_info.m_hash))
        × (c'.state ≡ (
            if (crypto.eddsa_sign c.bip32_path c.bip32_path_len c.tx_info.m_hash).0 == 0
            then state_approved
            else state_none))
        × (payload c' ≡ payload c)
        × IsContext c'
  unfolding validate_transaction crypto_sign_message helper_send_response_sig
  validate_transaction-approve c h =
      elim (Bool-cases
        ((crypto.eddsa_sign c.bip32_path c.bip32_path_len c.tx_info.m_hash).0 == 0)) [
          | inl e ↦
              let (bytes_64, len_64) =
                signs.signed_length c.bip32_path c.bip32_path_len c.tx_info.m_hash
                  ((==_iff _ _).0 e) in
              let bytes = (crypto.eddsa_sign c.bip32_path c.bip32_path_len c.tx_info.m_hash).1 in
              let stored : take 64 (write_at c.tx_info.signature 0 bytes) ≡ bytes =
                ap (λ k. take k (write_at c.tx_info.signature 0 bytes)) (sym bytes_64)
                ∙ take-write_at_start c.tx_info.signature bytes
                    (omega (arith, bytes_64, h.signature_size)) in
              (
                signed_context c,
                rw (e, len_64, stored) refl,
                rw e refl,
                refl,
                signed_context-IsContext c h,
              )
          | inr e ↦ (
            record c {
              state = state_none;
              tx_info = record (c.tx_info) {
                signature =
                    write_at c.tx_info.signature 0
                      (crypto.eddsa_sign c.bip32_path c.bip32_path_len c.tx_info.m_hash).1;
              };
            },
            rw e refl,
            rw e refl,
            refl,
            record {
              raw_size = h.raw_size;
              raw_fits = h.raw_fits;
              raw_bytes = h.raw_bytes;
              signature_size = length-write_at _ _ _ ∙ h.signature_size;
            },
          )
        ]

  -- A rejection is answered with SWO_CONDITIONS_NOT_SATISFIED, and nothing is signed.
  pub validate_transaction-reject :
      (c : Context)
      → validate_transaction crypto false c
        ≡ some (record c { state = state_none }, send_sw swo_conditions_not_satisfied)
  unfolding validate_transaction
  validate_transaction-reject c = refl

  -- The user's choice, on every branch. An approval is answered with the 64-byte signature of the hash
  -- in the context by the key of its path, and leaves the state approved; where signing fails, and on
  -- a rejection, the answer is the status word for it and there is no state. The payload is kept.
  pub validate_transaction_lem :
      (choice : Bool) (c : Context)
      → IsContext c
      → (c' : Context) × (validate_transaction crypto choice c
          ≡ some (c', choice_reply crypto choice c))
        × (c'.state ≡ choice_state crypto choice c)
        × (payload c' ≡ payload c)
        × IsContext c'
  validate_transaction_lem true c h = validate_transaction-approve c h
  validate_transaction_lem false c h = (
    record c { state = state_none },
    validate_transaction-reject c,
    refl,
    refl,
    IsContext-tx_info c _ refl h,
  )
