-- ===== src/Machine/Choices.antt =====
-- The user's choice of src/ui/action/validate.c and the session.
use ledger_hardmail_app.Common.{
  ◌≡◌, refl, sym, ap, subst, ◌∙◌, Bool, true, false, not, Option, none, some, if◌then◌else◌, ◌>>=◌,
  ◌==◌, arith, inl, inr, Bool-cases, some_eq,
}
use ledger_hardmail_app.Sdk.Buffers.{BufferOps, BufferLaws}
use ledger_hardmail_app.Sdk.Crypto.{CryptoOps, HexLaw, HashLaw, SignLaw}
use ledger_hardmail_app.Wire.{Message, encode}
use ledger_hardmail_app.Context.{
  Context, Reply, send_sw, state_approved, swo_conditions_not_satisfied,
}
use ledger_hardmail_app.Sign.Chunks.{IsContext}
use ledger_hardmail_app.Validate.{
  validate_transaction, crypto_sign_message, helper_send_response_sig,
}
use ledger_hardmail_app.Validate.Choice.{signature_reply, choice_reply, validate_transaction_lem}
use ledger_hardmail_app.Machine.{shown_of, signer_of}
use ledger_hardmail_app.Machine.Stands.{Implements, session_of, implemented}

-- A choice leaves the request and its path as they are.
record KeepsRequest (c c' : Context) : Type 0 where
  same_request : c'.req_type ≡ c.req_type
  same_path : c'.bip32_path ≡ c.bip32_path
  same_len : c'.bip32_path_len ≡ c.bip32_path_len

data Keeps (c : Context) : Option (Context × Reply) → Type 0 where
  returns : {c' : Context} {reply : Reply} → KeepsRequest c c' → Keeps c (some (c', reply))
  faults : Keeps c none

if-Keeps :
    {c : Context} (b : Bool) {x y : Option (Context × Reply)}
    → Keeps c x
    → Keeps c y
    → Keeps c (if b then x else y)
if-Keeps true h k = h
if-Keeps false h k = k

answer-Keeps :
    (c c' : Context) (o : Option Reply)
    → KeepsRequest c c'
    → Keeps c (o >>= λ reply. some (c', reply))
answer-Keeps c c' none h = faults
answer-Keeps c c' (some reply) h = returns h

result-Keeps :
    {c : Context} {o : Option (Context × Reply)} (c' : Context) (reply : Reply)
    → Keeps c o
    → o ≡ some (c', reply)
    → KeepsRequest c c'
result-Keeps {c} c' reply (returns {c' = c1} {reply = r1} h) e =
    subst (λ (z : Context × Reply). KeepsRequest c z.0) (some_eq _ (c', reply) e) h
result-Keeps c' reply faults e = absurd (ground (arith, e))

crypto_sign_message-KeepsRequest :
    (crypto : CryptoOps) (c : Context) → KeepsRequest c (crypto_sign_message crypto c).1
unfolding crypto_sign_message
crypto_sign_message-KeepsRequest crypto c =
    elim (Bool-cases ((crypto.eddsa_sign c.bip32_path c.bip32_path_len c.tx_info.m_hash).0 == 0)) [
      | inl e ↦ rw e (record { same_request = refl; same_path = refl; same_len = refl })
      | inr e ↦ rw e (record { same_request = refl; same_path = refl; same_len = refl })
    ]

validate_transaction-Keeps :
    (crypto : CryptoOps) (confirm : Bool) (c : Context)
    → Keeps c (validate_transaction crypto confirm c)
unfolding validate_transaction
validate_transaction-Keeps crypto confirm c =
    let approving : Context = record c { state = state_approved } in
    let h = crypto_sign_message-KeepsRequest crypto approving in
    let (signed, c1) = crypto_sign_message crypto approving in
    let kept : KeepsRequest c c1 = record {
      same_request = h.same_request;
      same_path = h.same_path;
      same_len = h.same_len;
    } in
    if-Keeps (not confirm)
      (returns (record { same_request = refl; same_path = refl; same_len = refl }))
      (if-Keeps (not signed)
        (returns (record {
          same_request = h.same_request;
          same_path = h.same_path;
          same_len = h.same_len;
        }))
        (answer-Keeps c c1 (helper_send_response_sig c1) kept))

nothing_shown :
    (crypto : CryptoOps) (confirm : Bool) (c : Context)
    → shown_of (choice_reply crypto confirm c) ≡ none
nothing_shown crypto false c = refl
nothing_shown crypto true c =
    elim (Bool-cases ((crypto.eddsa_sign c.bip32_path c.bip32_path_len c.tx_info.m_hash).0 == 0)) [
      | inl e ↦ rw e refl
      | inr e ↦ rw e refl
    ]

module _ (ops : BufferOps) (laws : BufferLaws ops) (crypto : CryptoOps) (hexes : HexLaw crypto)
    (hashes : HashLaw crypto) (signs : SignLaw crypto) where
  pub choice_made :
      (confirm : Bool) (c : Context) (m : Message)
      → IsContext c
      → c.tx_info.m_hash ≡ (crypto.hash_sha256 (encode m)).1
      → Implements crypto (validate_transaction crypto confirm c >>= λ r. some (signer_of r)) (
        session_of c none,
        some (
            if confirm
            then signature_reply crypto c.bip32_path c.bip32_path_len
                (crypto.hash_sha256 (encode m)).1
            else send_sw swo_conditions_not_satisfied),
      )
  choice_made confirm c m h digest =
      let (c', ran, _, kept, well) = validate_transaction_lem crypto signs confirm c h in
      let same = result-Keeps c' _ (validate_transaction-Keeps crypto confirm c) ran in
      let a : session_of c' none ≡ session_of c none =
        ground (arith, kept, same.same_request, same.same_path, same.same_len) in
      let reply : choice_reply crypto confirm c ≡ (
          if confirm
          then signature_reply crypto c.bip32_path c.bip32_path_len
              (crypto.hash_sha256 (encode m)).1
          else send_sw swo_conditions_not_satisfied) =
        ap
          (λ bs.
            if confirm
            then signature_reply crypto c.bip32_path c.bip32_path_len bs
            else send_sw swo_conditions_not_satisfied)
          digest in
      implemented crypto _ _ _ (session_of c' none, some (choice_reply crypto confirm c)) ran
        (ap (λ r. (session_of c none, some r)) (sym reply)
          ∙ ap (λ b. (b, some (choice_reply crypto confirm c))) (sym a))
        (
          record { context = c'; shown = shown_of (choice_reply crypto confirm c) },
          refl,
          record {
            well = well;
            request = refl;
            received = refl;
            path = refl;
            path_len = refl;
            pending = rw (nothing_shown crypto confirm c) tt;
          },
        )
