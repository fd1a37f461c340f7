-- ===== src/Overlap/Digest.antt =====
-- What the commands of src/apdu/dispatcher.c do to the hash in the context.
use ledger_hardmail_app.Common.{
  ◌≡◌, refl, sym, ap, ◌∙◌, Bool, true, false, not, ◌||◌, List, Option, none, some, if◌then◌else◌,
  Bool-cases, Option-cases, inl, inr, ◌==◌, ℕ, ltb, ◌+◌, arith, subst,
}
use ledger_hardmail_app.Sdk.Buffers.{Bytes, Buffer, IsBuffer, rest, BufferOps, BufferLaws}
use ledger_hardmail_app.Sdk.Crypto.{CryptoOps, HexLaw, HashLaw}
use ledger_hardmail_app.Email.{address_len}
use ledger_hardmail_app.Context.{
  Context, TxInfo, max_transaction_len, zero_context, zero_bytes, RequestType, confirm_address,
  confirm_transaction, is_request, is_state, state_none, Pair, Reply, review, StatusWord,
  raw_public_key, write_public_key, write_chain_code,
}
use ledger_hardmail_app.Wire.Reference.{reference}
use ledger_hardmail_app.Parser.Refinement.{status_of, transaction_deserialize-reference}
use ledger_hardmail_app.Parser.Correct.{Verdict-cases}
use ledger_hardmail_app.Address.{
  read_path, address_from_pubkey, ui_display_address, derive_public_key, handler_get_public_key,
}
use ledger_hardmail_app.Address.Answers.{read_path-tx_info}
use ledger_hardmail_app.Sign.{
  payload, payload_buffer, init_transaction_context, accumulate_transaction_data, finish_sign,
  continue_sign, handler_sign_tx,
}
use ledger_hardmail_app.Wire.{AllBytes}
use ledger_hardmail_app.Sign.Chunks.{
  IsContext, Received, other_request, too_long, taken, accumulate_transaction_data-Received,
}
use ledger_hardmail_app.Sign.Approvable.{is_request-cases, payload_buffer-IsBuffer}
use ledger_hardmail_app.Sign.Reviewed.{reviewed}
use ledger_hardmail_app.Sign.Process.{refuses}

abbrev pub hash_of : Context → Bytes
hash_of c = c.tx_info.m_hash

-- The hash after a step: the one before, cleared, or that of a new review.
pub data HashAfter {A : Type 0} (hash : A → Bytes) (before : Bytes)
    : Option (A × Reply) → Type 0 where
  keeps : {a : A} {reply : Reply} → hash a ≡ before → HashAfter hash before (some (a, reply))
  clears :
      {a : A} {reply : Reply} → hash a ≡ zero_bytes 32 → HashAfter hash before (some (a, reply))
  shows : {a : A} {pairs : List Pair} → HashAfter hash before (some (a, review pairs))
  faults : HashAfter hash before none

pub if-HashAfter :
    {A : Type 0} {hash : A → Bytes} {before : Bytes} (b : Bool) {x y : Option (A × Reply)}
    → HashAfter hash before x
    → HashAfter hash before y
    → HashAfter hash before (if b then x else y)
if-HashAfter true h k = h
if-HashAfter false h k = k

-- The same hash on both branches.
if-hash :
    {A : Type 0} (b : Bool) (x y : Context × A) (digest : Bytes)
    → hash_of x.0 ≡ digest
    → hash_of y.0 ≡ digest
    → hash_of (if b then x else y).0 ≡ digest
if-hash true x y digest h k = h
if-hash false x y digest h k = k

module _ (crypto : CryptoOps) where
  ui_display_address-hash : (c : Context) → hash_of (ui_display_address crypto c).0 ≡ hash_of c
  unfolding ui_display_address
  ui_display_address-hash c =
      elim (Bool-cases
        (not (is_request c.req_type confirm_address) || not (is_state c.state state_none))) [
          | inl e ↦ rw e refl
          | inr e ↦
              elim (Option-cases (address_from_pubkey crypto (raw_public_key c) address_len)) [
                | inl none_found ↦ rw (e, none_found) refl
                | inr (address, found) ↦ elim (Option-cases (crypto.format_hex address 43)) [
                  | inl bad ↦ rw (e, found, bad) refl
                  | inr (text, done) ↦ rw (e, found, done) refl
                ]
              ]
        ]

  derive_public_key-clear :
      (display : Bool) (c : Context)
      → hash_of c ≡ zero_bytes 32
      → hash_of (derive_public_key crypto display c).0 ≡ zero_bytes 32
  unfolding derive_public_key
  derive_public_key-clear display c h =
      let (error, key, code) = crypto.get_pubkey c.bip32_path c.bip32_path_len in
      let derived = write_chain_code code (write_public_key key c) in
      let (compress_error, point) = crypto.compress_point (raw_public_key derived) in
      let compressed = write_public_key point derived in
      if-hash (not (error == 0)) _ _ _ h (
        if-hash (not (compress_error == 0)) _ _ _ h
          (if-hash display _ _ _ (ui_display_address-hash compressed ∙ h) h))

  pub handler_get_public_key-clear :
      (ops : BufferOps) (cdata : Buffer) (display : Bool)
      → hash_of (handler_get_public_key crypto ops cdata display).0 ≡ zero_bytes 32
  unfolding handler_get_public_key
  handler_get_public_key-clear ops cdata display =
      let c : Context = record zero_context { req_type = confirm_address; state = state_none } in
      let kept : hash_of (read_path ops cdata c).1 ≡ zero_bytes 32 =
        sym (ap (λ (t : TxInfo). t.m_hash) (read_path-tx_info ops cdata c)) in
      let (ok, c1) = read_path ops cdata c in
      if-hash (not ok) _ _ _ kept (derive_public_key-clear display c1 kept)

module _ (ops : BufferOps) (laws : BufferLaws ops) (crypto : CryptoOps) (hexes : HexLaw crypto)
    (hashes : HashLaw crypto) where
  finish_sign-HashAfter :
      (c : Context)
      → IsContext c
      → c.req_type ≡ confirm_transaction
      → HashAfter hash_of (hash_of c) (finish_sign ops crypto c)
  finish_sign-HashAfter c h req = elim (Verdict-cases (reference (payload c))) [
    | inl (m, r, e) ↦
        let (p, returned, _) =
          transaction_deserialize-reference ops laws (payload_buffer c) c.tx_info.transaction
            (payload_buffer-IsBuffer c h) refl in
        let (displayed, _) =
          reviewed ops laws crypto hexes hashes c p h req
            (returned ∙ ap (λ v. some (status_of v, p)) e) in
        rw displayed shows
    | inr (e, q) ↦
        let (p, ran) = refuses ops laws crypto hexes hashes c e h q in rw ran (keeps refl)
  ]

  accumulate_transaction_data-hash :
      (cdata : Buffer) (req_type : RequestType) (c : Context)
      → hash_of (accumulate_transaction_data ops cdata req_type c).0 ≡ hash_of c
  unfolding accumulate_transaction_data
  accumulate_transaction_data-hash cdata req_type c =
      elim (Bool-cases (is_request c.req_type req_type)) [
        | inr other ↦ rw other refl
        | inl same ↦
            elim (Bool-cases (ltb max_transaction_len (c.tx_info.raw_tx_len + cdata.size))) [
              | inl long ↦ rw (same, long) refl
              | inr fits ↦ elim (Bool-cases (ops.move cdata cdata.size).0) [
                | inl moved ↦ rw (same, fits, moved) refl
                | inr stuck ↦ rw (same, fits, stuck) refl
              ]
            ]
      ]

  continue_sign-HashAfter :
      (more : Bool) (cdata : Buffer) (c : Context) {r : Context × StatusWord}
      → IsContext c
      → Received confirm_transaction cdata c r
      → hash_of r.0 ≡ hash_of c
      → HashAfter hash_of (hash_of c) (continue_sign ops crypto more r)
  unfolding continue_sign
  continue_sign-HashAfter more cdata c h (other_request e) same = keeps refl
  continue_sign-HashAfter more cdata c h (too_long e long) same = keeps refl
  continue_sign-HashAfter true cdata c h (taken e fits joined len kept ok) same = keeps same
  continue_sign-HashAfter false cdata c h (taken {c'} e fits joined len kept ok) same =
      elim (is_request-cases c.req_type) [
        | inl req ↦
            subst (λ digest. HashAfter hash_of digest (finish_sign ops crypto c')) same
              (finish_sign-HashAfter c' ok (kept ∙ req))
        | inr other ↦ absurd (ground (arith, e, other))
      ]

  -- A chunk of an email request keeps the hash, clears it, or leads to a review.
  pub handler_sign_tx-HashAfter :
      (cdata : Buffer) (chunk : ℕ) (more : Bool) (c : Context)
      → IsContext c
      → IsBuffer cdata
      → cdata.offset ≡ 0
      → AllBytes (rest cdata)
      → HashAfter hash_of (hash_of c) (handler_sign_tx ops crypto cdata chunk more false c)
  unfolding handler_sign_tx init_transaction_context
  handler_sign_tx-HashAfter cdata chunk more c h b z all =
      let start : Context = record zero_context {
        req_type = confirm_transaction;
        state = state_none;
      } in
      if-HashAfter (chunk == 0)
        (clears (sym (ap (λ (t : TxInfo). t.m_hash) (read_path-tx_info ops cdata start))))
        (continue_sign-HashAfter more cdata c h
          (accumulate_transaction_data-Received ops laws cdata confirm_transaction c h b z all)
          (accumulate_transaction_data-hash cdata confirm_transaction c))
