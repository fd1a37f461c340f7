-- ===== src/Address/Keys.antt =====
-- The key that src/handler/get_public_key.c sends or shows.
use ledger_hardmail_app.Common.{
  ℕ, ◌+◌, ◌≤◌, ◌≡◌, refl, sym, ap, ◌∙◌, ◌%◌, ◌^◌, false, not, List, ◌∷◌, ◌++◌, arith, length, take,
  drop, write_at, take-take, take-append, drop-append, drop-take, take-write_at_start,
  write_at-append, drop-write_at_start, length-write_at, length-append, ◌==◌, if◌then◌else◌,
  Bool-cases, inl, inr, ==_iff,
}
use ledger_hardmail_app.Sdk.Buffers.{Bytes, Buffer, BufferOps}
use ledger_hardmail_app.Sdk.Crypto.{CryptoOps, KeyLaw}
use ledger_hardmail_app.Context.{
  Context, TxInfo, zero_context, max_transaction_len, state_none, confirm_address, raw_public_key,
  chain_code, write_public_key, write_chain_code, Reply, respond, send_sw, swo_success,
  swo_wrong_data_length, cx_error, length-zero_bytes,
}
use ledger_hardmail_app.Address.{
  read_path, derive_public_key, handler_get_public_key, helper_send_response_pubkey,
}
use ledger_hardmail_app.Address.Answers.{read_path-tx_info}

-- The answer to a request for a key: the compressed point and the chain code, each after its length,
-- or the error of the derivation or of the compression.
abbrev pub key_answer : CryptoOps → List ℕ → ℕ → Reply
key_answer crypto path n =
    let (error, key, code) = crypto.get_pubkey path n in
    let (compress_error, point) = crypto.compress_point key in
    if not (error == 0)
    then send_sw (cx_error (error % 2 ^ 16))
    else if not (compress_error == 0)
    then send_sw (cx_error (compress_error % 2 ^ 16))
    else respond (65 ∷ (point ++ 32 ∷ code)) swo_success

-- Two arrays put at the start of a larger one, behind each other.
two_arrays :
    (raw a b : Bytes) (p : ℕ)
    → length a ≡ p
    → p + length b ≤ length raw
    → (take p (write_at (write_at raw 0 a) p b) ≡ a)
      × (take (length b) (drop p (write_at (write_at raw 0 a) p b)) ≡ b)
two_arrays raw a b p n fits =
    let joined : write_at (write_at raw 0 a) p b ≡ write_at raw 0 (a ++ b) =
      ap (λ k. write_at (write_at raw 0 a) k b) (omega arith) ∙ write_at-append raw 0 a b in
    let whole : take (p + length b) (write_at raw 0 (a ++ b)) ≡ a ++ b =
      ap (λ k. take k (write_at raw 0 (a ++ b))) (omega (arith, length-append a b))
      ∙ take-write_at_start raw (a ++ b) (omega (arith, length-append a b)) in
    let arr = write_at raw 0 (a ++ b) in
    (
      ap (take p) joined
          ∙ sym (take-take p (p + length b) arr (omega arith))
          ∙ ap (take p) whole
          ∙ take-append p a b (sym n),
      ap (λ x. take (length b) (drop p x)) joined
          ∙ ap (λ k. take k (drop p arr)) (omega arith)
          ∙ sym (drop-take p (p + length b) arr)
          ∙ ap (drop p) whole
          ∙ drop-append p a b (sym n),
    )

module _ (crypto : CryptoOps) (keys : KeyLaw crypto) where
  -- What the key's arrays hold when the key is derived and compressed.
  pub compressed_lem :
      (c : Context)
      → length c.tx_info.raw_tx ≡ max_transaction_len
      → (crypto.get_pubkey c.bip32_path c.bip32_path_len).0 ≡ 0
      → let (error, key, code) = crypto.get_pubkey c.bip32_path c.bip32_path_len in
        let derived = write_chain_code code (write_public_key key c) in
        let compressed = write_public_key (crypto.compress_point key).1 derived in
        (raw_public_key derived ≡ key)
        × (raw_public_key compressed ≡ (crypto.compress_point key).1)
        × (chain_code compressed ≡ code)
  compressed_lem c size derives =
      let (error, key, code) = crypto.get_pubkey c.bip32_path c.bip32_path_len in
      let point = (crypto.compress_point key).1 in
      let raw = c.tx_info.raw_tx in
      let arr = write_at (write_at raw 0 key) 65 code in
      let n = keys.key_length c.bip32_path c.bip32_path_len derives in
      let m = keys.code_length c.bip32_path c.bip32_path_len derives in
      let k = keys.point_length key n in
      let (first, second) = two_arrays raw key code 65 n (omega (arith, size, m)) in
      let arr_size = length-write_at (write_at raw 0 key) 65 code ∙ length-write_at raw 0 key in
      (
        first,
        ap (λ j. take j (write_at arr 0 point)) (sym k)
            ∙ take-write_at_start arr point (omega (arith, size, arr_size, k)),
        ap (λ j. take 32 (drop j (write_at arr 0 point))) (sym k)
            ∙ ap (take 32) (drop-write_at_start arr point)
            ∙ ap (λ j. take 32 (drop j arr)) k
            ∙ ap (λ j. take j (drop 65 arr)) (sym m)
            ∙ second,
      )

  pub derive_public_key-answer :
      (c : Context)
      → length c.tx_info.raw_tx ≡ max_transaction_len
      → (derive_public_key crypto false c).1 ≡ key_answer crypto c.bip32_path c.bip32_path_len
  unfolding derive_public_key helper_send_response_pubkey
  derive_public_key-answer c size =
      let (error, key, code) = crypto.get_pubkey c.bip32_path c.bip32_path_len in
      elim (Bool-cases (error == 0)) [
        | inr e ↦ rw e refl
        | inl e ↦
            let (held, first, second) = compressed_lem c size ((==_iff error 0).0 e) in
            elim (Bool-cases ((crypto.compress_point key).0 == 0)) [
              | inr k ↦ rw (e, held, k) refl
              | inl k ↦ rw (e, held, k, first, second) refl
            ]
      ]

  -- A request for a key that is not shown is answered with the compressed public key and the chain code
  -- of the path that was read, 65 and 32 bytes each after its length, or with the error of the
  -- derivation or of the compression; a path that cannot be read, with SWO_WRONG_DATA_LENGTH.
  pub handler_get_public_key-key_answer :
      (ops : BufferOps) (cdata : Buffer)
      → let (ok, c) =
          read_path ops cdata
            (record zero_context { req_type = confirm_address; state = state_none }) in
        (handler_get_public_key crypto ops cdata false).1 ≡ (
          if ok
          then key_answer crypto c.bip32_path c.bip32_path_len
          else send_sw swo_wrong_data_length)
  unfolding handler_get_public_key
  handler_get_public_key-key_answer ops cdata =
      let start : Context = record zero_context {
        req_type = confirm_address;
        state = state_none;
      } in
      let (ok, c) = read_path ops cdata start in
      let kept = read_path-tx_info ops cdata start in
      let size : length c.tx_info.raw_tx ≡ max_transaction_len =
        ap (λ (t : TxInfo). length t.raw_tx) (sym kept) ∙ length-zero_bytes max_transaction_len in
      elim (Bool-cases ok) [ inr e ↦ rw e refl | inl e ↦ rw e (derive_public_key-answer c size) ]
