-- ===== src/Overlap/Unshown.antt =====
-- A message that src/handler/sign_tx.c parses for SIGN_TOKEN_TX while the review of an email waits.
use ledger_hardmail_app.Common.{
  ◌≡◌, ◌≤◌, ◌∙◌, refl, sym, ap, true, false, List, [], ◌++◌, some, arith, length, ◌>>=◌, take_all,
}
use ledger_hardmail_app.Sdk.Buffers.{Bytes, rest, BufferOps, BufferLaws}
use ledger_hardmail_app.Sdk.Crypto.{CryptoOps, HexLaw, HashLaw, SignLaw}
use ledger_hardmail_app.Wire.{AllBytes, Message, IsValid, encode}
use ledger_hardmail_app.Context.{
  Context, TxInfo, zero_context, confirm_transaction, confirm_token_transaction, is_request,
  state_none, Pair, Reply, send_sw, swo_conditions_not_satisfied,
}
use ledger_hardmail_app.Address.{read_path}
use ledger_hardmail_app.Address.Answers.{read_path-tx_info, read_path-req_type}
use ledger_hardmail_app.Sign.{payload, init_transaction_context, continue_sign, handler_sign_tx}
use ledger_hardmail_app.Sign.Chunks.{
  IsContext, IsContext-tx_info, zero_context-IsContext, accumulate_transaction_data-append,
}
use ledger_hardmail_app.Sign.Gather.{chunk_buffer}
use ledger_hardmail_app.Sign.Reviewed.{ready, ready-IsContext}
use ledger_hardmail_app.Sign.Process.{hides_message}
use ledger_hardmail_app.Validate.Choice.{signature_reply, validate_transaction-approve}
use ledger_hardmail_app.Tokens.{TlvOps}
use ledger_hardmail_app.Dispatcher.{Command, with_context, sign, run_instruction, apdu_dispatcher}
use ledger_hardmail_app.Device.{transaction_review, Device, device_of, review_choice}
use ledger_hardmail_app.Overlap.{device_over, receive_over}
use ledger_hardmail_app.Overlap.Digest.{hash_of}

-- SIGN_TOKEN_TX with a path, and with a payload in one chunk.
abbrev pub token_path : Bytes → Command
token_path path = record {
  cla = 0xe0;
  ins = 0x07;
  p1 = 0x00;
  p2 = 0x80;
  lc = length path;
  payload = some path;
}

abbrev pub token_payload : Bytes → Command
token_payload bytes = record {
  cla = 0xe0;
  ins = 0x07;
  p1 = 0x01;
  p2 = 0x00;
  lc = length bytes;
  payload = some bytes;
}

module _ (ops : BufferOps) (laws : BufferLaws ops) (crypto : CryptoOps) (hexes : HexLaw crypto)
    (hashes : HashLaw crypto) where
  -- The context after the path.
  abbrev started : Bytes → Context
  started path =
      (read_path ops (chunk_buffer path)
        (record zero_context { req_type = confirm_token_transaction; state = state_none })).1

  -- The message is hashed and not shown.
  hashed :
      (path : Bytes) (m : Message)
      → IsValid m
      → AllBytes (encode m)
      → length (encode m) ≤ 255
      → (c : Context) × (handler_sign_tx ops crypto
            (chunk_buffer (encode m))
            1
            false
            true
            (started path)
          ≡ some (c, send_sw swo_conditions_not_satisfied))
        × (hash_of c ≡ (crypto.hash_sha256 (encode m)).1)
        × IsContext c
  unfolding handler_sign_tx continue_sign
  hashed path m valid all short =
      let start : Context = record zero_context {
        req_type = confirm_token_transaction;
        state = state_none;
      } in
      let c = started path in
      let kept = read_path-tx_info ops (chunk_buffer path) start in
      let req : c.req_type ≡ confirm_token_transaction =
        read_path-req_type ops (chunk_buffer path) start in
      let h : IsContext c = IsContext-tx_info zero_context c kept zero_context-IsContext in
      let none_yet : c.tx_info.raw_tx_len ≡ 0 = sym (ap (λ (t : TxInfo). t.raw_tx_len) kept) in
      let empty : payload c ≡ [] = rw none_yet refl in
      let bytes : rest (chunk_buffer (encode m)) ≡ encode m =
        take_all (length (encode m)) (encode m) (omega arith) in
      let (c2, ran, joined, _, kept2, h2) =
        accumulate_transaction_data-append ops laws (chunk_buffer (encode m))
          confirm_token_transaction c h
          (record { in_memory = omega arith; in_buffer = omega arith }) refl (rw bytes all)
          (rw req refl) (omega (arith, none_yet)) in
      let received : payload c2 ≡ encode m =
        joined ∙ ap (λ p. p ++ rest (chunk_buffer (encode m))) empty ∙ bytes in
      let other : is_request c2.req_type confirm_transaction ≡ false = rw (kept2, req) refl in
      let (p, done) = hides_message ops laws crypto hexes hashes c2 m h2 other valid received in
      (
        record (ready crypto c2 p) { state = state_none },
        rw (ran, done) refl,
        ap (λ bs. (crypto.hash_sha256 bs).1) received,
        IsContext-tx_info (ready crypto c2 p) _ refl (ready-IsContext crypto c2 p h2),
      )

  module _ (signs : SignLaw crypto) (tlv : TlvOps) where
    -- Nothing in the app itself holds SIGN_TOKEN_TX back while the review of an email waits. Its path
    -- and then an allowed message in one chunk are answered, the second with
    -- SWO_CONDITIONS_NOT_SATISFIED; the first review is still on the screen, and its approval is
    -- answered with the signature of the message that was never shown.
    pub over-unshown :
        (d : Device) (pairs : List Pair) (path : Bytes) (m : Message)
        → d.screen ≡ transaction_review pairs
        → IsValid m
        → AllBytes (encode m)
        → length (encode m) ≤ 255
        → (d1 : Device) × (d2 : Device) × (d3 : Device) × (reply : Reply) × (receive_over ops crypto
              tlv d
              (some (token_path path))
            ≡ some (d1, reply))
          × (receive_over ops crypto tlv d1 (some (token_payload (encode m)))
              ≡ some (d2, send_sw swo_conditions_not_satisfied))
          × (d2.screen ≡ transaction_review pairs)
          × (review_choice ops crypto tlv d2 true
              ≡ some (
                d3,
                signature_reply crypto d2.globals.context.bip32_path
                    d2.globals.context.bip32_path_len
                    (crypto.hash_sha256 (encode m)).1,
              ))
    unfolding receive_over apdu_dispatcher run_instruction sign handler_sign_tx
        init_transaction_context review_choice
    over-unshown d pairs path m e valid all short =
        let (c, ran, digest, h) = hashed path m valid all short in
        let g1 = record (d.globals) { context = started path } in
        let d1 : Device = record { globals = g1; screen = d.screen } in
        let d2 : Device = record { globals = record g1 { context = c }; screen = d.screen } in
        let (c3, signed, _, _, _) = validate_transaction-approve crypto signs c h in
        let d3 : Device =
          (device_of (
            with_context d2.globals
              (c3, signature_reply crypto c.bip32_path c.bip32_path_len (hash_of c)))).0 in
        (
          d1,
          d2,
          d3,
          _,
          refl,
          ap (λ o. (o >>= λ r. some (with_context g1 r)) >>= λ r. some (device_over d.screen r))
              ran,
          e,
          rw e (ap (λ o. o >>= λ r. some (device_of (with_context d2.globals r))) signed)
              ∙ ap (λ bs. some (d3, signature_reply crypto c.bip32_path c.bip32_path_len bs))
                  digest,
        )
