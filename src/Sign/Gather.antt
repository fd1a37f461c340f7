-- ===== src/Sign/Gather.antt =====
-- The chunks that src/handler/sign_tx.c receives, one after the other.
use ledger_hardmail_app.Common.{
  ◌+◌, ◌≤◌, ◌≡◌, refl, sym, ap, ◌∙◌, Bool, true, List, [], ◌∷◌, ◌++◌, append-nil, append_assoc,
  Option, none, some, arith, length, length-append, take_all, ◌>>=◌,
}
use ledger_hardmail_app.Sdk.Buffers.{Bytes, Buffer, IsBuffer, rest, BufferOps, BufferLaws}
use ledger_hardmail_app.Sdk.Crypto.{CryptoOps}
use ledger_hardmail_app.Wire.{AllBytes}
use ledger_hardmail_app.Context.{
  Context, RequestType, is_request, max_transaction_len, swo_success, confirm_address,
  confirm_transaction, confirm_token_transaction, respond,
}
use ledger_hardmail_app.Sign.{payload, handler_sign_tx, request_of, continue_sign}
use ledger_hardmail_app.Sign.Chunks.{IsContext, accumulate_transaction_data-append}

is_request_refl : (r : RequestType) → is_request r r ≡ true
is_request_refl confirm_address = refl
is_request_refl confirm_transaction = refl
is_request_refl confirm_token_transaction = refl

abbrev pub chunk_buffer : Bytes → Buffer
chunk_buffer bytes = record { ptr = bytes; size = length bytes; offset = 0 }

-- The chunks of a payload before the last one, sent one after the other as chunks that are not the
-- first and with more to come; the run ends at the first answer that is not a success.
unfoldable pub send_chunks : BufferOps → CryptoOps → Bool → List Bytes → Context → Option Context
send_chunks ops crypto token [] c = some c
send_chunks ops crypto token (bytes ∷ more) c = do
  (c', reply) ← handler_sign_tx ops crypto (chunk_buffer bytes) 1 true token c
  elim reply [ respond [] swo_success ↦ send_chunks ops crypto token more c' | _ ↦ none ]

abbrev pub concat : List Bytes → Bytes
concat [] = []
concat (bytes ∷ more) = bytes ++ concat more

abbrev pub AllChunks : List Bytes → Type 0
AllChunks [] = Unit {0}
AllChunks (bytes ∷ more) = AllBytes bytes × AllChunks more

module _ (ops : BufferOps) (laws : BufferLaws ops) (crypto : CryptoOps) where
  -- Chunks of the request that are together within the limit are all answered with a success, and
  -- leave behind the payload so far their bytes, in the order sent.
  pub handler_sign_tx-send_chunks :
      (token : Bool) (chunks : List Bytes) (c : Context)
      → IsContext c
      → c.req_type ≡ request_of token
      → AllChunks chunks
      → c.tx_info.raw_tx_len + length (concat chunks) ≤ max_transaction_len
      → (c' : Context) × (send_chunks ops crypto token chunks c ≡ some c')
        × (payload c' ≡ payload c ++ concat chunks)
        × (c'.req_type ≡ c.req_type)
        × IsContext c'
  unfolding send_chunks handler_sign_tx continue_sign
  handler_sign_tx-send_chunks token [] c h same all fits = (c, refl, sym (append-nil _), refl, h)
  handler_sign_tx-send_chunks token (bytes ∷ more) c h same (here, all) fits =
      let n = length-append bytes (concat more) in
      let held : IsBuffer (chunk_buffer bytes) = record {
        in_memory = omega arith;
        in_buffer = omega arith;
      } in
      let left : rest (chunk_buffer bytes) ≡ bytes = take_all (length bytes) bytes (omega arith) in
      let (c1, ran, joined, len, kept, h1) =
        accumulate_transaction_data-append ops laws (chunk_buffer bytes) (request_of token) c h held
          refl (rw left here) (rw same (is_request_refl _)) (omega arith) in
      let (c2, rest_ran, rest_joined, rest_kept, h2) =
        handler_sign_tx-send_chunks token more c1 h1 (kept ∙ same) all (omega (arith, len)) in
      (
        c2,
        rw ran rest_ran,
        rest_joined
            ∙ ap (λ p. p ++ concat more) (joined ∙ ap (λ b. payload c ++ b) left)
            ∙ append_assoc (payload c) bytes (concat more),
        rest_kept ∙ kept,
        h2,
      )
