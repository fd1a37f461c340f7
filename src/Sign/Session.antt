-- ===== src/Sign/Session.antt =====
-- A whole request of src/handler/sign_tx.c: the path, the chunks, and the last chunk.
use ledger_hardmail_app.Common.{
  ◌≡◌, true, false, List, [], Option, none, arith, length, length-take, ◌>>=◌,
}
use ledger_hardmail_app.Sdk.Buffers.{Bytes, Buffer, BufferOps}
use ledger_hardmail_app.Sdk.Crypto.{CryptoOps}
use ledger_hardmail_app.Context.{
  Context, confirm_transaction, zero_context, state_none, Reply, respond, swo_success,
}
use ledger_hardmail_app.Sign.{payload, handler_sign_tx}
use ledger_hardmail_app.Sign.Chunks.{IsContext}
use ledger_hardmail_app.Sign.Gather.{chunk_buffer, send_chunks}

-- The context that a request for an email starts from, before the path is read.
abbrev pub fresh : Context
fresh = record zero_context { req_type = confirm_transaction; state = state_none }

-- The requests of one email: the path in chunk 0, chunks with more to come, and the last chunk. The
-- run ends at the first answer that is not as it should be.
unfoldable pub send_email :
    BufferOps → CryptoOps → Buffer → List Bytes → Bytes → Context → Option (Context × Reply)
send_email ops crypto path chunks last c = do
  (c1, reply) ← handler_sign_tx ops crypto path 0 true false c
  elim reply [
    | respond [] swo_success ↦ do
      c2 ← send_chunks ops crypto false chunks c1
      handler_sign_tx ops crypto (chunk_buffer last) 1 false false c2
    | _ ↦ none
  ]

pub payload_length : (c : Context) → IsContext c → length (payload c) ≡ c.tx_info.raw_tx_len
payload_length c h =
    omega (arith, length-take c.tx_info.raw_tx_len c.tx_info.raw_tx, h.raw_size, h.raw_fits)
