-- ===== src/Sign.antt =====
-- src/handler/sign_tx.c, outside of a swap.
pub mod Chunks
pub mod Gather
pub mod Approvable
pub mod Reviewed
pub mod Process
pub mod Session
use ledger_hardmail_app.Common.{
  ℕ, ◌+◌, ◌≡◌, Bool, true, false, not, Option, none, some, length, ltb, ◌==◌, if◌then◌else◌,
  write_at, take, ◌>>=◌,
}
use ledger_hardmail_app.Sdk.Buffers.{Bytes, Buffer, BufferOps}
use ledger_hardmail_app.Sdk.Crypto.{CryptoOps}
use ledger_hardmail_app.Email.{Status, parsing_ok}
use ledger_hardmail_app.Parser.{Parser, transaction_deserialize}
use ledger_hardmail_app.Context.{
  Context, TxInfo, RequestType, confirm_transaction, confirm_token_transaction, is_request,
  max_transaction_len, zero_context, state_none, state_parsed, Reply, send_sw, StatusWord,
  swo_success, swo_wrong_data_length, swo_conditions_not_satisfied, swo_incorrect_data,
}
use ledger_hardmail_app.Address.{read_path}
use ledger_hardmail_app.Display.{ui_display_transaction}

abbrev pub is_ok : Status → Bool
is_ok parsing_ok = true
is_ok _ = false

abbrev pub is_success : StatusWord → Bool
is_success swo_success = true
is_success _ = false

abbrev pub request_of : Bool → RequestType
request_of is_token_tx = if is_token_tx then confirm_token_transaction else confirm_transaction

-- The buffer of the whole payload, as `process_transaction` sets it up.
abbrev pub payload_buffer : Context → Buffer
payload_buffer c = record { ptr = c.tx_info.raw_tx; size = c.tx_info.raw_tx_len; offset = 0 }

-- The part of `raw_tx` that has been received.
abbrev pub payload : Context → Bytes
payload c = take c.tx_info.raw_tx_len c.tx_info.raw_tx

-- The memory after a parse: the email is filled in as far as the parser came.
abbrev pub set_parsed : Context → Parser → Context
set_parsed c p = record c {
  tx_info = record (c.tx_info) { transaction = p.tx; is_token_tx = false };
}

abbrev pub set_hash : Context → Bytes → Context
set_hash c digest = record c {
  state = state_parsed;
  tx_info = record (c.tx_info) { m_hash = digest };
}

module _ (ops : BufferOps) where
  -- `init_transaction_context`.
  unfoldable pub init_transaction_context : Buffer → RequestType → Context × Reply
  init_transaction_context cdata req_type =
      let (ok, c) =
        read_path ops cdata (record zero_context { req_type = req_type; state = state_none }) in
      (c, send_sw (if not ok then swo_wrong_data_length else swo_success))

  -- `accumulate_transaction_data`.
  unfoldable pub accumulate_transaction_data : Buffer → RequestType → Context → Context × StatusWord
  accumulate_transaction_data cdata req_type c =
      let len = c.tx_info.raw_tx_len in
      let (ok, bytes, b) = ops.move cdata cdata.size in
      if not (is_request c.req_type req_type)
      then (c, swo_conditions_not_satisfied)
      else if ltb max_transaction_len (len + cdata.size)
      then (c, swo_wrong_data_length)
      else if not ok
      then (c, swo_incorrect_data)
      else (
        record c {
          tx_info = record (c.tx_info) {
            raw_tx = write_at c.tx_info.raw_tx len bytes;
            raw_tx_len = len + cdata.size;
          };
        },
        swo_success,
      )

module _ (ops : BufferOps) (crypto : CryptoOps) where
  -- `process_transaction`, after the parse.
  unfoldable pub hash_parsed : Status → Context → Context × StatusWord
  hash_parsed status c =
      let (written, digest) = crypto.hash_sha256 (payload c) in
      if not (is_ok status)
      then (c, swo_incorrect_data)
      else (set_hash c digest, (if not (written == 32) then swo_incorrect_data else swo_success))

  unfoldable pub process_transaction : Context → Option (Context × StatusWord)
  process_transaction c = do
    (status, p) ← transaction_deserialize ops (payload_buffer c) c.tx_info.transaction
    some (hash_parsed status (set_parsed c p))

  -- `handler_sign_tx`, from the last chunk on.
  unfoldable pub finish_sign : Context → Option (Context × Reply)
  finish_sign c = do
    (c1, sw) ← process_transaction c
    if is_success sw then ui_display_transaction crypto c1 else some (c1, send_sw sw)

  unfoldable pub continue_sign : Bool → Context × StatusWord → Option (Context × Reply)
  continue_sign more (c, sw) =
      if not (is_success sw)
      then some (c, send_sw sw)
      else if more
      then some (c, send_sw swo_success)
      else finish_sign c

  unfoldable pub handler_sign_tx : Buffer → ℕ → Bool → Bool → Context → Option (Context × Reply)
  handler_sign_tx cdata chunk more is_token_tx c =
      if chunk == 0
      then some (init_transaction_context ops cdata (request_of is_token_tx))
      else continue_sign more (accumulate_transaction_data ops cdata (request_of is_token_tx) c)
