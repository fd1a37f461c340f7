-- ===== src/Dispatcher/Bounds.antt =====
-- How long the answers of src/handler/sign_tx.c and src/apdu/dispatcher.c are.
use ledger_hardmail_app.Common.{ℕ, Bool, true, false, not, Option, none, some, arith, ◌==◌, ◌>>=◌}
use ledger_hardmail_app.Sdk.Buffers.{Bytes, Buffer, BufferOps}
use ledger_hardmail_app.Sdk.Crypto.{CryptoOps}
use ledger_hardmail_app.Context.{Context, Reply, send_sw, swo_wrong_data_length}
use ledger_hardmail_app.Sign.{
  handler_sign_tx, init_transaction_context, continue_sign, finish_sign, process_transaction,
}
use ledger_hardmail_app.Tokens.{TlvOps, handler_provide_token_info}
use ledger_hardmail_app.Dispatcher.{
  Command, Globals, p2_more, with_context, Instruction, get_version, get_app_name, get_public_key,
  sign_tx, sign_token_tx, provide_token_info, unknown, instruction, buffer_of, sign,
  run_instruction, apdu_dispatcher, handler_get_version, handler_get_app_name,
}
use ledger_hardmail_app.Dispatcher.Lengths.{
  Short, fits, faults, if-Short, bind-Short, of_Ends, status, ui_display_transaction-Short,
  handler_get_public_key-Ends,
}

module _ (ops : BufferOps) (crypto : CryptoOps) where
  finish_sign-Short : (c : Context) → Short (finish_sign ops crypto c)
  unfolding finish_sign
  finish_sign-Short c =
      bind-Short (process_transaction ops crypto c) _
        λ (c1, sw). if-Short _ (ui_display_transaction-Short crypto c1) (status c1 sw)

  handler_sign_tx-Short :
      (cdata : Buffer) (chunk : ℕ) (more token : Bool) (c : Context)
      → Short (handler_sign_tx ops crypto cdata chunk more token c)
  unfolding handler_sign_tx init_transaction_context continue_sign
  handler_sign_tx-Short cdata chunk more token c =
      if-Short (chunk == 0) (status _ _)
        (if-Short _ (status _ _) (if-Short more (status _ _) (finish_sign-Short _)))

  module _ (tlv : TlvOps) where
    with_data-Short :
        (g : Globals) (lc : ℕ) (data_in : Option Bytes)
        (handler : Buffer → Option (Globals × Reply))
        → ((b : Buffer) → Short (handler b))
        → Short (elim data_in [
          | none ↦ some (g, send_sw swo_wrong_data_length)
          | some bytes ↦ handler (buffer_of lc bytes)
        ])
    with_data-Short g lc none handler h = status g swo_wrong_data_length
    with_data-Short g lc (some bytes) handler h = h (buffer_of lc bytes)

    context_first :
        (g : Globals) {o : Option (Context × Reply)}
        → Short o
        → Short (o >>= λ r. some (with_context g r))
    context_first g (fits h) = fits h
    context_first g faults = faults

    sign-Short :
        (g : Globals) (cmd : Command) (token : Bool) → Short (sign ops crypto tlv g cmd token)
    unfolding sign
    sign-Short g cmd token = if-Short _ (status _ _) (
        with_data-Short g cmd.lc cmd.payload _
          λ b. context_first g (handler_sign_tx-Short b cmd.p1 (cmd.p2 == p2_more) token g.context))

    run_instruction-Short :
        (i : Instruction) (g : Globals) (cmd : Command)
        → Short (run_instruction ops crypto tlv i g cmd)
    unfolding run_instruction handler_get_version handler_get_app_name
    run_instruction-Short get_version g cmd = if-Short _ (status _ _) (fits (omega arith))
    run_instruction-Short get_app_name g cmd = if-Short _ (status _ _) (fits (omega arith))
    run_instruction-Short get_public_key g cmd = if-Short _ (status _ _) (
        with_data-Short g cmd.lc cmd.payload _ λ b.
          of_Ends (λ c. record g { context = c })
            (handler_get_public_key-Ends crypto ops b (not (cmd.p1 == 0))))
    run_instruction-Short sign_tx g cmd = sign-Short g cmd false
    run_instruction-Short sign_token_tx g cmd = sign-Short g cmd true
    run_instruction-Short provide_token_info g cmd = if-Short _ (status _ _) (
        with_data-Short g cmd.lc cmd.payload _ λ b.
          bind-Short (handler_provide_token_info tlv b) _
            λ (t, sw). status (record g { token = t }) sw)
    run_instruction-Short unknown g cmd = status g _

    -- No answer to a command is longer than 99 bytes, whatever the command and the context are.
    pub apdu_dispatcher-Short :
        (g : Globals) (cmd : Command) → Short (apdu_dispatcher ops crypto tlv g cmd)
    unfolding apdu_dispatcher
    apdu_dispatcher-Short g cmd =
        if-Short _ (status _ _) (run_instruction-Short (instruction cmd.ins) g cmd)
