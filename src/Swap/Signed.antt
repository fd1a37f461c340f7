-- ===== src/Swap/Signed.antt =====
-- What a swap makes the app sign: src/handler/sign_tx.c with src/swap/handle_swap_sign_transaction.c.
use ledger_hardmail_app.Common.{ℕ, ◌≡◌, ap, some, arith}
use ledger_hardmail_app.Email.{Email}
use ledger_hardmail_app.Sdk.Buffers.{BufferOps}
use ledger_hardmail_app.Sdk.Crypto.{CryptoOps}
use ledger_hardmail_app.Context.{Context, Reply}
use ledger_hardmail_app.Tokens.{TokenInfo}
use ledger_hardmail_app.Dispatcher.{Globals}
use ledger_hardmail_app.Swap.{SwapGlobals, signed, finish_swap}
use ledger_hardmail_app.Swap.Signing.{with_ready, check_and_sign-signed, finish_swap-processed}

module _ (ops : BufferOps) (crypto : CryptoOps) where
  -- After a transaction that was signed for a swap, no other one is: whatever the app's globals have
  -- become, the next attempt does not end with a signature's answer.
  pub finish_swap-once :
      (g g1 g2 : SwapGlobals) (globals : Globals) (value value' fee fee' : ℕ)
      (token_info token_info' : TokenInfo) (reply reply' : Reply)
      → finish_swap crypto ops g value fee token_info ≡ some (g1, signed reply)
      → ¬ (
          finish_swap crypto ops (record g1 { globals = globals }) value' fee' token_info'
          ≡ some (g2, signed reply'))
  finish_swap-once g g1 g2 globals value value' fee fee' token_info token_info' reply reply' ran
        again =
      let (p, _, ran1) = finish_swap-processed crypto ops g g1 value fee token_info reply ran in
      let (_, _, c, _, made) =
        check_and_sign-signed crypto (with_ready crypto g p) g1 value fee token_info reply ran1 in
      let used = ap (λ (x : SwapGlobals). x.response_ready) made in
      let (p', _, ran2) =
        finish_swap-processed crypto ops (record g1 { globals = globals }) g2 value' fee'
          token_info' reply' again in
      let (free, _, _, _, _) =
        check_and_sign-signed crypto (with_ready crypto (record g1 { globals = globals }) p') g2
          value' fee' token_info' reply' ran2 in
      absurd (ground (arith, used, free))
