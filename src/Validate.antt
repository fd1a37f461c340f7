-- ===== src/Validate.antt =====
-- src/ui/action/validate.c, and the response of src/helper/send_reponse.c that carries a signature.
pub mod Choice
use ledger_hardmail_app.Common.{
  ℕ, ◌+◌, ◌%◌, ◌≡◌, Bool, true, false, not, List, [], ◌∷◌, ◌++◌, Option, none, some, ltb, ◌==◌,
  if◌then◌else◌, write_at, take, ◌>>=◌,
}
use ledger_hardmail_app.Sdk.Buffers.{Bytes}
use ledger_hardmail_app.Sdk.Crypto.{CryptoOps}
use ledger_hardmail_app.Context.{
  Context, TxInfo, state_none, state_approved, max_der_sig_len, Reply, respond, send_sw,
  swo_success, swo_security_issue, swo_conditions_not_satisfied,
}

-- `helper_send_response_sig`; a signature longer than its arrays is a fault.
unfoldable pub helper_send_response_sig : Context → Option Reply
helper_send_response_sig c =
    let n = c.tx_info.signature_len in
    if ltb max_der_sig_len n
    then none
    else some (respond (n ∷ (take n c.tx_info.signature ++ (c.tx_info.v % 256) ∷ [])) swo_success)

module _ (crypto : CryptoOps) where
  -- `crypto_sign_message`: whether it returned 0, and the context.
  unfoldable pub crypto_sign_message : Context → Bool × Context
  crypto_sign_message c =
      let (error, bytes, sig_len) =
        crypto.eddsa_sign c.bip32_path c.bip32_path_len c.tx_info.m_hash in
      let written = write_at c.tx_info.signature 0 bytes in
      if not (error == 0)
      then (false, record c { tx_info = record (c.tx_info) { signature = written } })
      else (
        true,
        record c {
          tx_info = record (c.tx_info) {
            signature = written;
            signature_len = sig_len % 256;
            v = 0;
          };
        },
      )

  -- `validate_transaction`, which the review calls with the user's choice.
  unfoldable pub validate_transaction : Bool → Context → Option (Context × Reply)
  validate_transaction choice c =
      let (signed, c1) = crypto_sign_message (record c { state = state_approved }) in
      if not choice
      then some (record c { state = state_none }, send_sw swo_conditions_not_satisfied)
      else if not signed
      then some (record c1 { state = state_none }, send_sw swo_security_issue)
      else do reply ← helper_send_response_sig c1; some (c1, reply)
