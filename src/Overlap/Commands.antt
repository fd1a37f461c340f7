-- ===== src/Overlap/Commands.antt =====
-- What src/apdu/dispatcher.c does to the hash in the context, for every command but SIGN_TOKEN_TX.
use ledger_hardmail_app.Common.{◌≡◌, ◌≢◌, refl, not, Option, none, some, ◌>>=◌, ◌==◌}
use ledger_hardmail_app.Sdk.Buffers.{Bytes, Buffer, BufferOps, BufferLaws}
use ledger_hardmail_app.Sdk.Crypto.{CryptoOps, HexLaw, HashLaw}
use ledger_hardmail_app.Context.{Context, zero_bytes, Reply, StatusWord}
use ledger_hardmail_app.Address.{handler_get_public_key}
use ledger_hardmail_app.Sign.Chunks.{IsContext}
use ledger_hardmail_app.Tokens.{DynamicTokenInfo, TlvOps, handler_provide_token_info}
use ledger_hardmail_app.Dispatcher.{
  Command, IsPayload, Globals, Instruction, get_version, get_app_name, get_public_key, sign_tx,
  sign_token_tx, provide_token_info, unknown, instruction, with_context, with_token, sign,
  run_instruction, apdu_dispatcher, p2_more,
}
use ledger_hardmail_app.Dispatcher.Answers.{with_data-cases}
use ledger_hardmail_app.Overlap.Digest.{
  hash_of, HashAfter, keeps, clears, shows, faults, if-HashAfter, handler_get_public_key-clear,
  handler_sign_tx-HashAfter,
}

abbrev pub digest_of : Globals → Bytes
digest_of g = hash_of g.context

-- The hash after a command.
abbrev pub DigestAfter : Globals → Option (Globals × Reply) → Type 0
DigestAfter g o = HashAfter digest_of (digest_of g) o

of_context :
    (g : Globals) {o : Option (Context × Reply)}
    → HashAfter hash_of (digest_of g) o
    → DigestAfter g (o >>= λ r. some (with_context g r))
of_context g (keeps e) = keeps e
of_context g (clears e) = clears e
of_context g shows = shows
of_context g faults = faults

cleared :
    (g : Globals) (r : Context × Reply)
    → hash_of r.0 ≡ zero_bytes 32
    → DigestAfter g (some (with_context g r))
cleared g (c, reply) e = clears e

of_token :
    (g : Globals) (o : Option (DynamicTokenInfo × StatusWord))
    → DigestAfter g (o >>= λ r. some (with_token g r))
of_token g none = faults
of_token g (some (t, sw)) = keeps refl

module _ (ops : BufferOps) (laws : BufferLaws ops) (crypto : CryptoOps) (hexes : HexLaw crypto)
    (hashes : HashLaw crypto) (tlv : TlvOps) where
  run_instruction-DigestAfter :
      (i : Instruction) (g : Globals) (cmd : Command)
      → IsContext g.context
      → IsPayload cmd.lc cmd.payload
      → i ≢ sign_token_tx
      → DigestAfter g (run_instruction ops crypto tlv i g cmd)
  unfolding run_instruction sign
  run_instruction-DigestAfter get_version g cmd h ok other =
      if-HashAfter _ (keeps refl) (keeps refl)
  run_instruction-DigestAfter get_app_name g cmd h ok other =
      if-HashAfter _ (keeps refl) (keeps refl)
  run_instruction-DigestAfter get_public_key g cmd h ok other =
      let handler = λ (b : Buffer). handler_get_public_key crypto ops b (not (cmd.p1 == 0)) in
      if-HashAfter _ (keeps refl) (
        with_data-cases (DigestAfter g) g cmd.lc cmd.payload
          (λ b. some (with_context g (handler b))) (keeps refl) ok
          λ b held z all.
            cleared g (handler b) (handler_get_public_key-clear crypto ops b (not (cmd.p1 == 0))))
  run_instruction-DigestAfter sign_tx g cmd h ok other = if-HashAfter _ (keeps refl) (
      with_data-cases (DigestAfter g) g cmd.lc cmd.payload _ (keeps refl) ok λ b held z all.
        of_context g (
          handler_sign_tx-HashAfter ops laws crypto hexes hashes b cmd.p1 (cmd.p2 == p2_more)
            g.context h held z all))
  run_instruction-DigestAfter sign_token_tx g cmd h ok other = absurd (other refl)
  run_instruction-DigestAfter provide_token_info g cmd h ok other = if-HashAfter _ (keeps refl) (
      with_data-cases (DigestAfter g) g cmd.lc cmd.payload _ (keeps refl) ok
        λ b held z all. of_token g (handler_provide_token_info tlv b))
  run_instruction-DigestAfter unknown g cmd h ok other = keeps refl

  -- A command that is not SIGN_TOKEN_TX keeps the hash in the context, clears it, or leads to the
  -- review of an email.
  pub apdu_dispatcher-DigestAfter :
      (g : Globals) (cmd : Command)
      → IsContext g.context
      → IsPayload cmd.lc cmd.payload
      → instruction cmd.ins ≢ sign_token_tx
      → DigestAfter g (apdu_dispatcher ops crypto tlv g cmd)
  unfolding apdu_dispatcher
  apdu_dispatcher-DigestAfter g cmd h ok other =
      if-HashAfter _ (keeps refl)
        (run_instruction-DigestAfter (instruction cmd.ins) g cmd h ok other)
