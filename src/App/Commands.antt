-- ===== src/App/Commands.antt =====
-- How the loop of src/app_main.c comes to the handlers of src/handler and the callbacks of src/ui.
use ledger_hardmail_app.Dispatcher.{
  with_token, Command, with_context, sign, run_instruction, apdu_dispatcher, bad_chunk,
  handler_get_version, handler_get_app_name,
}
use ledger_hardmail_app.Common.{
  ℕ, suc, ◌≤◌, ◌≡◌, refl, ap, ◌∙◌, Bool, true, false, List, [], ◌∷◌, some, arith, if◌then◌else◌,
  ◌>>=◌, if_true, if_false, le→ltb,
}
use ledger_hardmail_app.Sdk.Buffers.{Bytes, BufferOps}
use ledger_hardmail_app.Sdk.Crypto.{CryptoOps}
use ledger_hardmail_app.Context.{
  StatusWord, send_sw, swo_wrong_data_length, Context, Reply, respond, review, review_address,
}
use ledger_hardmail_app.Address.{handler_get_public_key}
use ledger_hardmail_app.Sign.{handler_sign_tx}
use ledger_hardmail_app.Sign.Gather.{chunk_buffer}
use ledger_hardmail_app.Tokens.{TlvOps, DynamicTokenInfo, handler_provide_token_info}
use ledger_hardmail_app.Dispatcher.Errors.{Refusal, apdu_dispatcher-refuses}
use ledger_hardmail_app.Device.{Device, device_of, receive, review_choice}
use ledger_hardmail_app.App.{
  bad_length, Round, received, chosen, failed, is_menu, reply_first, app_loop,
}
use ledger_hardmail_app.App.Session.{flag, no_data, sign_command, key_command, token_command}

module _ (ops : BufferOps) (crypto : CryptoOps) (tlv : TlvOps) where
  fine_chunk :
      (number : ℕ) (more : Bool) → suc number ≤ 16 → bad_chunk (suc number) (flag more 0x80) ≡ false
  fine_chunk number true h = ground (arith, le→ltb 16 (suc number) h)
  fine_chunk number false h = ground (arith, le→ltb 16 (suc number) h)

  -- A later chunk of a request to sign.
  pub receive-part :
      (token : Bool) (number : ℕ) (more : Bool) (bytes : Bytes) (d : Device) (r : Context × Reply)
      → suc number ≤ 16
      → handler_sign_tx ops crypto (chunk_buffer bytes) (suc number) more token d.globals.context
        ≡ some r
      → receive ops crypto tlv d (some (sign_command token (suc number) more bytes))
        ≡ some (device_of (with_context d.globals r))
  unfolding receive apdu_dispatcher run_instruction sign
  receive-part true number true bytes d r h ran = rw (fine_chunk number true h, ran) refl
  receive-part true number false bytes d r h ran = rw (fine_chunk number false h, ran) refl
  receive-part false number true bytes d r h ran = rw (fine_chunk number true h, ran) refl
  receive-part false number false bytes d r h ran = rw (fine_chunk number false h, ran) refl

  -- The path of a request to sign.
  pub receive-path :
      (token : Bool) (bytes : Bytes) (d : Device) (r : Context × Reply)
      → handler_sign_tx ops crypto (chunk_buffer bytes) 0 true token d.globals.context ≡ some r
      → receive ops crypto tlv d (some (sign_command token 0 true bytes))
        ≡ some (device_of (with_context d.globals r))
  unfolding receive apdu_dispatcher run_instruction sign
  receive-path true bytes d r ran = rw ran refl
  receive-path false bytes d r ran = rw ran refl

  pub receive-key :
      (display : Bool) (bytes : Bytes) (d : Device)
      → receive ops crypto tlv d (some (key_command display bytes))
        ≡ some (
            device_of (
              with_context d.globals
                (handler_get_public_key crypto ops (chunk_buffer bytes) display)))
  unfolding receive apdu_dispatcher run_instruction
  receive-key true bytes d = refl
  receive-key false bytes d = refl

  pub receive-version :
      (d : Device)
      → receive ops crypto tlv d (some (no_data 0x03))
        ≡ some (device_of (d.globals, handler_get_version))
  unfolding receive apdu_dispatcher run_instruction
  receive-version d = refl

  pub receive-name :
      (d : Device)
      → receive ops crypto tlv d (some (no_data 0x04))
        ≡ some (device_of (d.globals, handler_get_app_name))
  unfolding receive apdu_dispatcher run_instruction
  receive-name d = refl

  -- A token: the context is left alone.
  pub receive-token :
      (bytes : Bytes) (d : Device) (r : DynamicTokenInfo × StatusWord)
      → handler_provide_token_info tlv (chunk_buffer bytes) ≡ some r
      → receive ops crypto tlv d (some (token_command bytes))
        ≡ some (device_of (with_token d.globals r))
  unfolding receive apdu_dispatcher run_instruction
  receive-token bytes d r ran = rw ran refl

  pub receive-refused :
      (cmd : Command) (sw : StatusWord) (d : Device)
      → Refusal cmd sw
      → receive ops crypto tlv d (some cmd) ≡ some (device_of (d.globals, send_sw sw))
  unfolding receive
  receive-refused cmd sw d h =
      ap (λ o. o >>= λ r. some (device_of r))
        (apdu_dispatcher-refuses ops crypto tlv d.globals cmd sw h)

  sent : (reply : Reply) → failed true reply ≡ false
  sent (respond bytes sw) = refl
  sent (review pairs) = refl
  sent (review_address text) = refl

  -- A round that is handled, before the others.
  pub received_first :
      (cmd : Command) (rounds : List Round) (d : Device) (r : Device × Reply)
      → is_menu d.screen ≡ true
      → receive ops crypto tlv d (some cmd) ≡ some r
      → app_loop ops crypto tlv d (received cmd true ∷ rounds)
        ≡ (app_loop ops crypto tlv r.0 rounds >>= λ run. some (reply_first r.1 run))
  unfolding app_loop
  received_first cmd rounds d (d', reply) e ran =
      if_true (is_menu d.screen) _ _ e
      ∙ ap
          (λ o. o >>= λ (x : Device × Reply).
            if failed true x.1
            then some (record { device = x.0; replies = []; returned = true })
            else (app_loop ops crypto tlv x.0 rounds >>= λ run. some (reply_first x.1 run)))
          ran
      ∙ if_false (failed true reply) _ _ (sent reply)

  pub chosen_first :
      (confirm : Bool) (rounds : List Round) (d : Device) (r : Device × Reply)
      → is_menu d.screen ≡ false
      → review_choice ops crypto tlv d confirm ≡ some r
      → app_loop ops crypto tlv d (chosen confirm ∷ rounds)
        ≡ (app_loop ops crypto tlv r.0 rounds >>= λ run. some (reply_first r.1 run))
  unfolding app_loop
  chosen_first confirm rounds d r e ran =
      if_false (is_menu d.screen) _ _ e
      ∙ ap
          (λ o. o >>= λ (x : Device × Reply).
            app_loop ops crypto tlv x.0 rounds >>= λ run. some (reply_first x.1 run))
          ran

  -- A round that is left aside.
  pub received_none :
      (cmd : Command) (rounds : List Round) (d : Device)
      → is_menu d.screen ≡ false
      → app_loop ops crypto tlv d (received cmd true ∷ rounds) ≡ app_loop ops crypto tlv d rounds
  unfolding app_loop
  received_none cmd rounds d e = if_false (is_menu d.screen) _ _ e

  pub chosen_none :
      (confirm : Bool) (rounds : List Round) (d : Device)
      → is_menu d.screen ≡ true
      → app_loop ops crypto tlv d (chosen confirm ∷ rounds) ≡ app_loop ops crypto tlv d rounds
  unfolding app_loop
  chosen_none confirm rounds d e = if_true (is_menu d.screen) _ _ e

  -- Bytes that are no command.
  pub garbled_first :
      (rounds : List Round) (d : Device)
      → is_menu d.screen ≡ true
      → let (d', reply) = device_of (d.globals, send_sw swo_wrong_data_length) in
        app_loop ops crypto tlv d (bad_length ∷ rounds)
        ≡ (app_loop ops crypto tlv d' rounds >>= λ run. some (reply_first reply run))
  unfolding app_loop receive
  garbled_first rounds d e = if_true (is_menu d.screen) _ _ e

  pub garbled_none :
      (rounds : List Round) (d : Device)
      → is_menu d.screen ≡ false
      → app_loop ops crypto tlv d (bad_length ∷ rounds) ≡ app_loop ops crypto tlv d rounds
  unfolding app_loop
  garbled_none rounds d e = if_false (is_menu d.screen) _ _ e
