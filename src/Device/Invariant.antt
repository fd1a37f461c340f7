-- ===== src/Device/Invariant.antt =====
-- What holds of the device after any run of commands and choices: the loop of src/app_main.c with the
-- callbacks of src/ui.
use ledger_hardmail_app.Common.{
  ◌≡◌, ◌≢◌, refl, ap, subst, Bool, true, false, List, Option, none, some, ◌>>=◌, arith, ◌∙◌,
  one_result,
}
use ledger_hardmail_app.Sdk.Buffers.{Bytes, BufferOps, BufferLaws}
use ledger_hardmail_app.Sdk.Crypto.{CryptoOps, HexLaw, HashLaw, SignLaw}
use ledger_hardmail_app.Wire.{Message, IsValid, encode}
use ledger_hardmail_app.Context.{Pair, Reply, send_sw, swo_conditions_not_satisfied, state_none}
use ledger_hardmail_app.Sign.{payload}
use ledger_hardmail_app.Sign.Chunks.{IsContext, IsContext-tx_info}
use ledger_hardmail_app.Sign.Approvable.{IsApprovable}
use ledger_hardmail_app.Display.Review.{review_of}
use ledger_hardmail_app.Address.{validate_pubkey, helper_send_response_pubkey}
use ledger_hardmail_app.Address.Answers.{ShowsAddress}
use ledger_hardmail_app.Validate.{validate_transaction}
use ledger_hardmail_app.Validate.Choice.{
  signature_reply, validate_transaction-approve, validate_transaction-reject,
}
use ledger_hardmail_app.Tokens.{TlvOps}
use ledger_hardmail_app.Tokens.Lookup.{TlvLaws}
use ledger_hardmail_app.Dispatcher.{Command, Globals, with_context}
use ledger_hardmail_app.Dispatcher.Answers.{apdu_dispatcher-Answered}
use ledger_hardmail_app.Device.{
  Screen, menu, transaction_review, address_review, Device, device_of, CommandOk, receive,
  review_choice, Step, command, choice, Reachable, started, stepped,
}
use ledger_hardmail_app.Device.Holds.{
  ScreenOk, IsDevice, of_Answer, started-IsDevice, no_choice, signed_IsDevice,
}

module _ (ops : BufferOps) (laws : BufferLaws ops) (crypto : CryptoOps) (hexes : HexLaw crypto)
    (hashes : HashLaw crypto) (signs : SignLaw crypto) (tlv : TlvOps) (tokens : TlvLaws tlv) where
  -- In a well-formed device every command is answered, and leaves the device well-formed.
  pub receive-IsDevice :
      (d : Device) (cmd : Option Command)
      → IsDevice crypto d
      → CommandOk cmd
      → (r : Device × Reply) × (receive ops crypto tlv d cmd ≡ some r) × IsDevice crypto r.0
  unfolding receive
  receive-IsDevice d none h ok = (_, refl, record { well = h.well; screen_ok = tt })
  receive-IsDevice d (some cmd) h ok =
      let ((g, reply), ran, answer) =
        apdu_dispatcher-Answered ops laws crypto hexes hashes tlv tokens d.globals cmd h.well ok in
      (_, ap (λ o. o >>= λ r. some (device_of r)) ran, of_Answer crypto g reply answer)

  on_email :
      (d : Device) (pairs : List Pair) (confirm : Bool)
      → d.screen ≡ transaction_review pairs
      → review_choice ops crypto tlv d confirm ≡ (
          validate_transaction crypto confirm d.globals.context >>= λ r.
          some (device_of (with_context d.globals r)))
  unfolding review_choice
  on_email d pairs confirm e = rw e refl

  -- The user's approval of an email's review, in any state that the device can be in, is answered
  -- with the signature of the SHA-256 of exactly one payload: the encoding of an allowed message
  -- that the review on the screen shows in full. Where signing fails, it is SWO_SECURITY_ISSUE.
  pub review_choice-signs :
      (d : Device) (pairs : List Pair)
      → IsDevice crypto d
      → d.screen ≡ transaction_review pairs
      → (m : Message) × (g : Globals) × IsValid m
        × (pairs ≡ review_of m)
        × (payload d.globals.context ≡ encode m)
        × (review_choice ops crypto tlv d true
            ≡ some (
                device_of (
                  g,
                  signature_reply crypto d.globals.context.bip32_path
                      d.globals.context.bip32_path_len
                      (crypto.hash_sha256 (encode m)).1,
                )))
        × IsContext g.context
  review_choice-signs d pairs h e =
      let ok : IsApprovable crypto d.globals.context pairs =
        subst (λ s. ScreenOk crypto s d.globals.context) e h.screen_ok in
      let (c, ran, _, _, well) =
        validate_transaction-approve crypto signs d.globals.context h.well in
      let answer : Bytes → Option (Device × Reply) = λ bs. some (
        device_of (
          record (d.globals) { context = c },
          signature_reply crypto d.globals.context.bip32_path d.globals.context.bip32_path_len bs,
        )) in
      (
        ok.message,
        record (d.globals) { context = c },
        ok.valid,
        ok.shown,
        ok.received,
        on_email d pairs true e
            ∙ ap (λ o. o >>= λ r. some (device_of (with_context d.globals r))) ran
            ∙ ap answer ok.digest,
        well,
      )

  -- The user's rejection of an email's review is answered with SWO_CONDITIONS_NOT_SATISFIED, and the
  -- context is left with no state.
  pub review_choice-rejects :
      (d : Device) (pairs : List Pair)
      → d.screen ≡ transaction_review pairs
      → review_choice ops crypto tlv d false
        ≡ some (
            device_of (
              record (d.globals) { context = record (d.globals.context) { state = state_none } },
              send_sw swo_conditions_not_satisfied,
            ))
  unfolding review_choice
  review_choice-rejects d pairs e =
      rw (e, validate_transaction-reject crypto signs d.globals.context) refl

  -- The user's approval of an address is answered with the key whose address the screen shows.
  pub review_choice-sends_key :
      (d : Device) (text : Bytes)
      → IsDevice crypto d
      → d.screen ≡ address_review text
      → (review_choice ops crypto tlv d true
          ≡ some (device_of (d.globals, helper_send_response_pubkey d.globals.context)))
        × ShowsAddress crypto d.globals.context text
  unfolding review_choice validate_pubkey
  review_choice-sends_key d text h e =
      (rw e refl, subst (λ s. ScreenOk crypto s d.globals.context) e h.screen_ok)

  choice_on :
      (d : Device) (s : Screen) (confirm : Bool)
      → IsDevice crypto d
      → d.screen ≡ s
      → s ≢ menu
      → (r : Device × Reply) × (review_choice ops crypto tlv d confirm ≡ some r)
        × IsDevice crypto r.0
  unfolding review_choice validate_pubkey helper_send_response_pubkey
  choice_on d menu confirm h e waits = absurd (waits refl)
  choice_on d (transaction_review pairs) true h e waits =
      let (m, g, _, _, _, returned, well) = review_choice-signs d pairs h e in
      (_, returned, signed_IsDevice crypto g _ _ _ well)
  choice_on d (transaction_review pairs) false h e waits = (
    _,
    review_choice-rejects d pairs e,
    record { well = IsContext-tx_info d.globals.context _ refl h.well; screen_ok = tt },
  )
  choice_on d (address_review text) true h e waits =
      (_, (review_choice-sends_key d text h e).0, record { well = h.well; screen_ok = tt })
  choice_on d (address_review text) false h e waits = (
    device_of (d.globals, send_sw swo_conditions_not_satisfied),
    rw e refl,
    record { well = h.well; screen_ok = tt },
  )

  -- A choice on a review is answered, and leaves the device well-formed.
  pub review_choice-IsDevice :
      (d : Device) (confirm : Bool)
      → IsDevice crypto d
      → d.screen ≢ menu
      → (r : Device × Reply) × (review_choice ops crypto tlv d confirm ≡ some r)
        × IsDevice crypto r.0
  review_choice-IsDevice d confirm h waits = choice_on d d.screen confirm h refl waits

  Step-IsDevice :
      {d d' : Device} {reply : Reply}
      → IsDevice crypto d
      → Step ops crypto tlv d d' reply
      → IsDevice crypto d'
  Step-IsDevice {d} h (command cmd _ ok ran) =
      let (r, returned, holds) = receive-IsDevice d cmd h ok in
      one_result (λ (x : Device × Reply). IsDevice crypto x.0) returned ran holds
  Step-IsDevice {d} h (choice confirm ran) =
      let waits : d.screen ≢ menu =
        λ e. ground (arith, no_choice ops crypto tlv d confirm e, ran) in
      let (r, returned, holds) = review_choice-IsDevice d confirm h waits in
      one_result (λ (x : Device × Reply). IsDevice crypto x.0) returned ran holds

  -- After any run of commands and choices from the start the device is well-formed: while an email's
  -- review is on the screen, the context holds exactly the message shown and its hash, and while
  -- an address is shown, it is that of the key in the context.
  pub Reachable-IsDevice : {d : Device} → Reachable ops crypto tlv d → IsDevice crypto d
  Reachable-IsDevice started = started-IsDevice ops crypto tlv
  Reachable-IsDevice (stepped r s) = Step-IsDevice (Reachable-IsDevice r) s
