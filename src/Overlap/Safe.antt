-- ===== src/Overlap/Safe.antt =====
-- What an approval signs when commands of src/apdu/dispatcher.c come while a review waits.
use ledger_hardmail_app.Common.{
  ◌≡◌, ◌≢◌, refl, sym, ap, subst, ◌⊎◌, inl, inr, Bool, true, false, List, Option, none, some, arith,
  ◌>>=◌, ◌==◌, Bool-cases, one_result,
}
use ledger_hardmail_app.Sdk.Buffers.{Bytes, BufferOps, BufferLaws}
use ledger_hardmail_app.Sdk.Crypto.{CryptoOps, HexLaw, HashLaw, SignLaw}
use ledger_hardmail_app.Wire.{Message, IsValid, encode}
use ledger_hardmail_app.Context.{
  Context, zero_bytes, Pair, Reply, respond, StatusWord, send_sw, swo_conditions_not_satisfied,
}
use ledger_hardmail_app.Display.Review.{review_of}
use ledger_hardmail_app.Sign.Chunks.{IsContext, zero_context-IsContext}
use ledger_hardmail_app.Address.{validate_pubkey, helper_send_response_pubkey}
use ledger_hardmail_app.Validate.Choice.{signature_reply, choice_reply, validate_transaction_lem}
use ledger_hardmail_app.Tokens.{TlvOps}
use ledger_hardmail_app.Tokens.Lookup.{TlvLaws}
use ledger_hardmail_app.Dispatcher.{Command, Globals, with_context, instruction, sign_token_tx}
use ledger_hardmail_app.Dispatcher.Answers.{
  Answer, responded, email_review, key_review, apdu_dispatcher-Answered,
}
use ledger_hardmail_app.Device.{
  Screen, menu, transaction_review, address_review, Device, screen_of, device_of, CommandOk, start,
  review_choice,
}
use ledger_hardmail_app.Device.Holds.{no_choice}
use ledger_hardmail_app.Overlap.{
  device_over, receive_over, MayArrive, OverStep, arrives, decides, OverReachable, begins, goes,
}
use ledger_hardmail_app.Overlap.Digest.{hash_of, keeps, clears}
use ledger_hardmail_app.Overlap.Commands.{digest_of, DigestAfter, apdu_dispatcher-DigestAfter}

-- A digest that an approval of the review may sign: that of an allowed message with this review, or
-- 32 zero bytes.
abbrev pub MaySign : CryptoOps → List Pair → Bytes → Type 0
MaySign crypto pairs digest =
    (digest ≡ zero_bytes 32)
    ⊎ ((m : Message) × IsValid m
        × (pairs ≡ review_of m)
        × (digest ≡ (crypto.hash_sha256 (encode m)).1))

abbrev pub ShownOk : CryptoOps → Screen → Bytes → Type 0
ShownOk crypto (transaction_review pairs) digest = MaySign crypto pairs digest
ShownOk crypto _ digest = Unit {0}

pub record IsGuarded (crypto : CryptoOps) (d : Device) : Type 0 where
  pub well : IsContext d.globals.context
  pub shown_ok : ShownOk crypto d.screen (digest_of d.globals)

-- An email that stays on the screen.
stays :
    (crypto : CryptoOps) (pairs : List Pair) (g g' : Globals) (bytes : Bytes) (sw : StatusWord)
    → MaySign crypto pairs (digest_of g)
    → DigestAfter g (some (g', respond bytes sw))
    → MaySign crypto pairs (digest_of g')
stays crypto pairs g g' bytes sw h (keeps e) = subst (MaySign crypto pairs) (sym e) h
stays crypto pairs g g' bytes sw h (clears e) = inl e

after_command :
    (crypto : CryptoOps) (s : Screen) (g g' : Globals) (reply : Reply)
    → Answer crypto (g'.context, reply)
    → ShownOk crypto s (digest_of g)
    → ((pairs : List Pair) → s ≡ transaction_review pairs → DigestAfter g (some (g', reply)))
    → IsGuarded crypto (device_over s (g', reply)).0
after_command crypto menu g g' _ (responded h) ok k = record { well = h; shown_ok = tt }
after_command crypto (address_review text) g g' _ (responded h) ok k = record {
  well = h;
  shown_ok = tt;
}
after_command crypto (transaction_review pairs) g g' _ (responded h) ok k = record {
  well = h;
  shown_ok = stays crypto pairs g g' _ _ ok (k pairs refl);
}
after_command crypto s g g' _ (email_review h ok) _ k = record {
  well = h;
  shown_ok = inr (ok.message, ok.valid, ok.shown, ok.digest);
}
after_command crypto s g g' _ (key_review h shows) _ k = record { well = h; shown_ok = tt }

module _ (ops : BufferOps) (laws : BufferLaws ops) (crypto : CryptoOps) (hexes : HexLaw crypto)
    (hashes : HashLaw crypto) (signs : SignLaw crypto) (tlv : TlvOps) (tokens : TlvLaws tlv) where
  -- The command that does not come while an email is shown is not the one that came.
  not_token :
      (s : Screen) (cmd : Command) (pairs : List Pair)
      → MayArrive s (some cmd)
      → s ≡ transaction_review pairs
      → instruction cmd.ins ≢ sign_token_tx
  not_token s cmd pairs may e = subst (λ x. MayArrive x (some cmd)) e may

  receive_over-IsGuarded :
      (d : Device) (cmd : Option Command)
      → IsGuarded crypto d
      → MayArrive d.screen cmd
      → CommandOk cmd
      → (r : Device × Reply) × (receive_over ops crypto tlv d cmd ≡ some r) × IsGuarded crypto r.0
  unfolding receive_over
  receive_over-IsGuarded d none h may ok =
      (_, refl, record { well = h.well; shown_ok = h.shown_ok })
  receive_over-IsGuarded d (some cmd) h may ok =
      let ((g, reply), ran, answer) =
        apdu_dispatcher-Answered ops laws crypto hexes hashes tlv tokens d.globals cmd h.well ok in
      (
        _,
        ap (λ o. o >>= λ r. some (device_over d.screen r)) ran,
        after_command crypto d.screen d.globals g reply answer h.shown_ok λ pairs e.
            subst (DigestAfter d.globals) ran (
              apdu_dispatcher-DigestAfter ops laws crypto hexes hashes tlv d.globals cmd h.well ok
                (not_token d.screen cmd pairs may e)),
      )

  choice-menu : (confirm : Bool) (c : Context) → screen_of (choice_reply crypto confirm c) ≡ menu
  choice-menu false c = refl
  choice-menu true c =
      elim (Bool-cases
        ((crypto.eddsa_sign c.bip32_path c.bip32_path_len c.tx_info.m_hash).0 == 0)) [
          | inl e ↦ rw e refl
          | inr e ↦ rw e refl
        ]

  -- A choice on an email is answered by what the context holds.
  on_email :
      (d : Device) (pairs : List Pair) (confirm : Bool)
      → IsGuarded crypto d
      → d.screen ≡ transaction_review pairs
      → (c : Context) × (review_choice ops crypto tlv d confirm
          ≡ some (
              device_of (
                record (d.globals) { context = c },
                choice_reply crypto confirm d.globals.context,
              )))
        × IsContext c
  unfolding review_choice
  on_email d pairs confirm h e =
      let (c, ran, _, _, well) =
        validate_transaction_lem crypto signs confirm d.globals.context h.well in
      (c, rw e (ap (λ o. o >>= λ r. some (device_of (with_context d.globals r))) ran), well)

  decided :
      (d : Device) (s : Screen) (confirm : Bool)
      → IsGuarded crypto d
      → d.screen ≡ s
      → s ≢ menu
      → (r : Device × Reply) × (review_choice ops crypto tlv d confirm ≡ some r)
        × IsGuarded crypto r.0
  unfolding review_choice validate_pubkey helper_send_response_pubkey
  decided d menu confirm h e waits = absurd (waits refl)
  decided d (transaction_review pairs) confirm h e waits =
      let (c, ran, well) = on_email d pairs confirm h e in
      (
        _,
        ran,
        record {
          well = well;
          shown_ok =
              subst (λ x. ShownOk crypto x (hash_of c))
                (sym (choice-menu confirm d.globals.context)) tt;
        },
      )
  decided d (address_review text) true h e waits = (
    device_of (d.globals, helper_send_response_pubkey d.globals.context),
    rw e refl,
    record { well = h.well; shown_ok = tt },
  )
  decided d (address_review text) false h e waits = (
    device_of (d.globals, send_sw swo_conditions_not_satisfied),
    rw e refl,
    record { well = h.well; shown_ok = tt },
  )

  OverStep-IsGuarded :
      {d d' : Device} {reply : Reply}
      → IsGuarded crypto d
      → OverStep ops crypto tlv d d' reply
      → IsGuarded crypto d'
  OverStep-IsGuarded {d} h (arrives cmd may ok ran) =
      let (r, returned, holds) = receive_over-IsGuarded d cmd h may ok in
      one_result (λ (x : Device × Reply). IsGuarded crypto x.0) returned ran holds
  OverStep-IsGuarded {d} h (decides confirm ran) =
      let waits : d.screen ≢ menu =
        λ e. ground (arith, no_choice ops crypto tlv d confirm e, ran) in
      let (r, returned, holds) = decided d d.screen confirm h refl waits in
      one_result (λ (x : Device × Reply). IsGuarded crypto x.0) returned ran holds

  OverReachable-IsGuarded : {d : Device} → OverReachable ops crypto tlv d → IsGuarded crypto d
  unfolding start
  OverReachable-IsGuarded begins = record { well = zero_context-IsContext; shown_ok = tt }
  OverReachable-IsGuarded (goes r s) = OverStep-IsGuarded (OverReachable-IsGuarded r) s

  -- Commands may come while an email's review waits, but for SIGN_TOKEN_TX: after any run, the user's
  -- approval is answered with the signature of the digest of an allowed message with that very
  -- review, or of 32 zero bytes where a command has cleared the context (or with the status word of a
  -- failed signature); never with that of another message's digest.
  pub over-MaySign :
      (d : Device) (pairs : List Pair)
      → OverReachable ops crypto tlv d
      → d.screen ≡ transaction_review pairs
      → let c = d.globals.context in
        (g : Globals) × (digest : Bytes) × (review_choice ops crypto tlv d true
          ≡ some (device_of (g, signature_reply crypto c.bip32_path c.bip32_path_len digest)))
        × MaySign crypto pairs digest
  over-MaySign d pairs r e =
      let h = OverReachable-IsGuarded r in
      let (c, ran, _) = on_email d pairs true h e in
      (
        record (d.globals) { context = c },
        hash_of d.globals.context,
        ran,
        subst (λ x. ShownOk crypto x (digest_of d.globals)) e h.shown_ok,
      )
