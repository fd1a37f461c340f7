-- ===== src/Device/Bounds.antt =====
-- How long the answers of the loop of src/app_main.c and of the review callbacks are.
use ledger_hardmail_app.Common.{
  ◌≡◌, ◌≢◌, refl, Bool, true, false, Option, none, some, ◌>>=◌, arith, ◌⊎◌, inl, inr, subst,
}
use ledger_hardmail_app.Sdk.Buffers.{BufferOps, BufferLaws}
use ledger_hardmail_app.Sdk.Crypto.{CryptoOps, HexLaw, HashLaw, SignLaw}
use ledger_hardmail_app.Context.{Context, Reply}
use ledger_hardmail_app.Address.{validate_pubkey}
use ledger_hardmail_app.Validate.{validate_transaction}
use ledger_hardmail_app.Tokens.{TlvOps}
use ledger_hardmail_app.Tokens.Lookup.{TlvLaws}
use ledger_hardmail_app.Dispatcher.{Command, Globals, with_context}
use ledger_hardmail_app.Dispatcher.Bounds.{apdu_dispatcher-Short}
use ledger_hardmail_app.Dispatcher.Lengths.{
  IsShort, Short, fits, faults, validate_transaction-Short, helper_send_response_pubkey-IsShort,
}
use ledger_hardmail_app.Device.{
  Screen, menu, transaction_review, address_review, Device, device_of, CommandOk, receive,
  review_choice,
}
use ledger_hardmail_app.Device.Invariant.{receive-IsDevice, review_choice-IsDevice}
use ledger_hardmail_app.Device.Holds.{IsDevice}

menu-cases : (s : Screen) → (s ≡ menu) ⊎ (s ≢ menu)
menu-cases menu = inl refl
menu-cases (transaction_review pairs) = inr (λ e. ground (arith, e))
menu-cases (address_review text) = inr (λ e. ground (arith, e))

device_first : {o : Option (Globals × Reply)} → Short o → Short (o >>= λ r. some (device_of r))
device_first (fits h) = fits h
device_first faults = faults

of_context :
    (g : Globals) {o : Option (Context × Reply)}
    → Short o
    → Short (o >>= λ r. some (device_of (with_context g r)))
of_context g (fits h) = fits h
of_context g faults = faults

returned_Short :
    {A : Type 0} {o : Option (A × Reply)} (r : A × Reply) → Short o → o ≡ some r → IsShort r.1
returned_Short r (fits {a} {reply} h) e = subst IsShort (ground (arith, e)) h
returned_Short r faults e = absurd (ground (arith, e))

module _ (ops : BufferOps) (crypto : CryptoOps) (tlv : TlvOps) where
  receive-Short : (d : Device) (cmd : Option Command) → Short (receive ops crypto tlv d cmd)
  unfolding receive
  receive-Short d none = fits (omega arith)
  receive-Short d (some cmd) = device_first (apdu_dispatcher-Short ops crypto tlv d.globals cmd)

  choice_on-Short :
      (screen : Screen) (g : Globals) (confirm : Bool)
      → Short (elim screen [
        | menu ↦ none
        | transaction_review pairs ↦ do
          r ← validate_transaction crypto confirm g.context
          some (device_of (with_context g r))
        | address_review text ↦ some (device_of (g, validate_pubkey confirm g.context))
      ])
  unfolding validate_pubkey
  choice_on-Short menu g confirm = faults
  choice_on-Short (transaction_review pairs) g confirm =
      of_context g (validate_transaction-Short crypto confirm g.context)
  choice_on-Short (address_review text) g true =
      fits (helper_send_response_pubkey-IsShort g.context)
  choice_on-Short (address_review text) g false = fits (omega arith)

  review_choice-Short :
      (d : Device) (confirm : Bool) → Short (review_choice ops crypto tlv d confirm)
  unfolding review_choice
  review_choice-Short d confirm = choice_on-Short d.screen d.globals confirm

module _ (ops : BufferOps) (laws : BufferLaws ops) (crypto : CryptoOps) (hexes : HexLaw crypto)
    (hashes : HashLaw crypto) (signs : SignLaw crypto) (tlv : TlvOps) (tokens : TlvLaws tlv) where
  -- In a well-formed device every command gets an answer of at most 99 bytes, and so does every choice
  -- on a review, unless a review is put on the screen instead.
  pub device-IsShort :
      (d : Device) (cmd : Option Command) (confirm : Bool)
      → IsDevice crypto d
      → CommandOk cmd
      → ((r : Device × Reply) × (receive ops crypto tlv d cmd ≡ some r) × IsShort r.1)
        × ((d.screen ≡ menu)
            ⊎ ((r : Device × Reply) × (review_choice ops crypto tlv d confirm ≡ some r)
                × IsShort r.1))
  device-IsShort d cmd confirm h ok =
      let (r, ran, _) = receive-IsDevice ops laws crypto hexes hashes signs tlv tokens d cmd h ok in
      (
        (r, ran, returned_Short r (receive-Short ops crypto tlv d cmd) ran),
        elim (menu-cases d.screen) [
          | inl e ↦ inl e
          | inr waits ↦
              let (r', chose, _) =
                review_choice-IsDevice ops laws crypto hexes hashes signs tlv tokens d confirm h
                  waits in
              inr
                (r', chose, returned_Short r' (review_choice-Short ops crypto tlv d confirm) chose)
        ],
      )
