-- ===== src/Device/Pages.antt =====
-- The status pages that the two `review_choice` callbacks show after a choice:
-- src/ui/nbgl_display_transaction.c and src/ui/nbgl_display_address.c.
use ledger_hardmail_app.Common.{
  ◌≡◌, ◌≢◌, refl, ap, Bool, true, false, ◌&&◌, List, Option, none, some, ◌>>=◌, ◌==◌, Bool-cases,
  inl, inr, if◌then◌else◌,
}
use ledger_hardmail_app.Sdk.Buffers.{BufferOps}
use ledger_hardmail_app.Sdk.Crypto.{CryptoOps, SignLaw}
use ledger_hardmail_app.Context.{
  Context, Pair, Reply, respond, StatusWord, send_sw, swo_success, swo_conditions_not_satisfied,
}
use ledger_hardmail_app.Sign.Chunks.{IsContext}
use ledger_hardmail_app.Address.{validate_pubkey, helper_send_response_pubkey}
use ledger_hardmail_app.Validate.Choice.{choice_reply, validate_transaction_lem}
use ledger_hardmail_app.Tokens.{TlvOps}
use ledger_hardmail_app.Dispatcher.{with_context}
use ledger_hardmail_app.Device.{
  Screen, menu, transaction_review, address_review, Device, device_of, review_choice,
}

-- `STATUS_TYPE_TRANSACTION_SIGNED` and the others.
pub data Page : Type 0 where
  transaction_signed : Page
  transaction_rejected : Page
  address_verified : Page
  address_rejected : Page

-- The page after a choice.
abbrev pub status_page : Screen → Bool → Option Page
status_page menu confirm = none
status_page (transaction_review pairs) confirm =
    some (if confirm then transaction_signed else transaction_rejected)
status_page (address_review text) confirm =
    some (if confirm then address_verified else address_rejected)

-- Whether a page tells the user that the request was carried out, and whether the host is told so.
abbrev pub claims : Page → Bool
claims transaction_signed = true
claims transaction_rejected = false
claims address_verified = true
claims address_rejected = false

abbrev pub is_success : StatusWord → Bool
is_success swo_success = true
is_success _ = false

abbrev pub succeeds : Reply → Bool
succeeds (respond bytes sw) = is_success sw
succeeds _ = false

module _ (ops : BufferOps) (crypto : CryptoOps) (tlv : TlvOps) where
  -- The callbacks in full: the answer, then the page, from which the SDK goes back to the menu.
  unfoldable pub review_choice_page : Device → Bool → Option (Device × Reply × Page)
  review_choice_page d confirm = do
    (d', reply) ← review_choice ops crypto tlv d confirm
    page ← status_page d.screen confirm
    some (d', reply, page)

-- Whether the answer to an approval can be given: an address needs no more, a signature has to succeed.
abbrev pub can_answer : CryptoOps → Context → Screen → Bool
can_answer crypto c (transaction_review pairs) =
    (crypto.eddsa_sign c.bip32_path c.bip32_path_len c.tx_info.m_hash).0 == 0
can_answer crypto c _ = true

page_claims :
    (confirm : Bool)
    → claims (if confirm then transaction_signed else transaction_rejected) ≡ confirm
page_claims true = refl
page_claims false = refl

signature_succeeds :
    (crypto : CryptoOps) (confirm : Bool) (c : Context) (pairs : List Pair)
    → succeeds (choice_reply crypto confirm c)
      ≡ (confirm && can_answer crypto c (transaction_review pairs))
signature_succeeds crypto false c pairs = refl
signature_succeeds crypto true c pairs =
    elim (Bool-cases ((crypto.eddsa_sign c.bip32_path c.bip32_path_len c.tx_info.m_hash).0 == 0)) [
      | inl e ↦ rw e refl
      | inr e ↦ rw e refl
    ]

module _ (ops : BufferOps) (crypto : CryptoOps) (signs : SignLaw crypto) (tlv : TlvOps) where
  choice_page :
      (d : Device) (s : Screen) (confirm : Bool)
      → IsContext d.globals.context
      → d.screen ≡ s
      → s ≢ menu
      → (d' : Device) × (reply : Reply) × (page : Page) × (review_choice_page ops crypto tlv d
            confirm
          ≡ some (d', reply, page))
        × (claims page ≡ confirm)
        × (succeeds reply ≡ (confirm && can_answer crypto d.globals.context s))
  unfolding review_choice_page review_choice validate_pubkey helper_send_response_pubkey
  choice_page d menu confirm h e waits = absurd (waits refl)
  choice_page d (transaction_review pairs) confirm h e waits =
      let c = d.globals.context in
      let (c', ran, _, _, _) = validate_transaction_lem crypto signs confirm c h in
      let reply = choice_reply crypto confirm c in
      let page = if confirm then transaction_signed else transaction_rejected in
      let d' = (device_of (with_context d.globals (c', reply))).0 in
      (
        d',
        reply,
        page,
        rw e (
            ap
              (λ o.
                (o >>= λ r. some (device_of (with_context d.globals r))) >>= λ (x : Device × Reply).
                some (x.0, x.1, page))
              ran),
        page_claims confirm,
        signature_succeeds crypto confirm c pairs,
      )
  choice_page d (address_review text) true h e waits = (
    record { globals = d.globals; screen = menu },
    helper_send_response_pubkey d.globals.context,
    address_verified,
    rw e refl,
    refl,
    refl,
  )
  choice_page d (address_review text) false h e waits = (
    record { globals = d.globals; screen = menu },
    send_sw swo_conditions_not_satisfied,
    address_rejected,
    rw e refl,
    refl,
    refl,
  )

  -- With a well-formed context and a review on the screen, a choice is answered and followed by a
  -- status page. The page says that the email was signed, or the address verified, exactly when the
  -- user approved. The answer to the host says so exactly when the user approved and, for an email,
  -- the signature did not fail: where it fails, the page and the answer disagree.
  pub review_choice-page :
      (d : Device) (confirm : Bool)
      → IsContext d.globals.context
      → d.screen ≢ menu
      → (d' : Device) × (reply : Reply) × (page : Page) × (review_choice_page ops crypto tlv d
            confirm
          ≡ some (d', reply, page))
        × (claims page ≡ confirm)
        × (succeeds reply ≡ (confirm && can_answer crypto d.globals.context d.screen))
  review_choice-page d confirm h waits = choice_page d d.screen confirm h refl waits
