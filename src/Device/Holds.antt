-- ===== src/Device/Holds.antt =====
-- The invariant of the device: the globals of src/app_main.c and what is on the screen.
use ledger_hardmail_app.Common.{Bool, none, refl, ℕ, ◌≡◌, List, ◌==◌, Bool-cases, inl, inr}
use ledger_hardmail_app.Sdk.Buffers.{Bytes, BufferOps}
use ledger_hardmail_app.Sdk.Crypto.{CryptoOps}
use ledger_hardmail_app.Context.{Context, Reply}
use ledger_hardmail_app.Sign.Chunks.{IsContext, zero_context-IsContext}
use ledger_hardmail_app.Sign.Approvable.{IsApprovable}
use ledger_hardmail_app.Address.Answers.{ShowsAddress}
use ledger_hardmail_app.Validate.Choice.{signature_reply}
use ledger_hardmail_app.Tokens.{TlvOps}
use ledger_hardmail_app.Dispatcher.{Globals}
use ledger_hardmail_app.Dispatcher.Answers.{Answer, responded, email_review, key_review}
use ledger_hardmail_app.Device.{
  Screen, menu, transaction_review, address_review, Device, device_of, start, review_choice,
}

-- What is on the screen fits what would be signed or sent.
abbrev pub ScreenOk : CryptoOps → Screen → Context → Type 0
ScreenOk crypto menu c = Unit {0}
ScreenOk crypto (transaction_review pairs) c = IsApprovable crypto c pairs
ScreenOk crypto (address_review text) c = ShowsAddress crypto c text

pub record IsDevice (crypto : CryptoOps) (d : Device) : Type 0 where
  pub well : IsContext d.globals.context
  pub screen_ok : ScreenOk crypto d.screen d.globals.context

pub of_Answer :
    (crypto : CryptoOps) (g : Globals) (reply : Reply)
    → Answer crypto (g.context, reply)
    → IsDevice crypto (device_of (g, reply)).0
of_Answer crypto g _ (responded h) = record { well = h; screen_ok = tt }
of_Answer crypto g _ (email_review h ok) = record { well = h; screen_ok = ok }
of_Answer crypto g _ (key_review h shows) = record { well = h; screen_ok = shows }

pub started-IsDevice :
    (ops : BufferOps) (crypto : CryptoOps) (tlv : TlvOps) → IsDevice crypto (start ops crypto tlv)
unfolding start
started-IsDevice ops crypto tlv = record { well = zero_context-IsContext; screen_ok = tt }

pub signed_IsDevice :
    (crypto : CryptoOps) (g : Globals) (path : List ℕ) (n : ℕ) (digest : Bytes)
    → IsContext g.context
    → IsDevice crypto (device_of (g, signature_reply crypto path n digest)).0
signed_IsDevice crypto g path n digest h =
    elim (Bool-cases ((crypto.eddsa_sign path n digest).0 == 0)) [
      | inl e ↦ record { well = h; screen_ok = rw e tt }
      | inr e ↦ record { well = h; screen_ok = rw e tt }
    ]

-- There is no choice without a review.
pub no_choice :
    (ops : BufferOps) (crypto : CryptoOps) (tlv : TlvOps) (d : Device) (confirm : Bool)
    → d.screen ≡ menu
    → review_choice ops crypto tlv d confirm ≡ none
unfolding review_choice
no_choice ops crypto tlv d confirm e = rw e refl
