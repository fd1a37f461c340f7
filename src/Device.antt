-- ===== src/Device.antt =====
-- The loop of src/app_main.c and the callbacks of the reviews, as steps of the device.
pub mod Holds
pub mod Invariant
pub mod Bounds
pub mod Pages
use ledger_hardmail_app.Common.{
  ℕ, ◌≡◌, Bool, true, false, List, [], ◌∷◌, Option, none, some, if◌then◌else◌, ◌>>=◌,
}
use ledger_hardmail_app.Sdk.Buffers.{Bytes, BufferOps}
use ledger_hardmail_app.Sdk.Crypto.{CryptoOps}
use ledger_hardmail_app.Context.{
  Context, zero_context, Pair, Reply, respond, review, review_address, send_sw,
  swo_wrong_data_length,
}
use ledger_hardmail_app.Address.{validate_pubkey}
use ledger_hardmail_app.Validate.{validate_transaction}
use ledger_hardmail_app.Tokens.{TlvOps, init_dynamic_token_storage}
use ledger_hardmail_app.Dispatcher.{Command, IsPayload, Globals, with_context, apdu_dispatcher}

-- What is on the screen and waits for the user.
pub data Screen : Type 0 where
  menu : Screen
  transaction_review : List Pair → Screen
  address_review : Bytes → Screen

pub record Device : Type 0 where
  pub globals : Globals
  pub screen : Screen

abbrev pub screen_of : Reply → Screen
screen_of (respond bytes sw) = menu
screen_of (review pairs) = transaction_review pairs
screen_of (review_address text) = address_review text

abbrev pub device_of : Globals × Reply → Device × Reply
device_of (g, reply) = (record { globals = g; screen = screen_of reply }, reply)

abbrev pub CommandOk : Option Command → Type 0
CommandOk none = Unit {0}
CommandOk (some cmd) = IsPayload cmd.lc cmd.payload

module _ (ops : BufferOps) (crypto : CryptoOps) (tlv : TlvOps) where
  -- `app_main` up to the loop.
  unfoldable pub start : Device
  start = record {
    globals = record { context = zero_context; token = init_dynamic_token_storage tlv };
    screen = menu;
  }

  -- One round of the loop of `app_main`, for a command that `apdu_parser` could parse or not.
  unfoldable pub receive : Device → Option Command → Option (Device × Reply)
  receive d none = some (device_of (d.globals, send_sw swo_wrong_data_length))
  receive d (some cmd) = do r ← apdu_dispatcher ops crypto tlv d.globals cmd; some (device_of r)

  -- The two `review_choice` callbacks: the user's answer to the review on the screen.
  unfoldable pub review_choice : Device → Bool → Option (Device × Reply)
  review_choice d confirm = elim d.screen [
    | menu ↦ none
    | transaction_review pairs ↦ do
      r ← validate_transaction crypto confirm d.globals.context
      some (device_of (with_context d.globals r))
    | address_review text ↦ some (device_of (d.globals, validate_pubkey confirm d.globals.context))
  ]

  -- The host sends a command only when the last one is answered, so not while a review waits.
  pub data Step : Device → Device → Reply → Type 0 where
    command :
        {d d' : Device} {reply : Reply} (cmd : Option Command)
        → d.screen ≡ menu
        → CommandOk cmd
        → receive d cmd ≡ some (d', reply)
        → Step d d' reply
    choice :
        {d d' : Device} {reply : Reply} (confirm : Bool)
        → review_choice d confirm ≡ some (d', reply)
        → Step d d' reply

  pub data Reachable : Device → Type 0 where
    started : Reachable start
    stepped : {d d' : Device} {reply : Reply} → Reachable d → Step d d' reply → Reachable d'
