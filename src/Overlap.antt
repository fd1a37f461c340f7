-- ===== src/Overlap.antt =====
-- The loop of src/app_main.c with commands that come while a review still waits for the user. The code
-- has no guard against them: that the transport holds them back is the SDK's doing.
pub mod Digest
pub mod Commands
pub mod Safe
pub mod Unshown
use ledger_hardmail_app.Common.{◌≡◌, ◌≢◌, Bool, List, Option, none, some, ◌>>=◌}
use ledger_hardmail_app.Sdk.Buffers.{Bytes, BufferOps}
use ledger_hardmail_app.Sdk.Crypto.{CryptoOps}
use ledger_hardmail_app.Context.{
  Pair, Reply, respond, review, review_address, send_sw, swo_wrong_data_length,
}
use ledger_hardmail_app.Tokens.{TlvOps}
use ledger_hardmail_app.Dispatcher.{Command, Globals, instruction, sign_token_tx, apdu_dispatcher}
use ledger_hardmail_app.Device.{
  Screen, transaction_review, address_review, Device, CommandOk, start, review_choice,
}

-- An answer to the host leaves the screen as it is, and a new review replaces an older one.
abbrev pub screen_over : Screen → Reply → Screen
screen_over s (respond bytes sw) = s
screen_over s (review pairs) = transaction_review pairs
screen_over s (review_address text) = address_review text

abbrev pub device_over : Screen → Globals × Reply → Device × Reply
device_over s (g, reply) = (record { globals = g; screen = screen_over s reply }, reply)

abbrev pub MayArrive : Screen → Option Command → Type 0
MayArrive (transaction_review pairs) (some cmd) = instruction cmd.ins ≢ sign_token_tx
MayArrive _ _ = Unit {0}

module _ (ops : BufferOps) (crypto : CryptoOps) (tlv : TlvOps) where
  -- One round of the loop of `app_main`, whatever is on the screen.
  unfoldable pub receive_over : Device → Option Command → Option (Device × Reply)
  receive_over d none = some (device_over d.screen (d.globals, send_sw swo_wrong_data_length))
  receive_over d (some cmd) = do
    r ← apdu_dispatcher ops crypto tlv d.globals cmd
    some (device_over d.screen r)

  -- A step with no transport that holds commands back: only SIGN_TOKEN_TX does not come while an email
  -- is shown.
  pub data OverStep : Device → Device → Reply → Type 0 where
    arrives :
        {d d' : Device} {reply : Reply} (cmd : Option Command)
        → MayArrive d.screen cmd
        → CommandOk cmd
        → receive_over d cmd ≡ some (d', reply)
        → OverStep d d' reply
    decides :
        {d d' : Device} {reply : Reply} (confirm : Bool)
        → review_choice ops crypto tlv d confirm ≡ some (d', reply)
        → OverStep d d' reply

  pub data OverReachable : Device → Type 0 where
    begins : OverReachable (start ops crypto tlv)
    goes :
        {d d' : Device} {reply : Reply} → OverReachable d → OverStep d d' reply → OverReachable d'
