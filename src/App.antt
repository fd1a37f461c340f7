-- ===== src/App.antt =====
-- `app_main` of src/app_main.c: the set-up, and the loop over what is received, with the callbacks of
-- the reviews between.
pub mod Loop
pub mod Screens
pub mod Approved
pub mod Session
pub mod Commands
pub mod Follows
pub mod Signing
pub mod Keys
pub mod Rounds
pub mod Refines
pub mod Consent
pub mod Keyed
pub mod Addresses
use ledger_hardmail_app.Common.{
  Bool, true, false, not, List, [], ◌∷◌, ◌++◌, Option, none, some, if◌then◌else◌, ◌>>=◌,
}
use ledger_hardmail_app.Sdk.Buffers.{BufferOps}
use ledger_hardmail_app.Sdk.Crypto.{CryptoOps}
use ledger_hardmail_app.Context.{Reply, respond, review, review_address}
use ledger_hardmail_app.Tokens.{TlvOps}
use ledger_hardmail_app.Dispatcher.{Command}
use ledger_hardmail_app.Settings.{Menu, app_start}
use ledger_hardmail_app.Device.{Screen, menu, Device, start, receive, review_choice}

-- What happens in a round: `io_recv_command` fails; it receives bytes that `apdu_parser` refuses; it
-- receives a command, whose answer can be sent or not; or the user makes a choice.
pub data Round : Type 0 where
  recv_failed : Round
  bad_length : Round
  received : Command → Bool → Round
  chosen : Bool → Round

-- `apdu_dispatcher (&cmd) < 0`: only the sending of an answer fails.
abbrev pub failed : Bool → Reply → Bool
failed sent (respond bytes sw) = not sent
failed sent (review pairs) = false
failed sent (review_address text) = false

abbrev pub is_menu : Screen → Bool
is_menu menu = true
is_menu _ = false

-- The device and the answers of a run, and whether the loop has returned.
pub record Run : Type 0 where
  pub device : Device
  pub replies : List Reply
  pub returned : Bool

abbrev pub stopped : Device → Bool → Run
stopped d returned = record { device = d; replies = []; returned = returned }

abbrev pub reply_first : Reply → Run → Run
reply_first reply run = record run { replies = reply ∷ run.replies }

module _ (ops : BufferOps) (crypto : CryptoOps) (tlv : TlvOps) where
  -- The loop of `app_main`. No command is received while a review waits, and there is no choice
  -- without one.
  unfoldable pub app_loop : Device → List Round → Option Run
  app_loop d [] = some (stopped d false)
  app_loop d (recv_failed ∷ rounds) = some (stopped d true)
  app_loop d (bad_length ∷ rounds) =
      if is_menu d.screen
      then (do
        (d', reply) ← receive ops crypto tlv d none
        run ← app_loop d' rounds
        some (reply_first reply run))
      else app_loop d rounds
  app_loop d (received cmd sent ∷ rounds) =
      if is_menu d.screen
      then (do
        (d', reply) ← receive ops crypto tlv d (some cmd)
        if failed sent reply
            then some (stopped d' true)
            else do run ← app_loop d' rounds; some (reply_first reply run))
      else app_loop d rounds
  app_loop d (chosen confirm ∷ rounds) = if is_menu d.screen then app_loop d rounds else (do
    (d', reply) ← review_choice ops crypto tlv d confirm
    run ← app_loop d' rounds
    some (reply_first reply run))

  -- `app_main`: the home screen is drawn, the globals are reset, the flash is set up, and the loop runs.
  unfoldable pub app_main : Menu → List Round → Menu × Option Run
  app_main m rounds = (app_start m, app_loop (start ops crypto tlv) rounds)
