-- ===== src/App/Session.antt =====
-- What a user and a host see of the loop of src/app_main.c: an abstract session over what is asked of
-- the app, with no arrays, stored keys and hashes, or state field.
use ledger_hardmail_app.Context.{
  respond, swo_success, StatusWord, Reply, send_sw, confirm_address, swo_wrong_data_length,
  swo_conditions_not_satisfied,
}
use ledger_hardmail_app.Display.{codes}
use ledger_hardmail_app.Common.{
  ℕ, suc, ◌≤◌, Bool, true, false, not, List, [], ◌∷◌, Option, none, some, length, if◌then◌else◌,
}
use ledger_hardmail_app.Sdk.Buffers.{Bytes, BufferOps}
use ledger_hardmail_app.Sdk.Crypto.{CryptoOps}
use ledger_hardmail_app.Wire.{AllBytes}
use ledger_hardmail_app.Address.Keys.{key_answer}
use ledger_hardmail_app.Address.Shown.{key_review, is_address}
use ledger_hardmail_app.Sign.Gather.{chunk_buffer}
use ledger_hardmail_app.Dispatcher.{Command}
use ledger_hardmail_app.Tokens.{TlvOps, handler_provide_token_info}
use ledger_hardmail_app.Dispatcher.Errors.{Refusal}
use ledger_hardmail_app.Machine.{
  Session, start_session, begin, chunk, choose, path_read, session_step,
}
use ledger_hardmail_app.App.{Round, received, chosen, bad_length}

-- GET_VERSION or GET_APP_NAME; GET_PUBLIC_KEY, shown or not; the path of a request to sign; a later
-- chunk, numbered from 1 on by the successor; the user's choice; PROVIDE_TOKEN_INFO; a command that is
-- refused with a status word; and bytes that are no command.
pub data Asked : Type 0 where
  asks_version : Asked
  asks_name : Asked
  asks_key : Bool → Bytes → Asked
  opens : Bool → Bytes → Asked
  sends : Bool → ℕ → Bool → Bytes → Asked
  decides : Bool → Asked
  provides : Bytes → Asked
  misasks : Command → StatusWord → Asked
  garbles : Asked

abbrev pub flag : Bool → ℕ → ℕ
flag b n = if b then n else 0

abbrev pub no_data : ℕ → Command
no_data ins = record { cla = 0xe0; ins = ins; p1 = 0; p2 = 0; lc = 0; payload = none }

abbrev pub sign_command : Bool → ℕ → Bool → Bytes → Command
sign_command token number more bytes = record {
  cla = 0xe0;
  ins = if token then 0x07 else 0x06;
  p1 = number;
  p2 = flag more 0x80;
  lc = length bytes;
  payload = some bytes;
}

abbrev pub key_command : Bool → Bytes → Command
key_command display bytes = record {
  cla = 0xe0;
  ins = 0x05;
  p1 = flag display 1;
  p2 = 0;
  lc = length bytes;
  payload = some bytes;
}

abbrev pub token_command : Bytes → Command
token_command bytes = record {
  cla = 0xe0;
  ins = 0x22;
  p1 = 0;
  p2 = 0;
  lc = length bytes;
  payload = some bytes;
}

-- The round of the loop for it, with an answer that can be sent.
abbrev pub round_of : Asked → Round
round_of asks_version = received (no_data 0x03) true
round_of asks_name = received (no_data 0x04) true
round_of (asks_key display bytes) = received (key_command display bytes) true
round_of (opens token bytes) = received (sign_command token 0 true bytes) true
round_of (sends token number more bytes) =
    received (sign_command token (suc number) more bytes) true
round_of (decides confirm) = chosen confirm
round_of (provides bytes) = received (token_command bytes) true
round_of (misasks cmd sw) = received cmd true
round_of garbles = bad_length

abbrev pub rounds_of : List Asked → List Round
rounds_of [] = []
rounds_of (a ∷ rest) = round_of a ∷ rounds_of rest

-- Chunks are bytes, their numbers are at most P1_MAX, and there is a reason for a refusal.
abbrev pub AskedOk : Asked → Type 0
AskedOk (sends token number more bytes) = (suc number ≤ 16) × AllBytes bytes
AskedOk (misasks cmd sw) = Refusal cmd sw
AskedOk _ = Unit {0}

abbrev pub AllAskedOk : List Asked → Type 0
AllAskedOk [] = Unit {0}
AllAskedOk (a ∷ rest) = AskedOk a × AllAskedOk rest

-- The signing session, and whether the address of its path's key is on the screen.
pub record AppSession : Type 0 where
  pub signing : Session
  pub shows_key : Bool

abbrev pub start_app_session : AppSession
start_app_session = record { signing = start_session; shows_key = false }

module _ (ops : BufferOps) (crypto : CryptoOps) where
  -- A request for a key drops what was signed before.
  abbrev pub key_step : Bool → Bytes → AppSession × Option Reply
  key_step display bytes =
      let (ok, n, elements) = path_read ops (chunk_buffer bytes) in
      let reply =
        if not ok
        then send_sw swo_wrong_data_length
        else if display
        then key_review crypto elements n
        else key_answer crypto elements n in
      (
        record {
          signing = record {
            request = confirm_address;
            received = [];
            path = elements;
            path_len = n;
            pending = none;
          };
          shows_key = is_address reply;
        },
        some reply,
      )

abbrev pub signing_step : AppSession → Session × Option Reply → AppSession × Option Reply
signing_step x (a, reply) = (record x { signing = a }, reply)

abbrev pub with_answer : Option Reply → List Reply → List Reply
with_answer none replies = replies
with_answer (some reply) replies = reply ∷ replies

-- The version 2.3.2 and the name.
abbrev pub version_answer : Reply
version_answer = respond (2 ∷ 3 ∷ 2 ∷ []) swo_success

abbrev pub name_answer : Reply
name_answer = respond (codes "HardMail") swo_success

-- While a review waits nothing is answered to the host.
abbrev pub when_idle : AppSession → AppSession × Option Reply → AppSession × Option Reply
when_idle x r =
    if x.shows_key then (x, none) else elim x.signing.pending [ some m ↦ (x, none) | none ↦ r ]

-- Whether a token is accepted.
abbrev pub token_answer : TlvOps → Bytes → Option Reply
token_answer tlv bytes = elim (handler_provide_token_info tlv (chunk_buffer bytes)) [
  | none ↦ none
  | some (stored, sw) ↦ some (send_sw sw)
]

module _ (ops : BufferOps) (crypto : CryptoOps) (tlv : TlvOps) where
  -- While a review waits only a choice counts, and only then.
  unfoldable pub app_step : Asked → AppSession → AppSession × Option Reply
  app_step (decides confirm) x =
      if x.shows_key
      then (
        record x { shows_key = false },
        some (
            if confirm
            then key_answer crypto x.signing.path x.signing.path_len
            else send_sw swo_conditions_not_satisfied),
      )
      else signing_step x (session_step ops crypto (choose confirm) x.signing)
  app_step (opens token bytes) x =
      if x.shows_key
      then (x, none)
      else signing_step x (session_step ops crypto (begin token (chunk_buffer bytes)) x.signing)
  app_step (sends token number more bytes) x =
      if x.shows_key
      then (x, none)
      else signing_step x (session_step ops crypto (chunk token number more bytes) x.signing)
  app_step (asks_key display bytes) x = when_idle x (key_step ops crypto display bytes)
  app_step asks_version x = when_idle x (x, some version_answer)
  app_step asks_name x = when_idle x (x, some name_answer)
  app_step (provides bytes) x = when_idle x (x, token_answer tlv bytes)
  app_step (misasks cmd sw) x = when_idle x (x, some (send_sw sw))
  app_step garbles x = when_idle x (x, some (send_sw swo_wrong_data_length))

  -- The answers and reviews of a session.
  unfoldable pub app_session : List Asked → AppSession → AppSession × List Reply
  app_session [] x = (x, [])
  app_session (a ∷ rest) x =
      let (x', reply) = app_step a x in
      let (x'', replies) = app_session rest x' in (x'', with_answer reply replies)
