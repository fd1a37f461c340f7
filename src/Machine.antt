-- ===== src/Machine.antt =====
-- The signing of src/handler/sign_tx.c and src/ui/action/validate.c as a machine over events, and the
-- abstract session that it implements: no arrays, pointers, stored hash, signature or state field.
pub mod Stands
pub mod Chunks
pub mod Choices
pub mod Refines
use ledger_hardmail_app.Common.{
  ℕ, zero, suc, ◌+◌, Bool, true, false, not, List, [], ◌∷◌, ◌++◌, Option, none, some, length, ltb,
  if◌then◌else◌, ◌>>=◌,
}
use ledger_hardmail_app.Sdk.Buffers.{Bytes, Buffer, BufferOps}
use ledger_hardmail_app.Sdk.Crypto.{CryptoOps}
use ledger_hardmail_app.Wire.{Message, encode}
use ledger_hardmail_app.Wire.Reference.{Verdict, accept, refuse, reference}
use ledger_hardmail_app.Context.{
  Context, zero_context, RequestType, confirm_address, confirm_transaction, is_request,
  max_transaction_len, Pair, Reply, respond, review, review_address, send_sw, swo_success,
  swo_wrong_data_length, swo_conditions_not_satisfied, swo_incorrect_data,
}
use ledger_hardmail_app.Display.Review.{review_of}
use ledger_hardmail_app.Sign.{handler_sign_tx, request_of}
use ledger_hardmail_app.Sign.Gather.{chunk_buffer}
use ledger_hardmail_app.Validate.{validate_transaction}
use ledger_hardmail_app.Validate.Choice.{signature_reply}

-- A first chunk with a path, a later chunk (numbered from 1 on by the successor), and the user's
-- choice; the flag says whether the instruction is SIGN_TOKEN_TX.
pub data Event : Type 0 where
  begin : Bool → Buffer → Event
  chunk : Bool → ℕ → Bool → Bytes → Event
  choose : Bool → Event

-- The context, and the review on the screen.
pub record Signer : Type 0 where
  pub context : Context
  pub shown : Option (List Pair)

abbrev pub start_signer : Signer
start_signer = record { context = zero_context; shown = none }

abbrev pub shown_of : Reply → Option (List Pair)
shown_of (respond bytes sw) = none
shown_of (review pairs) = some pairs
shown_of (review_address text) = none

abbrev pub signer_of : Context × Reply → Signer × Option Reply
signer_of (c, reply) = (record { context = c; shown = shown_of reply }, some reply)

module _ (ops : BufferOps) (crypto : CryptoOps) where
  -- One event. While a review is shown no command is received, and without one there is no choice.
  unfoldable pub sign_step : Event → Signer → Option (Signer × Option Reply)
  sign_step (begin token path) s = elim s.shown [
    | some pairs ↦ some (s, none)
    | none ↦ do r ← handler_sign_tx ops crypto path 0 true token s.context; some (signer_of r)
  ]
  sign_step (chunk token number more bytes) s = elim s.shown [
    | some pairs ↦ some (s, none)
    | none ↦ do
      r ← handler_sign_tx ops crypto (chunk_buffer bytes) (suc number) more token s.context
      some (signer_of r)
  ]
  sign_step (choose confirm) s = elim s.shown [
    | none ↦ some (s, none)
    | some pairs ↦ do r ← validate_transaction crypto confirm s.context; some (signer_of r)
  ]

  -- A list of events: the signer afterwards, and what was sent or shown for each.
  unfoldable pub sign_run : List Event → Signer → Option (Signer × List (Option Reply))
  sign_run [] s = some (s, [])
  sign_run (event ∷ events) s = do
    (s', reply) ← sign_step event s
    (s'', replies) ← sign_run events s'
    some (s'', reply ∷ replies)

-- What a session is, abstractly: the request and its path, the bytes received for it, and the message
-- that waits for the user.
pub record Session : Type 0 where
  pub request : RequestType
  pub received : Bytes
  pub path : List ℕ
  pub path_len : ℕ
  pub pending : Option Message

abbrev pub start_session : Session
start_session = record {
  request = confirm_address;
  received = [];
  path = [];
  path_len = 0;
  pending = none;
}

-- What the path in a first chunk is read as.
abbrev pub path_read : BufferOps → Buffer → Bool × ℕ × List ℕ
path_read ops b =
    let (ok, n, b1) = ops.read_u8 b in
    let (ok_path, path, _) = ops.read_bip32_path b1 n in
    if ok then (ok_path, n, path) else (false, n, [])

-- The whole payload is received: a message of an email request is shown.
abbrev pub judged : Session → Verdict Message → Session × Option Reply
judged a (refuse e) = (a, some (send_sw swo_incorrect_data))
judged a (accept m r) =
    if is_request a.request confirm_transaction
    then (record a { pending = some m }, some (review (review_of m)))
    else (a, some (send_sw swo_conditions_not_satisfied))

-- A later chunk: of the same request, and within the limit in all.
unfoldable pub take_chunk : Bool → Bool → Bytes → Session → Session × Option Reply
take_chunk token more bytes a =
    let joined = record a { received = a.received ++ bytes } in
    if not (is_request a.request (request_of token))
    then (a, some (send_sw swo_conditions_not_satisfied))
    else if ltb max_transaction_len (length a.received + length bytes)
    then (a, some (send_sw swo_wrong_data_length))
    else if more
    then (joined, some (send_sw swo_success))
    else judged joined (reference (a.received ++ bytes))

module _ (ops : BufferOps) (crypto : CryptoOps) where
  unfoldable pub session_step : Event → Session → Session × Option Reply
  session_step (begin token path) a = elim a.pending [
    | some m ↦ (a, none)
    | none ↦
        let (ok, n, elements) = path_read ops path in
        (
          record {
            request = request_of token;
            received = [];
            path = elements;
            path_len = n;
            pending = none;
          },
          some (send_sw (if ok then swo_success else swo_wrong_data_length)),
        )
  ]
  session_step (chunk token number more bytes) a = elim a.pending [
    | some m ↦ (a, none)
    | none ↦ take_chunk token more bytes a
  ]
  session_step (choose confirm) a = elim a.pending [
    | none ↦ (a, none)
    | some m ↦ (
      record a { pending = none },
      some (
          if confirm
          then signature_reply crypto a.path a.path_len (crypto.hash_sha256 (encode m)).1
          else send_sw swo_conditions_not_satisfied),
    )
  ]

  unfoldable pub session_run : List Event → Session → Session × List (Option Reply)
  session_run [] a = (a, [])
  session_run (event ∷ events) a =
      let (a', reply) = session_step event a in
      let (a'', replies) = session_run events a' in (a'', reply ∷ replies)
