-- ===== src/App/Follows.antt =====
-- How a device of src/app_main.c follows the abstract session.
use ledger_hardmail_app.Common.{
  ◌≡◌, refl, ◌+◌, Bool, true, false, not, List, ◌∷◌, ◌++◌, Option, none, some, length, ltb,
  if◌then◌else◌, ◌>>=◌, Option-cases, Bool-cases, inl, inr, ◌==◌,
}
use ledger_hardmail_app.Sdk.Buffers.{Bytes, BufferOps}
use ledger_hardmail_app.Sdk.Crypto.{CryptoOps}
use ledger_hardmail_app.Wire.{Message, encode}
use ledger_hardmail_app.Wire.Reference.{Verdict, accept, refuse, reference}
use ledger_hardmail_app.Context.{Pair, Reply, is_request, confirm_transaction, max_transaction_len}
use ledger_hardmail_app.Address.{helper_send_response_pubkey}
use ledger_hardmail_app.Address.Keys.{key_answer}
use ledger_hardmail_app.Sign.{request_of}
use ledger_hardmail_app.Tokens.{TlvOps}
use ledger_hardmail_app.Dispatcher.{Globals}
use ledger_hardmail_app.Device.{Screen, menu, transaction_review, address_review, Device, screen_of}
use ledger_hardmail_app.Machine.{
  Event, begin, chunk, choose, Session, shown_of, judged, take_chunk, session_step,
}
use ledger_hardmail_app.Machine.Stands.{Stands}
use ledger_hardmail_app.App.{Round, Run, reply_first, app_loop}
use ledger_hardmail_app.App.Session.{Asked, round_of, AppSession}

abbrev pub screen_at : Option (List Pair) → Screen
screen_at none = menu
screen_at (some pairs) = transaction_review pairs

-- With no address on the screen the signer stands for the session. With one, nothing of an email is
-- pending, and the answer to an approval is the key of the session's path.
pub data Follows (crypto : CryptoOps) : Device → AppSession → Type 0 where
  signing :
      {g : Globals} {shown : Option (List Pair)} {a : Session}
      → Stands crypto (record { context = g.context; shown = shown }) a
      → Follows crypto
          (record { globals = g; screen = screen_at shown })
          (record { signing = a; shows_key = false })
  showing :
      {g : Globals} {text : Bytes} {a : Session}
      → Stands crypto (record { context = g.context; shown = none }) a
      → helper_send_response_pubkey g.context ≡ key_answer crypto a.path a.path_len
      → Follows crypto
          (record { globals = g; screen = address_review text })
          (record { signing = a; shows_key = true })

abbrev pub answer_first : Option Reply → Run → Run
answer_first none run = run
answer_first (some reply) run = reply_first reply run

-- A round of the loop, and the session's step.
abbrev pub Steps :
    BufferOps → CryptoOps → TlvOps → Asked → Device → AppSession × Option Reply → Type 0
Steps ops crypto tlv asked d (x, reply) =
    (d' : Device) × ((rounds : List Round)
      → app_loop ops crypto tlv d (round_of asked ∷ rounds)
        ≡ (app_loop ops crypto tlv d' rounds >>= λ run. some (answer_first reply run)))
    × Follows crypto d' x

-- The signing shows no address.
abbrev pub IsPlain : Option Reply → Type 0
IsPlain none = Unit {0}
IsPlain (some reply) = screen_of reply ≡ screen_at (shown_of reply)

if-IsPlain :
    (b : Bool) (x y : Session × Option Reply)
    → IsPlain x.1
    → IsPlain y.1
    → IsPlain (if b then x else y).1
if-IsPlain true x y h k = h
if-IsPlain false x y h k = k

judged-IsPlain : (a : Session) (v : Verdict Message) → IsPlain (judged a v).1
judged-IsPlain a (refuse e) = refl
judged-IsPlain a (accept m r) = if-IsPlain (is_request a.request confirm_transaction) _ _ refl refl

take_chunk-IsPlain :
    (token more : Bool) (bytes : Bytes) (a : Session) → IsPlain (take_chunk token more bytes a).1
unfolding take_chunk
take_chunk-IsPlain token more bytes a =
    let joined = record a { received = a.received ++ bytes } in
    if-IsPlain (not (is_request a.request (request_of token))) _ _ refl (
      if-IsPlain (ltb max_transaction_len (length a.received + length bytes)) _ _ refl
        (if-IsPlain more _ _ refl (judged-IsPlain joined (reference (a.received ++ bytes)))))

pub session_step-IsPlain :
    (ops : BufferOps) (crypto : CryptoOps) (event : Event) (a : Session)
    → IsPlain (session_step ops crypto event a).1
unfolding session_step
session_step-IsPlain ops crypto (begin token path) a = elim (Option-cases a.pending) [
  | inl e ↦ rw e refl
  | inr (m, e) ↦ rw e tt
]
session_step-IsPlain ops crypto (chunk token number more bytes) a = elim (Option-cases a.pending) [
  | inl e ↦ rw e (take_chunk-IsPlain token more bytes (record a { pending = none }))
  | inr (m, e) ↦ rw e tt
]
session_step-IsPlain ops crypto (choose false) a = elim (Option-cases a.pending) [
  | inl e ↦ rw e tt
  | inr (m, e) ↦ rw e refl
]
session_step-IsPlain ops crypto (choose true) a = elim (Option-cases a.pending) [
  | inl e ↦ rw e tt
  | inr (m, e) ↦
      elim (Bool-cases
        ((crypto.eddsa_sign a.path a.path_len (crypto.hash_sha256 (encode m)).1).0 == 0)) [
          | inl k ↦ rw (e, k) refl
          | inr k ↦ rw (e, k) refl
        ]
]
