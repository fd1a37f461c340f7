-- ===== src/App/Keyed.antt =====
-- What the abstract session of src/app_main.c puts out while the address of a key is shown.
use ledger_hardmail_app.Common.{
  ℕ, ◌+◌, ◌≡◌, refl, sym, ap, ◌∙◌, subst, Bool, true, false, not, List, [], ◌∷◌, ◌++◌, Option, none,
  some, arith, if◌then◌else◌, Bool-cases, inl, inr, ◌==◌, slice, ltb, length,
}
use ledger_hardmail_app.Sdk.Buffers.{Bytes, BufferOps}
use ledger_hardmail_app.Sdk.Crypto.{CryptoOps, hex}
use ledger_hardmail_app.Wire.{Message}
use ledger_hardmail_app.Wire.Reference.{Verdict, accept, refuse, reference}
use ledger_hardmail_app.Context.{
  Reply, respond, review, review_address, send_sw, swo_success, is_request, confirm_transaction,
  max_transaction_len, swo_wrong_data_length, StatusWord,
}
use ledger_hardmail_app.Address.{address_from_pubkey}
use ledger_hardmail_app.Address.Keys.{key_answer}
use ledger_hardmail_app.Address.Shown.{key_review, is_address}
use ledger_hardmail_app.Sign.{request_of}
use ledger_hardmail_app.Sign.Gather.{chunk_buffer}
use ledger_hardmail_app.Validate.Choice.{signature_reply}
use ledger_hardmail_app.Tokens.{TlvOps, handler_provide_token_info}
use ledger_hardmail_app.Machine.{Session, path_read, judged, take_chunk, session_step}
use ledger_hardmail_app.App.Session.{
  Asked, asks_version, asks_name, asks_key, opens, sends, decides, provides, misasks, garbles,
  AppSession, when_idle, signing_step, with_answer, app_step, app_session,
}
use ledger_hardmail_app.App.Keys.{no_address}

text_of : Reply → Bytes
text_of (review_address text) = text
text_of _ = []

review_address-injective : (a b : Bytes) → review_address a ≡ review_address b → a ≡ b
unfolding text_of
review_address-injective a b e = ap text_of e

-- What a step puts out: nothing, with the session as it was; what is no address; or the address of
-- the key of the session's path.
data Puts (crypto : CryptoOps) (x : AppSession) : AppSession × Option Reply → Type 0 where
  silent : Puts crypto x (x, none)
  plain :
      {x' : AppSession} {reply : Reply} → is_address reply ≡ false → Puts crypto x (x', some reply)
  addressed :
      {a : Session} {text : Bytes}
      → key_review crypto a.path a.path_len ≡ review_address text
      → Puts crypto x (record { signing = a; shows_key = true }, some (review_address text))

if-Puts :
    {crypto : CryptoOps} {x : AppSession} (b : Bool) {r r' : AppSession × Option Reply}
    → Puts crypto x r
    → Puts crypto x r'
    → Puts crypto x (if b then r else r')
if-Puts true h k = h
if-Puts false h k = k

-- The same for a step of the signing session.
if-signing :
    {crypto : CryptoOps} {x : AppSession} (b : Bool) {r r' : Session × Option Reply}
    → Puts crypto x (signing_step x r)
    → Puts crypto x (signing_step x r')
    → Puts crypto x (signing_step x (if b then r else r'))
if-signing true h k = h
if-signing false h k = k

pending-Puts :
    {crypto : CryptoOps} {x : AppSession} (pending : Option Message)
    (busy : Message → AppSession × Option Reply) (idle : AppSession × Option Reply)
    → ((m : Message) → Puts crypto x (busy m))
    → Puts crypto x idle
    → Puts crypto x (elim pending [ some m ↦ busy m | none ↦ idle ])
pending-Puts none busy idle h k = k
pending-Puts (some m) busy idle h k = h m

pending-signing :
    {crypto : CryptoOps} {x : AppSession} (pending : Option Message)
    (busy : Message → Session × Option Reply) (idle : Session × Option Reply)
    → ((m : Message) → Puts crypto x (signing_step x (busy m)))
    → Puts crypto x (signing_step x idle)
    → Puts crypto x (signing_step x (elim pending [ some m ↦ busy m | none ↦ idle ]))
pending-signing none busy idle h k = k
pending-signing (some m) busy idle h k = h m

when_idle-Puts :
    {crypto : CryptoOps} (x : AppSession) (r : AppSession × Option Reply)
    → Puts crypto x r
    → Puts crypto x (when_idle x r)
when_idle-Puts x r h =
    if-Puts x.shows_key silent (pending-Puts x.signing.pending (λ m. (x, none)) r (λ m. silent) h)

judged-Puts :
    {crypto : CryptoOps} (x : AppSession) (a : Session) (v : Verdict Message)
    → Puts crypto x (signing_step x (judged a v))
judged-Puts x a (refuse e) = plain refl
judged-Puts x a (accept m r) =
    if-signing (is_request a.request confirm_transaction) (plain refl) (plain refl)

signed_no_address :
    (crypto : CryptoOps) (path : List ℕ) (n : ℕ) (digest : Bytes)
    → is_address (signature_reply crypto path n digest) ≡ false
signed_no_address crypto path n digest =
    elim (Bool-cases ((crypto.eddsa_sign path n digest).0 == 0)) [
      | inl e ↦ rw e refl
      | inr e ↦ rw e refl
    ]

-- The answer to a request for a key.
key-Puts :
    {crypto : CryptoOps} (x : AppSession) (a : Session) (display : Bool) (reply : Reply)
    → reply ≡ (
        if display
        then key_review crypto a.path a.path_len
        else key_answer crypto a.path a.path_len)
    → Puts crypto x (record { signing = a; shows_key = is_address reply }, some reply)
key-Puts x a display (respond bytes sw) e = plain refl
key-Puts x a display (review pairs) e = plain refl
key-Puts x a true (review_address text) e = addressed (sym e)
key-Puts {crypto} x a false (review_address text) e =
    absurd (ground (arith, ap is_address e, no_address crypto a.path a.path_len))

read-Puts :
    {crypto : CryptoOps} (x : AppSession) (a : Session) (ok display : Bool)
    → let reply =
        if not ok
        then send_sw swo_wrong_data_length
        else if display
        then key_review crypto a.path a.path_len
        else key_answer crypto a.path a.path_len in
      Puts crypto x (record { signing = a; shows_key = is_address reply }, some reply)
read-Puts x a false display = plain refl
read-Puts x a true display = key-Puts x a display _ refl

token-Puts :
    {crypto : CryptoOps} (x : AppSession) {A : Type 0} (o : Option A) (sw : A → StatusWord)
    → Puts crypto x (x, elim o [ none ↦ none | some r ↦ some (send_sw (sw r)) ])
token-Puts x none sw = silent
token-Puts x (some r) sw = plain refl

chosen_no_address :
    (confirm : Bool) (reply other : Reply)
    → is_address reply ≡ false
    → is_address other ≡ false
    → is_address (if confirm then reply else other) ≡ false
chosen_no_address true reply other h k = h
chosen_no_address false reply other h k = k

module _ (ops : BufferOps) (crypto : CryptoOps) (tlv : TlvOps) where
  app_step-Puts : (asked : Asked) (x : AppSession) → Puts crypto x (app_step ops crypto tlv asked x)
  unfolding app_step session_step take_chunk
  app_step-Puts (decides confirm) x =
      if-Puts x.shows_key
        (plain (
          chosen_no_address confirm _ _ (no_address crypto x.signing.path x.signing.path_len) refl))
        (pending-signing x.signing.pending _ _
          (λ m. plain (
            chosen_no_address confirm _ _
              (signed_no_address crypto x.signing.path x.signing.path_len _) refl))
          silent)
  app_step-Puts (opens token bytes) x =
      if-Puts x.shows_key silent (pending-signing x.signing.pending _ _ (λ m. silent) (plain refl))
  app_step-Puts (sends token number more bytes) x = if-Puts x.shows_key silent (
      pending-signing x.signing.pending _ _ (λ m. silent)
        (if-signing (not (is_request x.signing.request (request_of token))) (plain refl) (
          if-signing (ltb max_transaction_len (length x.signing.received + length bytes))
            (plain refl)
            (if-signing more (plain refl) (
              judged-Puts x (record (x.signing) { received = x.signing.received ++ bytes })
                (reference (x.signing.received ++ bytes)))))))
  app_step-Puts (asks_key display bytes) x =
      when_idle-Puts x _ (read-Puts x _ (path_read ops (chunk_buffer bytes)).0 display)
  app_step-Puts asks_version x = when_idle-Puts x _ (plain refl)
  app_step-Puts asks_name x = when_idle-Puts x _ (plain refl)
  app_step-Puts (provides bytes) x =
      when_idle-Puts x _
        (token-Puts x (handler_provide_token_info tlv (chunk_buffer bytes)) (λ r. r.1))
  app_step-Puts (misasks cmd sw) x = when_idle-Puts x _ (plain refl)
  app_step-Puts garbles x = when_idle-Puts x _ (plain refl)

-- The last that was put out, and what it says of the session.
abbrev pub last_of : Option Reply → List Reply → Option Reply
last_of o [] = o
last_of o (reply ∷ replies) = last_of (some reply) replies

abbrev pub IsLast : CryptoOps → AppSession → Option Reply → Type 0
IsLast crypto x (some (review_address text)) =
    (x.shows_key ≡ true)
    × (key_review crypto x.signing.path x.signing.path_len ≡ review_address text)
IsLast crypto x _ = Unit {0}

abbrev or_before : Option Reply → Option Reply → Option Reply
or_before none o = o
or_before (some reply) o = some reply

plain-IsLast :
    (crypto : CryptoOps) (x : AppSession) (reply : Reply)
    → is_address reply ≡ false
    → IsLast crypto x (some reply)
plain-IsLast crypto x (respond bytes sw) e = tt
plain-IsLast crypto x (review pairs) e = tt
plain-IsLast crypto x (review_address text) e = absurd (ground (arith, e))

Puts-IsLast :
    {crypto : CryptoOps} {x : AppSession} (o : Option Reply) (r : AppSession × Option Reply)
    → Puts crypto x r
    → IsLast crypto x o
    → IsLast crypto r.0 (or_before r.1 o)
Puts-IsLast o r silent h = h
Puts-IsLast {crypto} o r (plain {x'} {reply} e) h = plain-IsLast crypto x' reply e
Puts-IsLast o r (addressed e) h = (refl, e)

last_of-with_answer :
    (o reply : Option Reply) (replies : List Reply)
    → last_of o (with_answer reply replies) ≡ last_of (or_before reply o) replies
last_of-with_answer o none replies = refl
last_of-with_answer o (some reply) replies = refl

pub last_of-append :
    (o : Option Reply) (earlier : List Reply) (reply : Reply)
    → last_of o (earlier ++ reply ∷ []) ≡ some reply
last_of-append o [] reply = refl
last_of-append o (first ∷ earlier) reply = last_of-append (some first) earlier reply

with_answer-append :
    (reply : Option Reply) (xs ys : List Reply)
    → with_answer reply (xs ++ ys) ≡ with_answer reply xs ++ ys
with_answer-append none xs ys = refl
with_answer-append (some reply) xs ys = refl

module _ (ops : BufferOps) (crypto : CryptoOps) (tlv : TlvOps) where
  -- What was put out last fits the session that it leads to.
  pub app_session-IsLast :
      (asked : List Asked) (x : AppSession) (o : Option Reply)
      → IsLast crypto x o
      → let (x', replies) = app_session ops crypto tlv asked x in
        IsLast crypto x' (last_of o replies)
  unfolding app_session
  app_session-IsLast [] x o h = h
  app_session-IsLast (a ∷ rest) x o h =
      let r = app_step ops crypto tlv a x in
      let (x', replies) = app_session ops crypto tlv rest r.0 in
      subst (IsLast crypto x') (sym (last_of-with_answer o r.1 replies)) (
        app_session-IsLast rest r.0 (or_before r.1 o)
          (Puts-IsLast o r (app_step-Puts ops crypto tlv a x) h))

  -- One more thing that is asked.
  pub app_session-append :
      (asked : List Asked) (a : Asked) (x : AppSession)
      → (app_session ops crypto tlv (asked ++ a ∷ []) x).1
        ≡ (app_session ops crypto tlv asked x).1
          ++ with_answer (app_step ops crypto tlv a (app_session ops crypto tlv asked x).0).1 []
  unfolding app_session
  app_session-append [] a x = refl
  app_session-append (first ∷ rest) a x =
      let (x', reply) = app_step ops crypto tlv first x in
      ap (with_answer reply) (app_session-append rest a x') ∙ with_answer-append reply _ _

-- The point and the chain code of the key of a path, the last 20 bytes of the Keccak-256 of the point
-- without its first byte, and the answer with a key.
abbrev pub point_at : CryptoOps → List ℕ → ℕ → Bytes
point_at crypto path n = (crypto.compress_point (crypto.get_pubkey path n).1).1

abbrev pub code_at : CryptoOps → List ℕ → ℕ → Bytes
code_at crypto path n = (crypto.get_pubkey path n).2

abbrev pub address_at : CryptoOps → List ℕ → ℕ → Bytes
address_at crypto path n = slice (crypto.keccak_256 (slice (point_at crypto path n) 1 64)).1 12 20

abbrev pub key_reply : Bytes → Bytes → Reply
key_reply point code = respond (65 ∷ (point ++ 32 ∷ code)) swo_success

-- Where the address of a path's key is shown, the key can be sent.
pub key_review-shown :
    (crypto : CryptoOps) (path : List ℕ) (n : ℕ) (text : Bytes)
    → key_review crypto path n ≡ review_address text
    → (text ≡ hex (address_at crypto path n))
      × (key_answer crypto path n ≡ key_reply (point_at crypto path n) (code_at crypto path n))
unfolding address_from_pubkey
key_review-shown crypto path n text h =
    let (error, key, code) = crypto.get_pubkey path n in
    let (compress_error, point) = crypto.compress_point key in
    let (keccak_error, digest) = crypto.keccak_256 (slice point 1 64) in
    elim (Bool-cases (error == 0)) [
      | inr e ↦ absurd (ground (arith, rw e at h))
      | inl e ↦ elim (Bool-cases (compress_error == 0)) [
        | inr k ↦ absurd (ground (arith, rw (e, k) at h))
        | inl k ↦ elim (Bool-cases (keccak_error == 0)) [
          | inr j ↦ absurd (ground (arith, rw (e, k, j) at h))
          | inl j ↦ (sym (review_address-injective _ _ (rw (e, k, j) at h)), rw (e, k) refl)
        ]
      ]
    ]
