-- ===== src/Machine/Stands.antt =====
-- How the signer of src/handler/sign_tx.c stands for the session, and the first chunk.
use ledger_hardmail_app.Common.{
  ◌+◌, ◌≡◌, refl, sym, ap, subst, Bool, true, false, not, List, [], Option, none, some, take, ltb,
  if◌then◌else◌, ◌>>=◌, arith, inl, inr, Bool-cases,
}
use ledger_hardmail_app.Sdk.Buffers.{Bytes, Buffer, BufferOps}
use ledger_hardmail_app.Sdk.Crypto.{CryptoOps}
use ledger_hardmail_app.Wire.{Message, encode}
use ledger_hardmail_app.Context.{
  Context, TxInfo, StatusWord, zero_context, RequestType, is_request, max_transaction_len, Pair,
  Reply, send_sw, state_none, swo_success, swo_wrong_data_length, swo_conditions_not_satisfied,
  swo_incorrect_data,
}
use ledger_hardmail_app.Address.{read_path}
use ledger_hardmail_app.Address.Answers.{read_path-tx_info, read_path-req_type}
use ledger_hardmail_app.Display.Review.{review_of}
use ledger_hardmail_app.Sign.{
  payload, handler_sign_tx, init_transaction_context, request_of, accumulate_transaction_data,
}
use ledger_hardmail_app.Sign.Chunks.{IsContext, IsContext-tx_info, zero_context-IsContext}
use ledger_hardmail_app.Machine.{Signer, start_signer, signer_of, Session, start_session, path_read}

-- The review on the screen is of the pending message, whose hash is the one stored.
abbrev pub Pending : CryptoOps → Bytes → Option (List Pair) → Option Message → Type 0
Pending crypto digest none none = Unit {0}
Pending crypto digest (some pairs) (some m) =
    (pairs ≡ review_of m) × (digest ≡ (crypto.hash_sha256 (encode m)).1)
Pending crypto digest _ _ = ⊥

-- The signer stands for the session.
pub record Stands (crypto : CryptoOps) (s : Signer) (a : Session) : Type 0 where
  pub well : IsContext s.context
  pub request : s.context.req_type ≡ a.request
  pub received : payload s.context ≡ a.received
  pub path : s.context.bip32_path ≡ a.path
  pub path_len : s.context.bip32_path_len ≡ a.path_len
  pub pending : Pending crypto s.context.tx_info.m_hash s.shown a.pending

-- A step returns, and with what the session's step gives.
abbrev pub Implements : CryptoOps → Option (Signer × Option Reply) → Session × Option Reply → Type 0
Implements crypto o (a, reply) = (s : Signer) × (o ≡ some (s, reply)) × Stands crypto s a

pub start-Stands : (crypto : CryptoOps) → Stands crypto start_signer start_session
start-Stands crypto = record {
  well = zero_context-IsContext;
  request = refl;
  received = refl;
  path = refl;
  path_len = refl;
  pending = tt;
}

-- The session that a context stands for.
abbrev pub session_of : Context → Option Message → Session
session_of c pending = record {
  request = c.req_type;
  received = payload c;
  path = c.bip32_path;
  path_len = c.bip32_path_len;
  pending = pending;
}

-- A chunk leaves the path as it is.
pub record KeepsPath (c : Context) (r : Context × StatusWord) : Type 0 where
  pub same_path : r.0.bip32_path ≡ c.bip32_path
  pub same_len : r.0.bip32_path_len ≡ c.bip32_path_len

if-KeepsPath :
    {c : Context} (b : Bool) {x y : Context × StatusWord}
    → KeepsPath c x
    → KeepsPath c y
    → KeepsPath c (if b then x else y)
if-KeepsPath true h k = h
if-KeepsPath false h k = k

unchanged : (c : Context) (sw : StatusWord) → KeepsPath c (c, sw)
unchanged c sw = record { same_path = refl; same_len = refl }

pub accumulate_transaction_data-KeepsPath :
    (ops : BufferOps) (cdata : Buffer) (r : RequestType) (c : Context)
    → KeepsPath c (accumulate_transaction_data ops cdata r c)
unfolding accumulate_transaction_data
accumulate_transaction_data-KeepsPath ops cdata r c =
    if-KeepsPath (not (is_request c.req_type r)) (unchanged c swo_conditions_not_satisfied) (
      if-KeepsPath (ltb max_transaction_len (c.tx_info.raw_tx_len + cdata.size))
        (unchanged c swo_wrong_data_length)
        (if-KeepsPath (not (ops.move cdata cdata.size).0) (unchanged c swo_incorrect_data)
          (record { same_path = refl; same_len = refl })))

flipped :
    (x y : Bool)
    → x ≡ y
    → (if not x then swo_wrong_data_length else swo_success)
      ≡ (if y then swo_success else swo_wrong_data_length)
flipped true true e = refl
flipped true false e = absurd (ground (arith, e))
flipped false true e = absurd (ground (arith, e))
flipped false false e = refl

-- What the handlers read of a path is what the session reads.
pub path_reads :
    (ops : BufferOps) (b : Buffer) (c : Context)
    → c.bip32_path ≡ []
    → let (ok, n, elements) = path_read ops b in
      ((read_path ops b c).0 ≡ ok)
      × ((read_path ops b c).1.bip32_path_len ≡ n)
      × ((read_path ops b c).1.bip32_path ≡ elements)
unfolding read_path
path_reads ops b c empty = elim (Bool-cases (ops.read_u8 b).0) [
  | inl e ↦ (rw e refl, rw e refl, rw e refl)
  | inr e ↦ (rw e refl, rw e refl, rw e empty)
]

module _ (ops : BufferOps) (crypto : CryptoOps) where
  pub begun :
      (token : Bool) (path : Buffer) (s : Signer)
      → let (ok, n, elements) = path_read ops path in
        Implements crypto
          (handler_sign_tx ops crypto path 0 true token s.context >>= λ r. some (signer_of r))
          (
            record {
              request = request_of token;
              received = [];
              path = elements;
              path_len = n;
              pending = none;
            },
            some (send_sw (if ok then swo_success else swo_wrong_data_length)),
          )
  unfolding handler_sign_tx init_transaction_context read_path
  begun token path s =
      let c : Context = record zero_context { req_type = request_of token; state = state_none } in
      let (ok, n, elements) = path_reads ops path c refl in
      let kept = read_path-tx_info ops path c in
      (
        record { context = (read_path ops path c).1; shown = none },
        ap
            (λ b.
              some (record { context = (read_path ops path c).1; shown = none }, some (send_sw b)))
            (flipped _ _ ok),
        record {
          well = IsContext-tx_info zero_context _ kept zero_context-IsContext;
          request = read_path-req_type ops path c;
          received = sym (ap (λ (t : TxInfo). take t.raw_tx_len t.raw_tx) kept);
          path = elements;
          path_len = n;
          pending = tt;
        },
      )

module _ (crypto : CryptoOps) where
  pub implemented :
      (o o' : Option (Context × Reply)) (x x' : Session × Option Reply)
      → o ≡ o'
      → x ≡ x'
      → Implements crypto (o' >>= λ r. some (signer_of r)) x'
      → Implements crypto (o >>= λ r. some (signer_of r)) x
  implemented o o' x x' e k h =
      subst (λ y. Implements crypto (o >>= λ r. some (signer_of r)) y) (sym k)
        (subst (λ u. Implements crypto (u >>= λ r. some (signer_of r)) x') (sym e) h)

  -- A status word is sent, and nothing is shown.
  pub status_sent :
      (c : Context) (sw : StatusWord)
      → IsContext c
      → Implements crypto (some (signer_of (c, send_sw sw))) (session_of c none, some (send_sw sw))
  status_sent c sw h = (
    record { context = c; shown = none },
    refl,
    record {
      well = h;
      request = refl;
      received = refl;
      path = refl;
      path_len = refl;
      pending = tt;
    },
  )
