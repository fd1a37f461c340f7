-- ===== src/App/Keys.antt =====
-- The rounds of the loop of src/app_main.c that ask for a key, step by step with the session.
use ledger_hardmail_app.Common.{
  ℕ, ◌≡◌, refl, sym, ap, subst, ◌∙◌, Bool, true, false, not, List, [], none, some, if◌then◌else◌,
  Bool-cases, inl, inr, length, ◌==◌, arith,
}
use ledger_hardmail_app.Sdk.Buffers.{Bytes, Buffer, BufferOps}
use ledger_hardmail_app.Sdk.Crypto.{CryptoOps, HexLaw, KeyLaw}
use ledger_hardmail_app.Context.{
  Context, TxInfo, zero_context, max_transaction_len, state_none, confirm_address, Reply, send_sw,
  swo_wrong_data_length, length-zero_bytes,
}
use ledger_hardmail_app.Address.{
  read_path, derive_public_key, handler_get_public_key, helper_send_response_pubkey,
}
use ledger_hardmail_app.Address.Answers.{
  KeyAnswer, replied, addressed, read_path-tx_info, read_path-req_type,
  handler_get_public_key-KeyAnswer,
}
use ledger_hardmail_app.Address.Keys.{key_answer, derive_public_key-answer}
use ledger_hardmail_app.Address.Shown.{
  key_review, is_address, SameRequest, derive_public_key-shows, derive_public_key-SameRequest,
}
use ledger_hardmail_app.Sign.{payload}
use ledger_hardmail_app.Sign.Chunks.{IsContext}
use ledger_hardmail_app.Sign.Gather.{chunk_buffer}
use ledger_hardmail_app.Dispatcher.{Globals, with_context}
use ledger_hardmail_app.Device.{device_of}
use ledger_hardmail_app.Machine.{Session, path_read}
use ledger_hardmail_app.Machine.Stands.{Stands, path_reads}
use ledger_hardmail_app.App.Session.{key_step}
use ledger_hardmail_app.App.Follows.{Follows, signing, showing}

-- The context in which a key is asked for, and the session of the path that was read.
abbrev start : Context
start = record zero_context { req_type = confirm_address; state = state_none }

abbrev key_session : ℕ → List ℕ → Session
key_session n elements = record {
  request = confirm_address;
  received = [];
  path = elements;
  path_len = n;
  pending = none;
}

-- The answer, and what an approval would be answered with.
record Asks (crypto : CryptoOps) (display : Bool) (n : ℕ) (elements : List ℕ) (r : Context × Reply)
    : Type 0 where
  answer : r.1 ≡ (if display then key_review crypto elements n else key_answer crypto elements n)
  approval : is_address r.1 ≡ true → helper_send_response_pubkey r.0 ≡ key_answer crypto elements n

pub no_address :
    (crypto : CryptoOps) (path : List ℕ) (n : ℕ) → is_address (key_answer crypto path n) ≡ false
no_address crypto path n =
    let (error, key, code) = crypto.get_pubkey path n in
    elim (Bool-cases (error == 0)) [
      | inr e ↦ rw e refl
      | inl e ↦ elim (Bool-cases ((crypto.compress_point key).0 == 0)) [
        | inl k ↦ rw (e, k) refl
        | inr k ↦ rw (e, k) refl
      ]
    ]

module _ (crypto : CryptoOps) (hexes : HexLaw crypto) (keys : KeyLaw crypto) where
  asks :
      (display : Bool) (c : Context)
      → length c.tx_info.raw_tx ≡ max_transaction_len
      → c.req_type ≡ confirm_address
      → c.state ≡ state_none
      → Asks crypto display c.bip32_path_len c.bip32_path (derive_public_key crypto display c)
  asks true c size req state =
      let (answer, approval) = derive_public_key-shows crypto hexes keys c size req state in
      record { answer = answer; approval = approval }
  asks false c size req state =
      let answer = derive_public_key-answer crypto keys c size in
      record {
        answer = answer;
        approval = λ shown. absurd (
            ground (
              arith,
              shown,
              ap is_address answer,
              no_address crypto c.bip32_path c.bip32_path_len,
            ));
      }

  key_follows :
      (g : Globals) (a : Session) {r : Context × Reply}
      → KeyAnswer crypto r
      → Stands crypto (record { context = r.0; shown = none }) a
      → (is_address r.1 ≡ true
          → helper_send_response_pubkey r.0 ≡ key_answer crypto a.path a.path_len)
      → Follows crypto
          (device_of (with_context g r)).0
          (record { signing = a; shows_key = is_address r.1 })
  key_follows g a (replied {c} h) stands k =
      signing {g = record g { context = c }} {shown = none} stands
  key_follows g a (addressed {c} h shows) stands k =
      showing {g = record g { context = c }} stands (k refl)

of_KeyAnswer : {crypto : CryptoOps} (r : Context × Reply) → KeyAnswer crypto r → IsContext r.0
of_KeyAnswer r (replied h) = h
of_KeyAnswer r (addressed h shows) = h

read_path-state :
    (ops : BufferOps) (b : Buffer) (c : Context) → (read_path ops b c).1.state ≡ c.state
unfolding read_path
read_path-state ops b c = elim (Bool-cases (ops.read_u8 b).0) [
  | inl e ↦ rw e refl
  | inr e ↦ rw e refl
]

nothing_received : (c : Context) → c.tx_info.raw_tx_len ≡ 0 → payload c ≡ []
nothing_received c e = rw e refl

-- The answer, the session of the path and the approval, of a request for a key.
record Handled (crypto : CryptoOps) (display ok : Bool) (n : ℕ) (elements : List ℕ)
    (r : Context × Reply) : Type 0 where
  sent : r.1 ≡ (
      if not ok
      then send_sw swo_wrong_data_length
      else if display
      then key_review crypto elements n
      else key_answer crypto elements n)
  stands : Stands crypto (record { context = r.0; shown = none }) (key_session n elements)
  approves : is_address r.1 ≡ true → helper_send_response_pubkey r.0 ≡ key_answer crypto elements n

module _ (ops : BufferOps) (crypto : CryptoOps) (hexes : HexLaw crypto) (keys : KeyLaw crypto) where
  derived-Stands :
      (c c' : Context)
      → IsContext c'
      → c.tx_info.raw_tx_len ≡ 0
      → c.req_type ≡ confirm_address
      → SameRequest c c'
      → Stands crypto
          (record { context = c'; shown = none })
          (key_session c.bip32_path_len c.bip32_path)
  derived-Stands c c' h empty req kept = record {
    well = h;
    request = kept.same_request ∙ req;
    received = nothing_received c' (kept.same_len ∙ empty);
    path = kept.same_path;
    path_len = kept.same_path_len;
    pending = tt;
  }

  derived-Handled :
      (display ok : Bool) (c : Context)
      → length c.tx_info.raw_tx ≡ max_transaction_len
      → c.tx_info.raw_tx_len ≡ 0
      → c.req_type ≡ confirm_address
      → c.state ≡ state_none
      → let r =
          if not ok
          then (c, send_sw swo_wrong_data_length)
          else derive_public_key crypto display c in
        IsContext r.0 → Handled crypto display ok c.bip32_path_len c.bip32_path r
  derived-Handled display false c size empty req state h = record {
    sent = refl;
    stands =
        derived-Stands c c h empty req
          (record { same_len = refl; same_request = refl; same_path = refl; same_path_len = refl });
    approves = λ shown. absurd (ground (arith, shown));
  }
  derived-Handled display true c size empty req state h =
      let asked = asks crypto hexes keys display c size req state in
      record {
        sent = asked.answer;
        stands =
            derived-Stands c (derive_public_key crypto display c).0 h empty req
              (derive_public_key-SameRequest crypto display c);
        approves = asked.approval;
      }

  -- What is read of the path, as the handler has it and as the session has it.
  handled :
      (display : Bool) (bytes : Bytes)
      → let (ok, n, elements) = path_read ops (chunk_buffer bytes) in
        Handled crypto display ok n elements
          (handler_get_public_key crypto ops (chunk_buffer bytes) display)
  unfolding handler_get_public_key
  handled display bytes =
      let b = chunk_buffer bytes in
      let (ok, c) = read_path ops b start in
      let kept = read_path-tx_info ops b start in
      let (ok_same, n_same, elements_same) = path_reads ops b start refl in
      let read : Handled crypto display ok c.bip32_path_len c.bip32_path
          (handler_get_public_key crypto ops b display) =
        derived-Handled display ok c
          (ap (λ (t : TxInfo). length t.raw_tx) (sym kept) ∙ length-zero_bytes max_transaction_len)
          (sym (ap (λ (t : TxInfo). t.raw_tx_len) kept)) (read_path-req_type ops b start)
          (read_path-state ops b start)
          (of_KeyAnswer (handler_get_public_key crypto ops b display)
            (handler_get_public_key-KeyAnswer crypto ops b display)) in
      let r = handler_get_public_key crypto ops b display in
      subst (λ x. Handled crypto display x (path_read ops b).1 (path_read ops b).2 r) ok_same
        (subst (λ x. Handled crypto display ok x (path_read ops b).2 r) n_same
          (subst (λ x. Handled crypto display ok c.bip32_path_len x r) elements_same read))

  -- The round of a request for a key in an idle device.
  pub key_step-Follows :
      (display : Bool) (bytes : Bytes) (g : Globals)
      → let r = handler_get_public_key crypto ops (chunk_buffer bytes) display in
        let (x, reply) = key_step ops crypto display bytes in
        (some r.1 ≡ reply) × Follows crypto (device_of (with_context g r)).0 x
  key_step-Follows display bytes g =
      let b = chunk_buffer bytes in
      let (ok, n, elements) = path_read ops b in
      let r = handler_get_public_key crypto ops b display in
      let h = handled display bytes in
      (
        ap some h.sent,
        subst
            (λ reply.
              Follows crypto (device_of (with_context g r)).0
                (record { signing = key_session n elements; shows_key = is_address reply }))
            h.sent
            (key_follows crypto hexes keys g (key_session n elements)
              (handler_get_public_key-KeyAnswer crypto ops b display) h.stands h.approves),
      )
