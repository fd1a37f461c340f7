-- ===== src/Machine/Refines.antt =====
-- The signing of src/handler/sign_tx.c and src/ui/action/validate.c step by step with the session.
use ledger_hardmail_app.Common.{
  ℕ, suc, ◌≡◌, refl, subst, Bool, false, List, [], ◌∷◌, Option, none, some, length, if◌then◌else◌,
  ◌>>=◌, ◌==◌, arith, take_all,
}
use ledger_hardmail_app.Sdk.Buffers.{Bytes, BufferOps, BufferLaws}
use ledger_hardmail_app.Sdk.Crypto.{CryptoOps, HexLaw, HashLaw, SignLaw}
use ledger_hardmail_app.Wire.{AllBytes, Message, encode}
use ledger_hardmail_app.Context.{Context, Pair, Reply, send_sw, swo_conditions_not_satisfied}
use ledger_hardmail_app.Sign.{handler_sign_tx, request_of}
use ledger_hardmail_app.Sign.Chunks.{IsContext, accumulate_transaction_data-Received}
use ledger_hardmail_app.Sign.Gather.{chunk_buffer}
use ledger_hardmail_app.Validate.{validate_transaction}
use ledger_hardmail_app.Validate.Choice.{signature_reply}
use ledger_hardmail_app.Machine.{
  Event, begin, chunk, choose, Signer, start_signer, signer_of, sign_step, sign_run, Session,
  start_session, take_chunk, session_step, session_run,
}
use ledger_hardmail_app.Machine.Stands.{
  Pending, Stands, Implements, session_of, accumulate_transaction_data-KeepsPath, start-Stands,
  begun,
}
use ledger_hardmail_app.Machine.Chunks.{after_chunk}
use ledger_hardmail_app.Machine.Choices.{choice_made}

-- The chunks that arrive are bytes.
abbrev pub EventOk : Event → Type 0
EventOk (chunk token number more bytes) = AllBytes bytes
EventOk _ = Unit {0}

abbrev pub AllOk : List Event → Type 0
AllOk [] = Unit {0}
AllOk (event ∷ events) = EventOk event × AllOk events

-- An event that comes while no review is shown, and one that comes while one is.
while_idle :
    (crypto : CryptoOps) (digest : Bytes) (shown : Option (List Pair)) (pending : Option Message)
    (s : Signer) (a : Session) (o : Option (Signer × Option Reply)) (x : Session × Option Reply)
    → Stands crypto s a
    → Pending crypto digest shown pending
    → (pending ≡ none → Implements crypto o x)
    → Implements crypto
        (elim shown [ some pairs ↦ some (s, none) | none ↦ o ])
        (elim pending [ some m ↦ (a, none) | none ↦ x ])
while_idle crypto digest none none s a o x h p k = k refl
while_idle crypto digest none (some m) s a o x h p k = elim p [ ]
while_idle crypto digest (some pairs) none s a o x h p k = elim p [ ]
while_idle crypto digest (some pairs) (some m) s a o x h p k = (s, refl, h)

while_shown :
    (crypto : CryptoOps) {digest : Bytes} (shown : Option (List Pair)) (pending : Option Message)
    (s : Signer) (a : Session) (o : Option (Signer × Option Reply))
    (x : Message → Session × Option Reply)
    → Stands crypto s a
    → Pending crypto digest shown pending
    → ((m : Message)
        → pending ≡ some m
        → digest ≡ (crypto.hash_sha256 (encode m)).1
        → Implements crypto o (x m))
    → Implements crypto
        (elim shown [ none ↦ some (s, none) | some pairs ↦ o ])
        (elim pending [ none ↦ (a, none) | some m ↦ x m ])
while_shown crypto none none s a o x h p k = (s, refl, h)
while_shown crypto none (some m) s a o x h p k = elim p [ ]
while_shown crypto (some pairs) none s a o x h p k = elim p [ ]
while_shown crypto (some pairs) (some m) s a o x h (_, digest) k = k m refl digest

-- What the session comes to with a choice.
abbrev answered : CryptoOps → Bool → Message → Session → Session × Option Reply
answered crypto confirm m a = (
  record a { pending = none },
  some (
      if confirm
      then signature_reply crypto a.path a.path_len (crypto.hash_sha256 (encode m)).1
      else send_sw swo_conditions_not_satisfied),
)

module _ (ops : BufferOps) (laws : BufferLaws ops) (crypto : CryptoOps) (hexes : HexLaw crypto)
    (hashes : HashLaw crypto) (signs : SignLaw crypto) where
  chunk_taken :
      (token more : Bool) (number : ℕ) (bytes : Bytes) (c : Context)
      → IsContext c
      → AllBytes bytes
      → Implements crypto
          (handler_sign_tx ops crypto (chunk_buffer bytes) (suc number) more token c >>= λ r.
            some (signer_of r))
          (take_chunk token more bytes (session_of c none))
  unfolding handler_sign_tx
  chunk_taken token more number bytes c h all =
      let later : (suc number == 0) ≡ false = ground arith in
      rw later (
        after_chunk ops laws crypto hexes hashes token more bytes c h
          (accumulate_transaction_data-KeepsPath ops (chunk_buffer bytes) (request_of token) c)
          (accumulate_transaction_data-Received ops laws (chunk_buffer bytes) (request_of token) c h
            (record { in_memory = omega arith; in_buffer = omega arith }) refl
            (rw (take_all (length bytes) bytes (omega arith)) all)))

  same_session :
      (s : Signer) (a : Session) (pending : Option Message)
      → Stands crypto s a
      → a.pending ≡ pending
      → session_of s.context pending ≡ a
  same_session s a pending h e = ground (arith, h.request, h.received, h.path, h.path_len, e)

  -- Each event does to the signer what it does to the session, and answers the same.
  pub sign_step-Implements :
      (event : Event) (s : Signer) (a : Session)
      → Stands crypto s a
      → EventOk event
      → Implements crypto (sign_step ops crypto event s) (session_step ops crypto event a)
  unfolding sign_step session_step
  sign_step-Implements (begin token path) s a h ok =
      while_idle crypto _ s.shown a.pending s a _ _ h h.pending λ e. begun ops crypto token path s
  sign_step-Implements (chunk token number more bytes) s a h ok =
      while_idle crypto _ s.shown a.pending s a _ _ h h.pending λ e.
        subst
          (λ b.
            Implements crypto
              (handler_sign_tx ops crypto (chunk_buffer bytes) (suc number) more token s.context
                >>= λ r. some (signer_of r))
              (take_chunk token more bytes b))
          (same_session s a none h e) (chunk_taken token more number bytes s.context h.well ok)
  sign_step-Implements (choose confirm) s a h ok =
      while_shown crypto s.shown a.pending s a _ (λ m. answered crypto confirm m a) h h.pending
        λ m e digest.
          subst
            (λ b.
              Implements crypto
                (validate_transaction crypto confirm s.context >>= λ r. some (signer_of r))
                (answered crypto confirm m b))
            (same_session s a (some m) h e)
            (choice_made ops laws crypto hexes hashes signs confirm s.context m h.well digest)

  run_on :
      (events : List Event) (s : Signer) (a : Session)
      → Stands crypto s a
      → AllOk events
      → (s' : Signer) × (sign_run ops crypto events s
          ≡ some (s', (session_run ops crypto events a).1))
        × Stands crypto s' (session_run ops crypto events a).0
  unfolding sign_run session_run
  run_on [] s a h ok = (s, refl, h)
  run_on (event ∷ events) s a h (here, ok) =
      let (s1, ran, h1) = sign_step-Implements event s a h here in
      let (a1, reply) = session_step ops crypto event a in
      let (s2, ran2, h2) = run_on events s1 a1 h1 ok in (s2, rw (ran, ran2) refl, h2)

  -- The signing code implements the abstract session: for any list of events from the start, it
  -- returns, sends and shows exactly what the session does, and ends standing for the session.
  pub sign_run-Implements :
      (events : List Event)
      → AllOk events
      → (s : Signer) × (sign_run ops crypto events start_signer
          ≡ some (s, (session_run ops crypto events start_session).1))
        × Stands crypto s (session_run ops crypto events start_session).0
  sign_run-Implements events ok = run_on events start_signer start_session (start-Stands crypto) ok
