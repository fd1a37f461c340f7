-- ===== src/Sign/Reviewed.antt =====
-- The review of an accepted payload: `process_transaction` of src/handler/sign_tx.c, and
-- `ui_display_transaction` of src/ui/nbgl_display_transaction.c.
use ledger_hardmail_app.Common.{◌≡◌, refl, ap, subst, ◌∙◌, some, arith, length, length-take}
use ledger_hardmail_app.Sdk.Buffers.{BufferOps, BufferLaws}
use ledger_hardmail_app.Sdk.Crypto.{CryptoOps, HexLaw, HashLaw}
use ledger_hardmail_app.Email.{parsing_ok}
use ledger_hardmail_app.Wire.{Message, IsValid, encode}
use ledger_hardmail_app.Parser.{Parser, transaction_deserialize}
use ledger_hardmail_app.Parser.View.{view, IsInMemory}
use ledger_hardmail_app.Parser.Correct.{
  transaction_deserialize-IsValid, transaction_deserialize-encode,
}
use ledger_hardmail_app.Context.{Context, confirm_transaction, state_parsed, review}
use ledger_hardmail_app.Display.{ui_display_transaction}
use ledger_hardmail_app.Display.Review.{review_of, email_pairs-review_of}
use ledger_hardmail_app.Sign.{
  payload, payload_buffer, set_parsed, set_hash, hash_parsed, process_transaction, finish_sign,
}
use ledger_hardmail_app.Sign.Chunks.{IsContext}
use ledger_hardmail_app.Sign.Approvable.{IsApprovable, payload_buffer-IsBuffer}

-- The context when the payload is parsed and hashed.
abbrev pub ready : CryptoOps → Context → Parser → Context
ready crypto c p = set_hash (set_parsed c p) (crypto.hash_sha256 (payload c)).1

pub ready-IsContext :
    (crypto : CryptoOps) (c : Context) (p : Parser) → IsContext c → IsContext (ready crypto c p)
ready-IsContext crypto c p h = record {
  raw_size = h.raw_size;
  raw_fits = h.raw_fits;
  raw_bytes = h.raw_bytes;
  signature_size = h.signature_size;
}

module _ (ops : BufferOps) (laws : BufferLaws ops) (crypto : CryptoOps) (hexes : HexLaw crypto)
    (hashes : HashLaw crypto) where
  displays :
      (c : Context)
      → c.state ≡ state_parsed
      → c.req_type ≡ confirm_transaction
      → IsInMemory c.tx_info.raw_tx c.tx_info.transaction
      → IsValid (view c.tx_info.raw_tx c.tx_info.transaction)
      → ui_display_transaction crypto c
        ≡ some (c, review (review_of (view c.tx_info.raw_tx c.tx_info.transaction)))
  unfolding ui_display_transaction
  displays c state req held valid =
      rw (state, req, email_pairs-review_of crypto hexes _ _ held valid) refl

  -- An accepted payload of an email request is reviewed.
  pub reviewed :
      (c : Context) (p : Parser)
      → IsContext c
      → c.req_type ≡ confirm_transaction
      → transaction_deserialize ops (payload_buffer c) c.tx_info.transaction ≡ some (parsing_ok, p)
      → (finish_sign ops crypto c
          ≡ some (ready crypto c p, review (review_of (view c.tx_info.raw_tx p.tx))))
        × IsApprovable crypto (ready crypto c p) (review_of (view c.tx_info.raw_tx p.tx))
  unfolding finish_sign process_transaction hash_parsed
  reviewed c p h req ran =
      let (bytes, valid, held, _) =
        transaction_deserialize-IsValid ops laws (payload_buffer c) c.tx_info.transaction p
          (payload_buffer-IsBuffer c h) refl h.raw_bytes ran in
      (
        rw (ran, hashes.digest_written (payload c))
            (displays (ready crypto c p) refl req held valid),
        record {
          message = view c.tx_info.raw_tx p.tx;
          valid = valid;
          received = bytes;
          shown = refl;
          digest = ap (λ bs. (crypto.hash_sha256 bs).1) bytes;
          parsed = refl;
          requested = req;
        },
      )

  pub parses_message :
      (c : Context) (m : Message)
      → IsContext c
      → IsValid m
      → payload c ≡ encode m
      → (p : Parser) × (transaction_deserialize ops (payload_buffer c) c.tx_info.transaction
          ≡ some (parsing_ok, p))
        × (view c.tx_info.raw_tx p.tx ≡ m)
  parses_message c m h valid written =
      let b = payload_buffer-IsBuffer c h in
      let size = length-take c.tx_info.raw_tx_len c.tx_info.raw_tx in
      let (p, ran, seen, _) =
        transaction_deserialize-encode ops laws (payload_buffer c) c.tx_info.transaction m b refl
          valid written (omega (arith, ap length written, size, h.raw_fits)) in
      (p, ran, seen)

  -- The same, for the message that the payload stands for.
  pub displays_message :
      (c : Context) (m : Message)
      → IsContext c
      → c.req_type ≡ confirm_transaction
      → IsValid m
      → payload c ≡ encode m
      → (p : Parser) × (finish_sign ops crypto c ≡ some (ready crypto c p, review (review_of m)))
        × IsApprovable crypto (ready crypto c p) (review_of m)
  displays_message c m h req valid written =
      let (p, ran, seen) = parses_message c m h valid written in
      let (displays, ok) = reviewed c p h req ran in
      (
        p,
        displays ∙ ap (λ v. some (ready crypto c p, review (review_of v))) seen,
        subst (λ v. IsApprovable crypto (ready crypto c p) (review_of v)) seen ok,
      )
