-- ===== src/Tests/Machine.antt =====
-- Witnesses for the signing machine.
use ledger_hardmail_app.Common.{◌≡◌, refl, true, false, List, [], ◌∷◌, some, Option}
use ledger_hardmail_app.Sdk.StandIn.{stand_in, stand_in_laws}
use ledger_hardmail_app.Sdk.CryptoStandIn.{
  stand_in_crypto, stand_in_hex, stand_in_hash, stand_in_sign,
}
use ledger_hardmail_app.Context.{review, send_sw, swo_success, Reply}
use ledger_hardmail_app.Display.Review.{review_of}
use ledger_hardmail_app.Wire.{encode}
use ledger_hardmail_app.Wire.Reference.{
  reference, message, bytes, text, u8, body, u16_be, attachment, one_attachment, u32_be,
}
use ledger_hardmail_app.Validate.Choice.{signature_reply}
use ledger_hardmail_app.Machine.{
  Event, begin, chunk, choose, Signer, start_signer, start_session, sign_run, session_run,
  session_step, take_chunk,
}
use ledger_hardmail_app.Machine.Stands.{Stands}
use ledger_hardmail_app.Machine.Refines.{sign_run-Implements}
use ledger_hardmail_app.Tests.{sample, sample_bytes, buffer_on, AllBytes-by}

-- A path of one element, the sample in one chunk, and the user's approval.
abbrev sample_events : List Event
sample_events =
    begin false (buffer_on (1 ∷ 0x80 ∷ 0 ∷ 0 ∷ 44 ∷ []))
    ∷ chunk false 0 false sample_bytes
    ∷ choose true
    ∷ []

-- The path is accepted, the sample is shown, and its hash is signed with the key of the path.
abbrev sample_replies : List (Option Reply)
sample_replies =
    some (send_sw swo_success)
    ∷ some (review (review_of sample))
    ∷ some (
        signature_reply stand_in_crypto (0x8000002c ∷ []) 1
          (stand_in_crypto.hash_sha256 (encode sample)).1)
    ∷ []

sample_replied :
    (session_run stand_in stand_in_crypto sample_events start_session).1 ≡ sample_replies
unfolding session_run session_step take_chunk stand_in stand_in_crypto reference message bytes text
    u8 body u16_be attachment one_attachment u32_be
sample_replied = refl

sign_run-Implements_example :
    (s : Signer) × (sign_run stand_in stand_in_crypto sample_events start_signer
      ≡ some (s, (session_run stand_in stand_in_crypto sample_events start_session).1))
    × Stands stand_in_crypto s (session_run stand_in stand_in_crypto sample_events start_session).0
sign_run-Implements_example =
    sign_run-Implements stand_in stand_in_laws stand_in_crypto stand_in_hex stand_in_hash
      stand_in_sign sample_events (tt, (AllBytes-by sample_bytes refl, (tt, tt)))
