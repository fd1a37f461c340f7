-- ===== src/App/Consent.antt =====
-- What the app does with the signing key of crypto_helpers.h before the user approves, over the loop of
-- src/app_main.c.
use ledger_hardmail_app.Common.{
  arith, ◌≡◌, refl, sym, ap, ◌∙◌, Bool, true, false, ℕ, List, [], ◌∷◌, Option, some,
}
use ledger_hardmail_app.Sdk.Buffers.{Bytes, BufferOps, BufferLaws}
use ledger_hardmail_app.Sdk.Crypto.{CryptoOps, HexLaw, HashLaw, SignLaw, KeyLaw}
use ledger_hardmail_app.Context.{Reply}
use ledger_hardmail_app.Address.{address_from_pubkey}
use ledger_hardmail_app.Tokens.{TlvOps}
use ledger_hardmail_app.Tokens.Lookup.{TlvLaws}
use ledger_hardmail_app.Settings.{Menu}
use ledger_hardmail_app.Machine.{session_step}
use ledger_hardmail_app.App.{Run, app_main}
use ledger_hardmail_app.App.Session.{
  Asked, asks_version, asks_name, asks_key, opens, sends, decides, provides, misasks, garbles,
  rounds_of, AllAskedOk, AppSession, start_app_session, with_answer, app_step, app_session,
}
use ledger_hardmail_app.App.Refines.{app_main-Refines}

-- The operation that signs with the key of a path.
abbrev pub Signing : Type 0
Signing = List ℕ → ℕ → Bytes → ℕ × Bytes × ℕ

abbrev pub with_signing : Signing → CryptoOps → CryptoOps
with_signing f crypto = record crypto { eddsa_sign = f }

-- The user approves nothing.
abbrev pub approves : Asked → Bool
approves (decides confirm) = confirm
approves _ = false

abbrev pub IsUnapproved : List Asked → Type 0
IsUnapproved [] = Unit {0}
IsUnapproved (a ∷ rest) = (approves a ≡ false) × IsUnapproved rest

module _ (ops : BufferOps) (crypto : CryptoOps) (f : Signing) (tlv : TlvOps) where
  -- A step that is no approval does not depend on the operation.
  app_step-with_signing :
      (asked : Asked) (x : AppSession)
      → approves asked ≡ false
      → app_step ops (with_signing f crypto) tlv asked x ≡ app_step ops crypto tlv asked x
  unfolding app_step session_step address_from_pubkey
  app_step-with_signing (decides true) x h = absurd (ground (arith, h))
  app_step-with_signing (decides false) x h = refl
  app_step-with_signing asks_version x h = refl
  app_step-with_signing asks_name x h = refl
  app_step-with_signing (asks_key display bytes) x h = refl
  app_step-with_signing (opens token bytes) x h = refl
  app_step-with_signing (sends token number more bytes) x h = refl
  app_step-with_signing (provides bytes) x h = refl
  app_step-with_signing (misasks cmd sw) x h = refl
  app_step-with_signing garbles x h = refl

  app_session-with_signing :
      (asked : List Asked) (x : AppSession)
      → IsUnapproved asked
      → (app_session ops (with_signing f crypto) tlv asked x).1
        ≡ (app_session ops crypto tlv asked x).1
  unfolding app_session
  app_session-with_signing [] x h = refl
  app_session-with_signing (a ∷ rest) x (plain, h) =
      let (x', reply) = app_step ops crypto tlv a x in
      ap
        (λ (r : AppSession × Option Reply).
          with_answer r.1 (app_session ops (with_signing f crypto) tlv rest r.0).1)
        (app_step-with_signing a x plain)
      ∙ ap (with_answer reply) (app_session-with_signing rest x' h)

-- As long as the user has approved nothing, the answers and reviews of `app_main`, whatever is asked
-- (with chunks of bytes, numbered at most 16, and refusals for a reason), do not depend on how the key
-- signs: they are the same with any other function in its place that the signature's law holds for.
pub app_main-unapproved :
    (ops : BufferOps) (laws : BufferLaws ops) (crypto : CryptoOps) (hexes : HexLaw crypto)
    (hashes : HashLaw crypto) (signs : SignLaw crypto) (keys : KeyLaw crypto) (tlv : TlvOps)
    (tokens : TlvLaws tlv) (f : Signing) (signs' : SignLaw (with_signing f crypto)) (m : Menu)
    (asked : List Asked)
    → AllAskedOk asked
    → IsUnapproved asked
    → (run : Run) × (run' : Run) × ((app_main ops crypto tlv m (rounds_of asked)).1 ≡ some run)
      × ((app_main ops (with_signing f crypto) tlv m (rounds_of asked)).1 ≡ some run')
      × (run'.replies ≡ run.replies)
app_main-unapproved ops laws crypto hexes hashes signs keys tlv tokens f signs' m asked ok plain =
    let (run, _, ran, _, same, _, _, _) =
      app_main-Refines ops laws crypto hexes hashes signs keys tlv tokens m asked [] ok in
    let (run', _, ran', _, same', _, _, _) =
      app_main-Refines ops laws (with_signing f crypto)
        (record { format_hex_done = hexes.format_hex_done })
        (record { digest_written = hashes.digest_written; digest_length = hashes.digest_length })
        signs'
        (record {
          key_length = keys.key_length;
          code_length = keys.code_length;
          point_length = keys.point_length;
        })
        tlv tokens m asked [] ok in
    (
      run,
      run',
      ran,
      ran',
      same' ∙ app_session-with_signing ops crypto f tlv asked start_app_session plain ∙ sym same,
    )
