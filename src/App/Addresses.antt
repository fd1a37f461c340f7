-- ===== src/App/Addresses.antt =====
-- What a run of the loop of src/app_main.c answers to the approval of an address.
use ledger_hardmail_app.Common.{
  ℕ, ◌≡◌, sym, ap, ◌∙◌, subst, true, List, [], ◌∷◌, ◌++◌, some, none, some_eq, refl,
}
use ledger_hardmail_app.Sdk.Buffers.{Bytes, BufferOps, BufferLaws}
use ledger_hardmail_app.Sdk.Crypto.{CryptoOps, HexLaw, HashLaw, SignLaw, KeyLaw, hex}
use ledger_hardmail_app.Context.{Reply, review_address}
use ledger_hardmail_app.Address.Keys.{key_answer}
use ledger_hardmail_app.Tokens.{TlvOps}
use ledger_hardmail_app.Tokens.Lookup.{TlvLaws}
use ledger_hardmail_app.Settings.{Menu}
use ledger_hardmail_app.App.{Run, app_main}
use ledger_hardmail_app.App.Session.{
  Asked, decides, rounds_of, AllAskedOk, AppSession, start_app_session, with_answer, app_step,
  app_session,
}
use ledger_hardmail_app.App.Refines.{app_main-Refines}
use ledger_hardmail_app.App.Keyed.{
  last_of, IsLast, last_of-append, app_session-IsLast, app_session-append, point_at, code_at,
  address_at, key_reply, key_review-shown,
}

approval_ok : (asked : List Asked) → AllAskedOk asked → AllAskedOk (asked ++ decides true ∷ [])
approval_ok [] h = (tt, tt)
approval_ok (a ∷ rest) (h, k) = (h, approval_ok rest k)

-- The answer to an approval while an address is shown.
approval_answer :
    (ops : BufferOps) (crypto : CryptoOps) (tlv : TlvOps) (x : AppSession)
    → x.shows_key ≡ true
    → (app_step ops crypto tlv (decides true) x).1
      ≡ some (key_answer crypto x.signing.path x.signing.path_len)
unfolding app_step
approval_answer ops crypto tlv x e = rw e refl

module _ (ops : BufferOps) (laws : BufferLaws ops) (crypto : CryptoOps) (hexes : HexLaw crypto)
    (hashes : HashLaw crypto) (signs : SignLaw crypto) (keys : KeyLaw crypto) (tlv : TlvOps)
    (tokens : TlvLaws tlv) where
  -- When the last that `app_main` has put out is the review of an address, there is a path of which it
  -- is the address, in upper-case hexadecimal, and the user's approval is answered next with the key
  -- of that very path: its compressed point after a 65, and its chain code after a 32. The run is of anything that can be asked of the app (chunks of bytes that are numbered
  -- at most 16, and refusals for a reason), with answers that can be sent.
  pub app_main-sends_key :
      (m : Menu) (asked : List Asked) (run : Run) (earlier : List Reply) (text : Bytes)
      → AllAskedOk asked
      → (app_main ops crypto tlv m (rounds_of asked)).1 ≡ some run
      → run.replies ≡ earlier ++ review_address text ∷ []
      → (path : List ℕ) × (n : ℕ) × (approved : Run) × (text ≡ hex (address_at crypto path n))
        × ((app_main ops crypto tlv m (rounds_of (asked ++ decides true ∷ []))).1 ≡ some approved)
        × (approved.replies
            ≡ (earlier ++ review_address text ∷ [])
              ++ key_reply (point_at crypto path n) (code_at crypto path n) ∷ [])
  app_main-sends_key m asked run earlier text ok ran last =
      let (run', _, ran', _, same, _, _, _) =
        app_main-Refines ops laws crypto hexes hashes signs keys tlv tokens m asked [] ok in
      let (approved, _, goes, _, answers, _, _, _) =
        app_main-Refines ops laws crypto hexes hashes signs keys tlv tokens m
          (asked ++ decides true ∷ []) [] (approval_ok asked ok) in
      let (x, replies) = app_session ops crypto tlv asked start_app_session in
      let put : replies ≡ earlier ++ review_address text ∷ [] =
        sym same ∙ ap (λ (r : Run). r.replies) (some_eq _ _ (sym ran' ∙ ran)) ∙ last in
      let (shows, shown) : IsLast crypto x (some (review_address text)) =
        subst (IsLast crypto x) (ap (last_of none) put ∙ last_of-append none earlier _)
          (app_session-IsLast ops crypto tlv asked start_app_session none tt) in
      let (written, sends) = key_review-shown crypto x.signing.path x.signing.path_len text shown in
      (
        x.signing.path,
        x.signing.path_len,
        approved,
        written,
        goes,
        answers
            ∙ app_session-append ops crypto tlv asked (decides true) start_app_session
            ∙ ap (λ r. replies ++ with_answer r [])
                (approval_answer ops crypto tlv x shows ∙ ap some sends)
            ∙ ap
                (λ r.
                  r
                  ++ key_reply (point_at crypto x.signing.path x.signing.path_len)
                      (code_at crypto x.signing.path x.signing.path_len)
                    ∷ [])
                put,
      )
