-- ===== src/App/Approved.antt =====
-- What a run of the loop of src/app_main.c answers to the approval of a review.
use ledger_hardmail_app.Common.{
  ◌≡◌, sym, ap, ◌∙◌, subst, true, false, List, [], ◌∷◌, ◌++◌, some, ◌>>=◌, if_false, one_result,
  Bool,
}
use ledger_hardmail_app.Sdk.Buffers.{BufferOps, BufferLaws}
use ledger_hardmail_app.Sdk.Crypto.{CryptoOps, HexLaw, HashLaw, SignLaw}
use ledger_hardmail_app.Wire.{AllBytes, Message, IsValid, encode}
use ledger_hardmail_app.Context.{Pair, Reply, review}
use ledger_hardmail_app.Display.Review.{review_of}
use ledger_hardmail_app.Display.Injective.{HexBytes, review_of-injective}
use ledger_hardmail_app.Validate.Choice.{signature_reply}
use ledger_hardmail_app.Tokens.{TlvOps}
use ledger_hardmail_app.Tokens.Lookup.{TlvLaws}
use ledger_hardmail_app.Dispatcher.{Globals}
use ledger_hardmail_app.Settings.{Menu}
use ledger_hardmail_app.Device.{Device, screen_of, device_of, start, review_choice}
use ledger_hardmail_app.Device.Invariant.{review_choice-signs}
use ledger_hardmail_app.Device.Holds.{IsDevice, started-IsDevice, signed_IsDevice}
use ledger_hardmail_app.Display.Encoded.{HexBytes-encode}
use ledger_hardmail_app.App.{Round, chosen, is_menu, Run, reply_first, app_loop, app_main}
use ledger_hardmail_app.App.Loop.{RoundsOk, appended, resumed, app_loop-Runs, app_loop-append}
use ledger_hardmail_app.App.Screens.{last_screen, last_screen-append, app_loop-Shows}

module _ (ops : BufferOps) (laws : BufferLaws ops) (crypto : CryptoOps) (hexes : HexLaw crypto)
    (hashes : HashLaw crypto) (signs : SignLaw crypto) (tlv : TlvOps) (tokens : TlvLaws tlv) where
  -- The device at the end of a run that has not returned, by the last of its answers.
  ended :
      (rounds : List Round) (run : Run) (earlier : List Reply) (last : Reply)
      → RoundsOk rounds
      → app_loop ops crypto tlv (start ops crypto tlv) rounds ≡ some run
      → run.returned ≡ false
      → run.replies ≡ earlier ++ last ∷ []
      → IsDevice crypto run.device × (run.device.screen ≡ screen_of last)
  ended rounds run earlier last ok ran running put =
      let first = start ops crypto tlv in
      let (run', ran', well) =
        app_loop-Runs ops laws crypto hexes hashes signs tlv tokens rounds first ok
          (started-IsDevice ops crypto tlv) in
      (
        one_result (λ (x : Run). IsDevice crypto x.device) ran' ran well,
        app_loop-Shows ops crypto tlv rounds first run ran running
            ∙ ap (last_screen first.screen) put
            ∙ last_screen-append first.screen earlier last,
      )

  -- A choice after a run that has not returned, and what follows.
  continued :
      (rounds more : List Round) (run : Run) (g : Globals) (sent : Reply) (confirm : Bool)
      → RoundsOk more
      → app_loop ops crypto tlv (start ops crypto tlv) rounds ≡ some run
      → run.returned ≡ false
      → is_menu run.device.screen ≡ false
      → review_choice ops crypto tlv run.device confirm ≡ some (device_of (g, sent))
      → IsDevice crypto (device_of (g, sent)).0
      → (rest : Run) × (app_loop ops crypto tlv
            (start ops crypto tlv)
            (rounds ++ chosen confirm ∷ more)
          ≡ some (appended run (reply_first sent rest)))
  unfolding app_loop
  continued rounds more run g sent confirm ok ran running waits chose well =
      let (rest, after, _) =
        app_loop-Runs ops laws crypto hexes hashes signs tlv tokens more (device_of (g, sent)).0 ok
          well in
      (
        rest,
        app_loop-append ops crypto tlv rounds (chosen confirm ∷ more) (start ops crypto tlv)
            ∙ ap (λ o. o >>= resumed ops crypto tlv (chosen confirm ∷ more)) ran
            ∙ if_false run.returned _ _ running
            ∙ ap (λ o. o >>= λ x. some (appended run x))
                (if_false (is_menu run.device.screen) _ _ waits
                  ∙ ap
                      (λ o. o >>= λ (x : Device × Reply).
                        app_loop ops crypto tlv x.0 more >>= λ y. some (reply_first x.1 y))
                      chose
                  ∙ ap (λ o. o >>= λ y. some (reply_first sent y)) after),
      )

  -- When the last that `app_main` has put out is the review of an email, the user's approval is
  -- answered next with the signature of the SHA-256 of the encoding of an allowed message, whose
  -- review it is, as of no other allowed message of bytes. (A signature that fails is
  -- SWO_SECURITY_ISSUE.)
  pub app_main-approved :
      (first : Menu) (rounds more : List Round) (run : Run) (earlier : List Reply)
      (pairs : List Pair)
      → RoundsOk rounds
      → RoundsOk more
      → (app_main ops crypto tlv first rounds).1 ≡ some run
      → run.returned ≡ false
      → run.replies ≡ earlier ++ review pairs ∷ []
      → let c = run.device.globals.context in
        (m : Message) × (rest : Run) × IsValid m
        × (pairs ≡ review_of m)
        × ((m' : Message) → IsValid m' → HexBytes m' → pairs ≡ review_of m' → m' ≡ m)
        × ((app_main ops crypto tlv first (rounds ++ chosen true ∷ more)).1
            ≡ some (
                appended run (
                  reply_first
                    (signature_reply crypto c.bip32_path c.bip32_path_len
                      (crypto.hash_sha256 (encode m)).1)
                    rest)))
  unfolding app_main
  app_main-approved first rounds more run earlier pairs ok ok' ran running last =
      let (h, e) = ended rounds run earlier (review pairs) ok ran running last in
      let (m, g, valid, shows, holds, chose, well) =
        review_choice-signs ops laws crypto hexes hashes signs tlv tokens run.device pairs h e in
      let (rest, next) =
        continued rounds more run g _ true ok' ran running (ap is_menu e) chose
          (signed_IsDevice crypto g _ _ _ well) in
      (
        m,
        rest,
        valid,
        shows,
        λ m' valid' bytes' shows'.
            review_of-injective m' m valid' valid bytes'
              (HexBytes-encode m (subst AllBytes holds h.well.raw_bytes)) (sym shows' ∙ shows),
        next,
      )
