-- ===== src/Swap/Promise.antt =====
-- When a transaction is what Exchange announced, in src/swap/handle_swap_sign_transaction.c.
use ledger_hardmail_app.Common.{
  ℕ, ◌*◌, ◌+◌, ◌≡◌, refl, sym, ap, ◌∙◌, subst, ◌↔◌, inl, inr, Bool, true, false, not, none, some,
  arith, length, ◌==◌, Bool-cases, Option-cases, ==_iff, drop, slice, length-take, leb, ◌≤◌,
}
use ledger_hardmail_app.Sdk.Buffers.{Bytes}
use ledger_hardmail_app.Sdk.Crypto.{CryptoOps, HexLaw, hex}
use ledger_hardmail_app.Email.{Ptr, null, at, address_len}
use ledger_hardmail_app.Display.{c_string, read_mem}
use ledger_hardmail_app.Tokens.{TokenInfo, TlvOps}
use ledger_hardmail_app.Dispatcher.{Globals}
use ledger_hardmail_app.Swap.{
  SwapOps, SwapValidated, SwapGlobals, matches, same_text, token_mismatch, check_values,
  swap_check_validity, destination_text,
}
use ledger_hardmail_app.Swap.Copy.{CreateParameters, swap_copy_transaction_parameters, upper_text}
use ledger_hardmail_app.Swap.Announced.{
  CoinAgrees, token_mismatch_iff, one_value, recipient_text, Promised, copy-Announced,
}
use ledger_hardmail_app.Swap.Text.{same_text_iff}

read_mem_le :
    (mem : Bytes) (p : Ptr) (n : ℕ) (bs : Bytes) → read_mem mem p n ≡ some bs → length bs ≤ n
read_mem_le mem null n bs h = absurd (ground (arith, h))
read_mem_le mem (at p) n bs h = elim (Bool-cases (leb (p + n) (length mem))) [
  | inl e ↦
      let same : slice mem p n ≡ bs = ground (arith, (rw e at h)) in
      omega (arith, ap length same, length-take n (drop p mem))
  | inr e ↦ absurd (ground (arith, rw e at h))
]

module _ (crypto : CryptoOps) (hexes : HexLaw crypto) where
  destination_text-hex :
      (mem : Bytes) (p : Ptr) (to : Bytes)
      → read_mem mem p address_len ≡ some to
      → destination_text crypto to ≡ hex to
  destination_text-hex mem p to read =
      rw
        (
          hexes.format_hex_done to (2 * address_len + 1)
              (omega (arith, read_mem_le mem p address_len to read)),
          destination_text,
        )
        refl

  -- The checks that `swap_check_validity` makes of what is kept.
  check_values_iff :
      (v : SwapValidated) (mem : Bytes) (amount fee : ℕ) (destination : Ptr) (to : Bytes)
      → read_mem mem destination address_len ≡ some to
      → (check_values crypto v mem amount fee destination ≡ some matches) ↔ (
          ((v.amount == amount) ≡ true)
          × ((v.fee == fee) ≡ true)
          × (same_text (c_string v.recipient) (hex to) ≡ true))
  unfolding check_values
  check_values_iff v mem amount fee destination to read = elim (Bool-cases (v.amount == amount)) [
    | inr a ↦
        (λ ran. absurd (ground (arith, rw a at ran)), λ (t, _, _). absurd (ground (arith, a, t)))
    | inl a ↦ elim (Bool-cases (v.fee == fee)) [
      | inr f ↦ (
        λ ran. absurd (ground (arith, rw (a, f) at ran)),
        λ (_, t, _). absurd (ground (arith, f, t)),
      )
      | inl f ↦ elim (Bool-cases (same_text (c_string v.recipient) (hex to))) [
        | inr r ↦ (
          λ ran.
              absurd (ground (arith, rw (a, f, read, destination_text-hex _ _ _ read, r) at ran)),
          λ (_, _, t). absurd (ground (arith, r, t)),
        )
        | inl r ↦ (λ ran. (a, f, r), λ t. rw (a, f, read, destination_text-hex _ _ _ read, r) refl)
      ]
    ]
  ]

  -- A transaction that passes has its destination in the payload.
  pub check_values-read :
      (v : SwapValidated) (mem : Bytes) (amount fee : ℕ) (destination : Ptr)
      → check_values crypto v mem amount fee destination ≡ some matches
      → (to : Bytes) × (read_mem mem destination address_len ≡ some to)
  unfolding check_values
  check_values-read v mem amount fee destination ran =
      elim (Option-cases (read_mem mem destination address_len)) [
        | inr (to, read) ↦ (to, read)
        | inl e ↦ elim (Bool-cases (v.amount == amount)) [
          | inr a ↦ absurd (ground (arith, rw a at ran))
          | inl a ↦ elim (Bool-cases (v.fee == fee)) [
            | inr f ↦ absurd (ground (arith, rw (a, f) at ran))
            | inl f ↦ absurd (ground (arith, rw (a, f, e) at ran))
          ]
        ]
      ]

  pub swap_check_validity_iff :
      (g : SwapGlobals) (amount fee : ℕ) (destination : Ptr) (token_info : TokenInfo)
      → g.validated.initialized ≡ true
      → let info = g.globals.context.tx_info in
        (swap_check_validity crypto g amount fee destination token_info ≡ some matches) ↔ (
          (token_mismatch g.validated info.is_token_tx token_info ≡ none)
          × (check_values crypto g.validated info.raw_tx amount fee destination ≡ some matches))
  unfolding swap_check_validity
  swap_check_validity_iff g amount fee destination token_info ready =
      let info = g.globals.context.tx_info in
      let go : not g.validated.initialized ≡ false = ap not ready in
      elim (Option-cases (token_mismatch g.validated info.is_token_tx token_info)) [
        | inl e ↦ (λ ran. (e, rw (go, e) at ran), λ (_, t). rw (go, e) t)
        | inr (error, e) ↦ (
          λ ran. absurd (ground (arith, rw (go, e) at ran)),
          λ (t, _). absurd (ground (arith, e, t)),
        )
      ]

  -- After the Exchange app's parameters were accepted, the check lets a transaction pass exactly when
  -- it is the one announced: the same destination, in any case of letters, amount, fee and coin.
  pub swap_check_validity-Promised :
      (swap : SwapOps) (tlv : TlvOps) (params : CreateParameters) (g g' : SwapGlobals)
      (response_ready : Bool) (globals : Globals) (amount fee : ℕ) (destination : Ptr) (to : Bytes)
      (token_info : TokenInfo)
      → swap_copy_transaction_parameters swap tlv g params ≡ (true, g')
      → read_mem globals.context.tx_info.raw_tx destination address_len ≡ some to
      → (swap_check_validity crypto
            (record g' { response_ready = response_ready; globals = globals })
            amount
            fee
            destination
            token_info
          ≡ some matches)
        ↔ Promised swap params globals.context.tx_info.is_token_tx amount fee to token_info
  swap_check_validity-Promised swap tlv params g g' response_ready globals amount fee destination to
        token_info ran read =
      let kept = copy-Announced swap params tlv g g' ran in
      let info = globals.context.tx_info in
      let (passes, passed) =
        swap_check_validity_iff (record g' { response_ready = response_ready; globals = globals })
          amount fee destination token_info kept.is_initialized in
      let (values, valued) =
        check_values_iff g'.validated info.raw_tx amount fee destination to read in
      let (coins, coined) = token_mismatch_iff g'.validated info.is_token_tx token_info in
      let shown = recipient_text swap params g'.validated kept in
      (
        λ ok.
            let (t, v) = passes ok in
            let (a, f, r) = values v in
            record {
              address = kept.address;
              address_given = kept.address_given;
              address_same = sym shown ∙ (same_text_iff _ _).0 r;
              amount_text = kept.amount_text;
              amount_given = kept.amount_given;
              amount_same = kept.amount_kept ∙ ap some ((==_iff _ _).0 a);
              fee_same = kept.fee_kept ∙ ap some ((==_iff _ _).0 f);
              ticker = g'.validated.ticker;
              decimals = g'.validated.decimals;
              coin_given = kept.coin_kept;
              coin_same = coins t;
            },
        λ p.
            let address =
              one_value params.destination_address _ _ kept.address_given p.address_given in
            let text = one_value params.amount _ _ kept.amount_given p.amount_given in
            let a = one_value _ _ _ kept.amount_kept (
              subst (λ x. swap.str_to_u64 x params.amount_length ≡ some amount) (sym text)
                p.amount_same) in
            let f = one_value _ _ _ kept.fee_kept p.fee_same in
            let coin = one_value _ _ _ p.coin_given kept.coin_kept in
            let same =
              subst (λ (x : Bytes × ℕ). CoinAgrees x.0 x.1 info.is_token_tx token_info) coin
                p.coin_same in
            passed (
              coined same,
              valued (
                (==_iff _ _).1 a,
                (==_iff _ _).1 f,
                (same_text_iff _ _).1
                    (shown ∙ ap (λ x. upper_text (c_string x)) address ∙ p.address_same),
              ),
            ),
      )
