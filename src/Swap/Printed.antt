-- ===== src/Swap/Printed.antt =====
-- The amounts that src/swap/handle_get_printable_amount.c prints for the Exchange app, and those that
-- src/swap/handle_swap_sign_transaction.c keeps.
use ledger_hardmail_app.Common.{
  ◌-◌, ◌≡◌, refl, sym, ap, ◌∙◌, true, false, [], ◌∷◌, ◌++◌, some, take, Option-cases, inl, inr,
  some_eq, ℕ, zero, suc, ◌≤◌, arith, write_at,
}
use ledger_hardmail_app.Sdk.Buffers.{Bytes}
use ledger_hardmail_app.Display.{c_string, codes}
use ledger_hardmail_app.Context.{zero_bytes}
use ledger_hardmail_app.Tokens.{TlvOps}
use ledger_hardmail_app.Swap.{SwapOps, SwapGlobals, exponent_smallest_unit}
use ledger_hardmail_app.Swap.Copy.{CreateParameters, coin_of, swap_copy_transaction_parameters}
use ledger_hardmail_app.Swap.Announced.{copy-Announced}
use ledger_hardmail_app.Swap.Amount.{
  AmountParameters, unit_of, amount_text, printed_amount, swap_handle_get_printable_amount,
}

-- The amount of a swap, and its fee, as they are given to be printed.
abbrev pub asked_amount : CreateParameters → Bytes → AmountParameters
asked_amount params amount = record {
  coin_configuration = params.coin_configuration;
  coin_configuration_length = params.coin_configuration_length;
  amount = amount;
  amount_length = params.amount_length;
  is_fee = false;
}

abbrev pub asked_fee : CreateParameters → AmountParameters
asked_fee params = record {
  coin_configuration = params.coin_configuration;
  coin_configuration_length = params.coin_configuration_length;
  amount = params.fee_amount;
  amount_length = params.fee_amount_length;
  is_fee = true;
}

-- The app's own ticker, copied over zeros.
own_ticker :
    (n : ℕ) → 4 ≤ n → c_string (write_at (zero_bytes n) 0 (codes "BOL" ++ 0 ∷ [])) ≡ codes "BOL"
unfolding zero_bytes
own_ticker zero h = absurd (omega arith)
own_ticker (suc zero) h = absurd (omega arith)
own_ticker (suc (suc zero)) h = absurd (omega arith)
own_ticker (suc (suc (suc zero))) h = absurd (omega arith)
own_ticker (suc (suc (suc (suc n)))) h = refl

module _ (swap : SwapOps) where
  -- An amount with its ticker, cut to the array.
  abbrev pub printed_text : ℕ → ℕ → Bytes → Bytes
  printed_text amount decimals ticker =
      take (swap.max_printable_amount_size - 1) (amount_text swap amount decimals ticker)

  -- An amount and a unit that can be read are printed.
  prints :
      (params : AmountParameters) (amount decimals : ℕ) (ticker : Bytes)
      → swap.str_to_u64 params.amount params.amount_length ≡ some amount
      → unit_of swap params ≡ some (ticker, decimals)
      → swap_handle_get_printable_amount swap params ≡ printed_text amount decimals ticker
  unfolding swap_handle_get_printable_amount printed_amount
  prints params amount decimals ticker e k =
      rw (swap_handle_get_printable_amount, printed_amount, e, k) refl

-- A ticker's array has room for the app's own.
module _ (swap : SwapOps) (room : 4 ≤ swap.max_ticker_size) where
  -- The unit of an amount is the coin of the swap, but for the bytes behind the ticker.
  unit-coin :
      (params : CreateParameters) (amount ticker : Bytes) (decimals : ℕ)
      → coin_of swap params ≡ some (ticker, decimals)
      → (shown : Bytes) × (unit_of swap (asked_amount params amount) ≡ some (shown, decimals))
        × (c_string shown ≡ c_string ticker)
  unfolding coin_of unit_of
  unit-coin params amount ticker decimals e = elim (Option-cases params.coin_configuration) [
    | inl n ↦
        let kept = some_eq _ _ (rw n at e) in
        (
          codes "BOL",
          rw n (ap (λ (x : Bytes × ℕ). some (codes "BOL", x.1)) kept),
          sym (own_ticker swap.max_ticker_size room) ∙ ap (λ (x : Bytes × ℕ). c_string x.0) kept,
        )
    | inr (config, n) ↦ (ticker, rw n (rw n at e), refl)
  ]

  -- What is printed for an amount and its fee is what is kept and compared with the transaction: once
  -- the parameters of a swap are accepted, the printed amount is the kept one with the kept ticker
  -- and decimals, and the printed fee is the kept one in the app's own coin.
  pub copied-printed :
      (tlv : TlvOps) (params : CreateParameters) (amount : Bytes) (g g' : SwapGlobals)
      → params.amount ≡ some amount
      → swap_copy_transaction_parameters swap tlv g params ≡ (true, g')
      → let v = g'.validated in
        (swap_handle_get_printable_amount swap (asked_amount params amount)
          ≡ printed_text swap v.amount v.decimals v.ticker)
        × (swap_handle_get_printable_amount swap (asked_fee params)
            ≡ printed_text swap v.fee exponent_smallest_unit (codes "BOL"))
  unfolding unit_of
  copied-printed tlv params amount g g' given ran =
      let kept = copy-Announced swap params tlv g g' ran in
      let v = g'.validated in
      let same = some_eq _ _ (sym kept.amount_given ∙ given) in
      let (shown, unit, text) = unit-coin params amount v.ticker v.decimals kept.coin_kept in
      (
        prints swap (asked_amount params amount) v.amount v.decimals shown
              (ap (λ a. swap.str_to_u64 a params.amount_length) (sym same) ∙ kept.amount_kept) unit
            ∙ ap
                (λ t.
                  take (swap.max_printable_amount_size - 1)
                    (c_string (swap.format_fpu64 30 v.amount v.decimals) ++ (codes " " ++ t)))
                text,
        prints swap (asked_fee params) v.fee exponent_smallest_unit (codes "BOL") kept.fee_kept
            refl,
      )
