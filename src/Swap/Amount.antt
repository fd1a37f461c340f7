-- ===== src/Swap/Amount.antt =====
-- src/swap/handle_get_printable_amount.c.
use ledger_hardmail_app.Common.{
  ℕ, ◌-◌, Bool, [], ◌++◌, Option, none, some, if◌then◌else◌, take, ◌>>=◌,
}
use ledger_hardmail_app.Sdk.Buffers.{Bytes}
use ledger_hardmail_app.Display.{c_string, codes}
use ledger_hardmail_app.Swap.{SwapOps, exponent_smallest_unit}

-- `get_printable_amount_parameters_t` of the SDK; `none` is a NULL pointer.
pub record AmountParameters : Type 0 where
  pub coin_configuration : Option Bytes
  pub coin_configuration_length : ℕ
  pub amount : Bytes
  pub amount_length : ℕ
  pub is_fee : Bool

module _ (swap : SwapOps) where
  -- The ticker and the decimals: a fee, or an amount with no configuration, is of the app's coin.
  unfoldable pub unit_of : AmountParameters → Option (Bytes × ℕ)
  unit_of params =
      if params.is_fee
      then some (codes "BOL", exponent_smallest_unit)
      else elim params.coin_configuration [
        | none ↦ some (codes "BOL", exponent_smallest_unit)
        | some config ↦
            swap.parse_config config params.coin_configuration_length swap.max_ticker_size
      ]

  -- What `snprintf` prints: the amount, a space and the ticker.
  abbrev pub amount_text : ℕ → ℕ → Bytes → Bytes
  amount_text raw_amount decimals ticker =
      c_string (swap.format_fpu64 30 raw_amount decimals) ++ (codes " " ++ c_string ticker)

  -- The text of the amount, if the amount and the configuration can be read.
  unfoldable pub printed_amount : AmountParameters → Option Bytes
  printed_amount params = do
    raw_amount ← swap.str_to_u64 params.amount params.amount_length
    (ticker, decimals) ← unit_of params
    some (take (swap.max_printable_amount_size - 1) (amount_text raw_amount decimals ticker))

  -- `swap_handle_get_printable_amount`: the string in `printable_amount`, empty on an error.
  unfoldable pub swap_handle_get_printable_amount : AmountParameters → Bytes
  swap_handle_get_printable_amount params = elim (printed_amount params) [
    | none ↦ []
    | some text ↦ text
  ]
