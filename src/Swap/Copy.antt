-- ===== src/Swap/Copy.antt =====
-- `swap_copy_transaction_parameters` of src/swap/handle_swap_sign_transaction.c.
use ledger_hardmail_app.Common.{
  ℕ, ◌+◌, ◌-◌, ◌*◌, Bool, true, false, not, ◌&&◌, [], ◌∷◌, ◌++◌, Option, none, some, length, ltb,
  ◌==◌, if◌then◌else◌, take, write_at, ◌>>=◌,
}
use ledger_hardmail_app.Sdk.Buffers.{Bytes}
use ledger_hardmail_app.Email.{address_len}
use ledger_hardmail_app.Context.{zero_context, zero_bytes}
use ledger_hardmail_app.Display.{codes, c_string}
use ledger_hardmail_app.Tokens.{TlvOps, init_dynamic_token_storage}
use ledger_hardmail_app.Swap.{SwapOps, SwapValidated, SwapGlobals, exponent_smallest_unit}

-- `create_transaction_parameters_t` of the SDK; `none` is a NULL pointer.
pub record CreateParameters : Type 0 where
  pub coin_configuration : Option Bytes
  pub coin_configuration_length : ℕ
  pub amount : Option Bytes
  pub amount_length : ℕ
  pub fee_amount : Bytes
  pub fee_amount_length : ℕ
  pub destination_address : Option Bytes

abbrev pub upper : ℕ → ℕ
upper c = if not (ltb c 0x61) && not (ltb 0x7a c) then c - 0x61 + 0x41 else c

abbrev pub upper_text : Bytes → Bytes
upper_text [] = []
upper_text (c ∷ cs) = upper c ∷ upper_text cs

-- The check and the copy of the destination's address.
abbrev pub recipient_of : Bytes → Option Bytes
recipient_of address =
    if length (c_string address) == 2 * address_len
    then some (upper_text (take (2 * address_len) address))
    else none

module _ (swap : SwapOps) where
  abbrev pub no_validated : SwapValidated
  no_validated = record {
    initialized = false;
    amount = 0;
    fee = 0;
    recipient = zero_bytes (2 * address_len + 1);
    decimals = 0;
    ticker = zero_bytes swap.max_ticker_size;
  }

  -- The ticker and the decimals of a coin configuration, or those of the app's own coin.
  unfoldable pub coin_of : CreateParameters → Option (Bytes × ℕ)
  coin_of params = elim params.coin_configuration [
    | none ↦ some (
      write_at (zero_bytes swap.max_ticker_size) 0 (codes "BOL" ++ 0 ∷ []),
      exponent_smallest_unit,
    )
    | some config ↦ swap.parse_config config params.coin_configuration_length swap.max_ticker_size
  ]

  -- The local copy of the parameters in `swap_copy_transaction_parameters`, or a failed check.
  unfoldable pub parameters_of : CreateParameters → Option SwapValidated
  parameters_of params = do
    address ← params.destination_address
    text ← recipient_of address
    amount ← params.amount
    (ticker, decimals) ← coin_of params
    amount_64 ← swap.str_to_u64 amount params.amount_length
    fee_64 ← swap.str_to_u64 params.fee_amount params.fee_amount_length
    some (record {
      initialized = true;
      amount = amount_64;
      fee = fee_64;
      recipient = write_at (zero_bytes (2 * address_len + 1)) 0 text;
      decimals = decimals;
      ticker = ticker;
    })

  -- `swap_copy_transaction_parameters`: what it returns, and the globals. They change only at the
  -- end, with `os_explicit_zero_BSS_segment` and the copy to G_swap_validated.
  unfoldable pub swap_copy_transaction_parameters :
      TlvOps → SwapGlobals → CreateParameters → Bool × SwapGlobals
  swap_copy_transaction_parameters tlv g params = elim (parameters_of params) [
    | none ↦ (false, g)
    | some v ↦ (
      true,
      record {
        validated = v;
        response_ready = false;
        globals = record { context = zero_context; token = init_dynamic_token_storage tlv };
      },
    )
  ]
