-- ===== src/Swap/Announced.antt =====
-- What the Exchange app announced, as it is kept by src/swap/handle_swap_sign_transaction.c.
use ledger_hardmail_app.Common.{
  ℕ, ◌*◌, ◌+◌, ◌≡◌, refl, sym, ap, ◌∙◌, subst, ◌↔◌, inl, inr, Bool, true, false, not, ◌||◌, Option,
  none, some, arith, length, ◌==◌, if◌then◌else◌, Bool-cases, Option-cases, bind-some, guard-some,
  some_eq, ==_iff, take, write_at,
}
use ledger_hardmail_app.Sdk.Buffers.{Bytes}
use ledger_hardmail_app.Sdk.Crypto.{hex}
use ledger_hardmail_app.Email.{address_len}
use ledger_hardmail_app.Context.{zero_bytes}
use ledger_hardmail_app.Display.{c_string, codes}
use ledger_hardmail_app.Tokens.{TokenInfo, TlvOps}
use ledger_hardmail_app.Swap.{
  SwapOps, SwapValidated, SwapGlobals, SwapError, is_token_swap, same_text, token_mismatch,
  exponent_smallest_unit,
}
use ledger_hardmail_app.Swap.Copy.{
  CreateParameters, coin_of, recipient_of, parameters_of, swap_copy_transaction_parameters,
  upper_text,
}
use ledger_hardmail_app.Swap.Text.{same_text_iff, upper_text-c_string}

-- The coin that was announced is the app's own.
abbrev pub IsOwnCoin : Bytes → ℕ → Type 0
IsOwnCoin ticker decimals = (c_string ticker ≡ codes "BOL") × (decimals ≡ exponent_smallest_unit)

-- An announced token is the transaction's, and the app's own coin goes with no token.
abbrev pub CoinAgrees : Bytes → ℕ → Bool → TokenInfo → Type 0
CoinAgrees ticker decimals false token_info = IsOwnCoin ticker decimals
CoinAgrees ticker decimals true token_info =
    (¬ (IsOwnCoin ticker decimals))
    × ((c_string ticker ≡ c_string token_info.ticker) × (decimals ≡ token_info.decimals))

differs : Bytes → Bytes → ℕ → ℕ → Bool
differs a b m n = not (same_text a b) || not (m == n)

same_coin : (a b : Bytes) (m n : ℕ) → differs a b m n ≡ false → (a ≡ b) × (m ≡ n)
unfolding differs
same_coin a b m n h =
    let text : same_text a b ≡ true = ground (arith, h) in
    ((same_text_iff a b).0 text, ground (arith, h))

differs_same : (a b : Bytes) (m n : ℕ) → (a ≡ b) × (m ≡ n) → differs a b m n ≡ false
unfolding differs
differs_same a b m n (e, k) = let text = (same_text_iff a b).1 e in ground (arith, text, k)

none_if : (b : Bool) (error : SwapError) → (if b then some error else none) ≡ none → b ≡ false
none_if true error h = absurd (ground (arith, h))
none_if false error h = refl

not_own : (v : SwapValidated) → is_token_swap v ≡ true → ¬ (IsOwnCoin v.ticker v.decimals)
unfolding differs
not_own v e own =
    let same =
      differs_same (c_string v.ticker) (codes "BOL") v.decimals exponent_smallest_unit own in
    ground (arith, e, same)

pub token_mismatch_iff :
    (v : SwapValidated) (is_token_tx : Bool) (token_info : TokenInfo)
    → (token_mismatch v is_token_tx token_info ≡ none)
      ↔ CoinAgrees v.ticker v.decimals is_token_tx token_info
unfolding token_mismatch differs
token_mismatch_iff v false token_info = elim (Bool-cases (is_token_swap v)) [
  | inl e ↦ (λ h. absurd (ground (arith, rw e at h)), λ own. absurd (not_own v e own))
  | inr e ↦ (λ h. same_coin _ _ _ _ e, λ own. rw e refl)
]
token_mismatch_iff v true token_info = elim (Bool-cases (is_token_swap v)) [
  | inl e ↦ (
    λ h. (not_own v e, same_coin _ _ _ _ (none_if _ _ (rw e at h))),
    λ (_, same). rw (e, differs_same _ _ _ _ same) refl,
  )
  | inr e ↦ (λ h. absurd (ground (arith, rw e at h)), λ ok. absurd (ok.0 (same_coin _ _ _ _ e)))
]

-- What the Exchange app announced, as `swap_copy_transaction_parameters` keeps it.
pub record Announced (swap : SwapOps) (params : CreateParameters) (v : SwapValidated) : Type 0 where
  pub address : Bytes
  pub amount_text : Bytes
  pub address_given : params.destination_address ≡ some address
  pub address_length : length (c_string address) ≡ 2 * address_len
  pub amount_given : params.amount ≡ some amount_text
  pub amount_kept : swap.str_to_u64 amount_text params.amount_length ≡ some v.amount
  pub fee_kept : swap.str_to_u64 params.fee_amount params.fee_amount_length ≡ some v.fee
  pub coin_kept : coin_of swap params ≡ some (v.ticker, v.decimals)
  pub recipient_kept :
      v.recipient
      ≡ write_at (zero_bytes (2 * address_len + 1)) 0 (upper_text (take (2 * address_len) address))
  pub is_initialized : v.initialized ≡ true

pub one_value {ℓ} : {A : Type ℓ} (o : Option A) (x y : A) → o ≡ some x → o ≡ some y → x ≡ y
one_value o x y e k = some_eq x y (sym e ∙ k)

pub recipient_text :
    (swap : SwapOps) (params : CreateParameters) (v : SwapValidated)
    (kept : Announced swap params v)
    → c_string v.recipient ≡ upper_text (c_string kept.address)
recipient_text swap params v kept =
    ap c_string kept.recipient_kept
    ∙ upper_text-c_string (2 * address_len) kept.address kept.address_length

-- A transaction that is what the Exchange app announced: to the same address, in any case of letters,
-- of the same amount, fee and coin.
pub record Promised (swap : SwapOps) (params : CreateParameters) (is_token_tx : Bool)
    (amount fee : ℕ) (to : Bytes) (token_info : TokenInfo) : Type 0 where
  pub address : Bytes
  pub address_given : params.destination_address ≡ some address
  pub address_same : upper_text (c_string address) ≡ hex to
  pub amount_text : Bytes
  pub amount_given : params.amount ≡ some amount_text
  pub amount_same : swap.str_to_u64 amount_text params.amount_length ≡ some amount
  pub fee_same : swap.str_to_u64 params.fee_amount params.fee_amount_length ≡ some fee
  pub ticker : Bytes
  pub decimals : ℕ
  pub coin_given : coin_of swap params ≡ some (ticker, decimals)
  pub coin_same : CoinAgrees ticker decimals is_token_tx token_info

module _ (swap : SwapOps) (params : CreateParameters) where
  parameters_of-Announced :
      (v : SwapValidated) → parameters_of swap params ≡ some v → Announced swap params v
  unfolding parameters_of
  parameters_of-Announced v ran =
      let (address, given, ran1) = bind-some params.destination_address _ v ran in
      let (text, sized, ran2) = bind-some (recipient_of address) _ v ran1 in
      let (amount, there, ran3) = bind-some params.amount _ v ran2 in
      let ((ticker, decimals), coin, ran4) = bind-some (coin_of swap params) _ v ran3 in
      let (a, a_read, ran5) = bind-some (swap.str_to_u64 amount params.amount_length) _ v ran4 in
      let (f, f_read, ran6) =
        bind-some (swap.str_to_u64 params.fee_amount params.fee_amount_length) _ v ran5 in
      let (n, shape) =
        guard-some (length (c_string address) == 2 * address_len)
          (upper_text (take (2 * address_len) address)) text sized in
      subst (Announced swap params) (some_eq _ v ran6) (record {
        address = address;
        amount_text = amount;
        address_given = given;
        address_length = (==_iff (length (c_string address)) (2 * address_len)).0 n;
        amount_given = there;
        amount_kept = a_read;
        fee_kept = f_read;
        coin_kept = coin;
        recipient_kept = ap (write_at (zero_bytes (2 * address_len + 1)) 0) (sym shape);
        is_initialized = refl;
      })

  pub copy-Announced :
      (tlv : TlvOps) (g g' : SwapGlobals)
      → swap_copy_transaction_parameters swap tlv g params ≡ (true, g')
      → Announced swap params g'.validated
  unfolding swap_copy_transaction_parameters
  copy-Announced tlv g g' ran = elim (Option-cases (parameters_of swap params)) [
    | inl e ↦ absurd (ground (arith, rw (e, swap_copy_transaction_parameters) at ran))
    | inr (v, made) ↦
        subst (λ (x : Bool × SwapGlobals). Announced swap params x.1.validated)
          (rw (made, swap_copy_transaction_parameters) at ran) (parameters_of-Announced v made)
  ]
