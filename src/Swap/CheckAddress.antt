-- ===== src/Swap/CheckAddress.antt =====
-- src/swap/handle_check_address.c.
use ledger_hardmail_app.Common.{
  List, sym, ap, ◌∙◌, some_eq, replicate, slice, ℕ, ◌*◌, ◌+◌, ◌≡◌, ◌≤◌, refl, ◌↔◌, Bool, true,
  false, not, Option, none, some, inl, inr, length, ◌==◌, if◌then◌else◌, arith, Bool-cases,
  Option-cases, ==_iff,
}
use ledger_hardmail_app.Machine.{path_read}
use ledger_hardmail_app.Sdk.Buffers.{Bytes, BufferOps}
use ledger_hardmail_app.Sdk.Crypto.{CryptoOps, HexLaw, hex}
use ledger_hardmail_app.Email.{address_len}
use ledger_hardmail_app.Context.{zero_bytes, length-zero_bytes}
use ledger_hardmail_app.Display.{c_string}
use ledger_hardmail_app.Address.{address_from_pubkey}
use ledger_hardmail_app.Address.Shown.{address_from_pubkey_le}
use ledger_hardmail_app.Swap.{SwapOps, same_text, destination_text}
use ledger_hardmail_app.Swap.Text.{same_text_iff}

-- `check_address_parameters_t` of the SDK, what is read of it; `none` is a NULL pointer.
pub record CheckParameters : Type 0 where
  pub address_parameters : Option Bytes
  pub address_parameters_length : ℕ
  pub address_to_check : Option Bytes

-- The path that is read and the key that is derived: the error, the key and the chain code. Whether
-- the reads succeeded is not looked at.
abbrev pub derived_key : BufferOps → SwapOps → Bytes → ℕ → ℕ × Bytes × Bytes
derived_key ops swap parameters parameters_length =
    let (_, bip32_path_len, buf) =
      ops.read_u8 (record { ptr = parameters; size = parameters_length; offset = 0 }) in
    let (_, bip32_path, _) = ops.read_bip32_path buf bip32_path_len in
    swap.get_pubkey_256k1 bip32_path bip32_path_len

-- The address of a key: all zeros where `address_from_pubkey` fails.
abbrev pub address_or_zeros : CryptoOps → Bytes → Bytes
address_or_zeros crypto public_key = elim (address_from_pubkey crypto public_key address_len) [
  | none ↦ zero_bytes address_len
  | some address ↦ address
]

module _ (ops : BufferOps) (crypto : CryptoOps) (swap : SwapOps) where
  -- `swap_handle_check_address`, with the parameters and the address that are given.
  unfoldable pub check_address : Bytes → ℕ → Bytes → Bool
  check_address parameters parameters_length address_to_check =
      let (error, public_key, _) = derived_key ops swap parameters parameters_length in
      if not (length (c_string address_to_check) == 2 * address_len)
      then false
      else if not (error == 0)
      then false
      else same_text (destination_text crypto (address_or_zeros crypto public_key))
          (c_string address_to_check)

  -- `swap_handle_check_address`: whether it sets the result to 1.
  unfoldable pub swap_handle_check_address : CheckParameters → Bool
  swap_handle_check_address params = elim params.address_parameters [
    | none ↦ false
    | some parameters ↦ elim params.address_to_check [
      | none ↦ false
      | some text ↦ check_address parameters params.address_parameters_length text
    ]
  ]

address_or_zeros_le :
    (crypto : CryptoOps) (public_key : Bytes)
    → length (address_or_zeros crypto public_key) ≤ address_len
address_or_zeros_le crypto public_key =
    elim (Option-cases (address_from_pubkey crypto public_key address_len)) [
      | inl e ↦ rw (e, length) (omega (arith, length-zero_bytes address_len))
      | inr (address, e) ↦ rw (e, length) (address_from_pubkey_le crypto public_key address e)
    ]

module _ (ops : BufferOps) (crypto : CryptoOps) (hexes : HexLaw crypto) (swap : SwapOps) where
  address_or_zeros-hex :
      (public_key : Bytes)
      → destination_text crypto (address_or_zeros crypto public_key)
        ≡ hex (address_or_zeros crypto public_key)
  address_or_zeros-hex public_key =
      rw
        (
          hexes.format_hex_done (address_or_zeros crypto public_key) (2 * address_len + 1)
              (omega (arith, address_or_zeros_le crypto public_key)),
          destination_text,
        )
        refl

  check_values_iff :
      (error : ℕ) (public_key text : Bytes)
      → ((if not (length (c_string text) == 2 * address_len)
            then false
            else if not (error == 0)
            then false
            else same_text
                (destination_text crypto (address_or_zeros crypto public_key))
                (c_string text))
          ≡ true)
        ↔ ((error ≡ 0)
            × (length (c_string text) ≡ 2 * address_len)
            × (hex (address_or_zeros crypto public_key) ≡ c_string text))
  check_values_iff error public_key text =
      elim (Bool-cases (length (c_string text) == 2 * address_len)) [
        | inr n ↦ (
          λ ran. absurd (ground (arith, rw n at ran)),
          λ (_, whole, _). absurd (ground (arith, n, whole)),
        )
        | inl n ↦ elim (Bool-cases (error == 0)) [
          | inr e ↦ (
            λ ran. absurd (ground (arith, rw (n, e) at ran)),
            λ (derived, _, _). absurd (ground (arith, e, derived)),
          )
          | inl e ↦ (
            λ ran. (
              (==_iff error 0).0 e,
              (==_iff _ _).0 n,
              (same_text_iff _ _).0 (rw (n, e, address_or_zeros-hex public_key) at ran),
            ),
            λ (_, _, same). rw (n, e, address_or_zeros-hex public_key) ((same_text_iff _ _).1 same),
          )
        ]
      ]

-- The address of a key: the last 20 bytes of the Keccak-256 of its coordinates, or 20 zeros where the
-- hash fails.
abbrev pub key_address : CryptoOps → Bytes → Bytes
key_address crypto public_key =
    let (error, digest) = crypto.keccak_256 (slice public_key 1 64) in
    if error == 0 then slice digest 12 20 else replicate 20 0

-- The address that is given is a string of 40, the upper-case hexadecimal of the address of the
-- secp256k1 key of this path, and that key was derived.
pub record IsOwnedBy (crypto : CryptoOps) (swap : SwapOps) (path : List ℕ) (n : ℕ)
    (given : Option Bytes) : Type 0 where
  pub address : Bytes
  pub address_given : given ≡ some address
  pub whole : length (c_string address) ≡ 40
  pub derived : (swap.get_pubkey_256k1 path n).0 ≡ 0
  pub same : hex (key_address crypto (swap.get_pubkey_256k1 path n).1) ≡ c_string address

key_address-or_zeros :
    (crypto : CryptoOps) (public_key : Bytes)
    → address_or_zeros crypto public_key ≡ key_address crypto public_key
unfolding address_from_pubkey zero_bytes
key_address-or_zeros crypto public_key =
    elim (Bool-cases ((crypto.keccak_256 (slice public_key 1 64)).0 == 0)) [
      | inl e ↦ rw (address_or_zeros, address_from_pubkey, e) refl
      | inr e ↦ rw (address_or_zeros, address_from_pubkey, e) refl
    ]

module _ (ops : BufferOps) (crypto : CryptoOps) (hexes : HexLaw crypto) (swap : SwapOps) where
  derived_lem :
      (parameters : Bytes) (size n : ℕ) (path : List ℕ)
      → path_read ops (record { ptr = parameters; size = size; offset = 0 }) ≡ (true, n, path)
      → derived_key ops swap parameters size ≡ swap.get_pubkey_256k1 path n
  derived_lem parameters size n path read =
      let (ok, m, buf) = ops.read_u8 (record { ptr = parameters; size = size; offset = 0 }) in
      elim (Bool-cases ok) [
        | inl e ↦ ap (λ (r : Bool × ℕ × List ℕ). swap.get_pubkey_256k1 r.2 r.1) (rw e at read)
        | inr e ↦ absurd (ground (arith, ap (λ (r : Bool × ℕ × List ℕ). r.0) (rw e at read)))
      ]

  -- For parameters that hold a path, the address check sets the result exactly when an address is given
  -- that is the upper-case hexadecimal of the address of that path's secp256k1 key, where zeros stand
  -- for the address if its hash fails, and the key was derived.
  pub swap_handle_check_address-IsOwnedBy :
      (params : CheckParameters) (parameters : Bytes) (n : ℕ) (path : List ℕ)
      → params.address_parameters ≡ some parameters
      → path_read ops
          (record { ptr = parameters; size = params.address_parameters_length; offset = 0 })
        ≡ (true, n, path)
      → (swap_handle_check_address ops crypto swap params ≡ true)
        ↔ IsOwnedBy crypto swap path n params.address_to_check
  unfolding swap_handle_check_address check_address
  swap_handle_check_address-IsOwnedBy params parameters n path given read =
      let key = swap.get_pubkey_256k1 path n in
      let from_path = derived_lem parameters params.address_parameters_length n path read in
      let same = key_address-or_zeros crypto key.1 in
      elim (Option-cases params.address_to_check) [
        | inl none_given ↦ (
          λ ran. absurd (ground (arith, rw (given, none_given) at ran)),
          λ h. absurd (ground (arith, none_given, h.address_given)),
        )
        | inr (address, e) ↦
            let (passes, passed) = check_values_iff ops crypto hexes swap key.0 key.1 address in
            (
              λ ran.
                  let (derived, whole, text) = passes (rw (given, e, from_path) at ran) in
                  record {
                    address = address;
                    address_given = e;
                    whole = whole;
                    derived = derived;
                    same = ap hex (sym same) ∙ text;
                  },
              λ h.
                  let at_hand = some_eq _ _ (sym h.address_given ∙ e) in
                  rw (given, e, from_path)
                    (passed (
                      h.derived,
                      ap (λ x. length (c_string x)) (sym at_hand) ∙ h.whole,
                      ap hex same ∙ h.same ∙ ap c_string at_hand,
                    )),
            )
      ]
