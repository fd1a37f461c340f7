-- ===== src/Address/Answers.antt =====
-- What src/handler/get_public_key.c and src/ui/nbgl_display_address.c answer or show.
use ledger_hardmail_app.Common.{
  ℕ, ◌≡◌, refl, sym, ap, ◌∙◌, Bool, true, false, not, ◌||◌, some, write_at, length-write_at,
  if◌then◌else◌, Bool-cases, Option-cases, inl, inr,
}
use ledger_hardmail_app.Sdk.Buffers.{Bytes, Buffer, BufferOps}
use ledger_hardmail_app.Sdk.Crypto.{CryptoOps}
use ledger_hardmail_app.Email.{address_len}
use ledger_hardmail_app.Context.{
  Context, TxInfo, pubkey_len, set_raw_tx, raw_public_key, Reply, respond, review_address,
  StatusWord, state_none, confirm_address, is_request, is_state, zero_context,
}
use ledger_hardmail_app.Sign.Chunks.{IsContext, zero_context-IsContext, IsContext-tx_info}
use ledger_hardmail_app.Address.{
  read_path, address_from_pubkey, ui_display_address, derive_public_key, handler_get_public_key,
  helper_send_response_pubkey,
}

-- The text on the screen is the hexadecimal of the address of the key in the context.
abbrev pub ShowsAddress : CryptoOps → Context → Bytes → Type 0
ShowsAddress crypto c text =
    (address : Bytes) × (address_from_pubkey crypto (raw_public_key c) address_len ≡ some address)
    × (crypto.format_hex address 43 ≡ some text)

-- An answer, or the review of the address.
pub data KeyAnswer (crypto : CryptoOps) : Context × Reply → Type 0 where
  replied :
      {c : Context} {bytes : Bytes} {sw : StatusWord}
      → IsContext c
      → KeyAnswer crypto (c, respond bytes sw)
  addressed :
      {c : Context} {text : Bytes}
      → IsContext c
      → ShowsAddress crypto c text
      → KeyAnswer crypto (c, review_address text)

-- A context whose payload is empty, as a request for a key leaves it.
record IsFresh (c : Context) : Type 0 where
  well : IsContext c
  empty : c.tx_info.raw_tx_len ≡ 0

pub read_path-tx_info :
    (ops : BufferOps) (b : Buffer) (c : Context) → c.tx_info ≡ (read_path ops b c).1.tx_info
unfolding read_path
read_path-tx_info ops b c = elim (Bool-cases (ops.read_u8 b).0) [
  | inl e ↦ rw e refl
  | inr e ↦ rw e refl
]

pub read_path-req_type :
    (ops : BufferOps) (b : Buffer) (c : Context) → (read_path ops b c).1.req_type ≡ c.req_type
unfolding read_path
read_path-req_type ops b c = elim (Bool-cases (ops.read_u8 b).0) [
  | inl e ↦ rw e refl
  | inr e ↦ rw e refl
]

set_raw_tx-IsFresh :
    (c : Context) (p : ℕ) (bs : Bytes)
    → IsFresh c
    → IsFresh (set_raw_tx c (write_at c.tx_info.raw_tx p bs))
set_raw_tx-IsFresh c p bs h = record {
  well = record {
    raw_size = length-write_at _ _ _ ∙ h.well.raw_size;
    raw_fits = h.well.raw_fits;
    raw_bytes = rw h.empty tt;
    signature_size = h.well.signature_size;
  };
  empty = h.empty;
}

if-KeyAnswer :
    {crypto : CryptoOps} (b : Bool) {x y : Context × Reply}
    → KeyAnswer crypto x
    → KeyAnswer crypto y
    → KeyAnswer crypto (if b then x else y)
if-KeyAnswer true h k = h
if-KeyAnswer false h k = k

module _ (crypto : CryptoOps) where
  ui_display_address-KeyAnswer :
      (c : Context) → IsContext c → KeyAnswer crypto (ui_display_address crypto c)
  unfolding ui_display_address
  ui_display_address-KeyAnswer c h =
      elim (Bool-cases
        (not (is_request c.req_type confirm_address) || not (is_state c.state state_none))) [
          | inl e ↦ rw e (replied (IsContext-tx_info c _ refl h))
          | inr e ↦
              elim (Option-cases (address_from_pubkey crypto (raw_public_key c) address_len)) [
                | inl none_found ↦ rw (e, none_found) (replied h)
                | inr (address, found) ↦ elim (Option-cases (crypto.format_hex address 43)) [
                  | inl bad ↦ rw (e, found, bad) (replied h)
                  | inr (text, done) ↦ rw (e, found, done) (addressed h (address, found, done))
                ]
              ]
        ]

  derive_public_key-KeyAnswer :
      (display : Bool) (c : Context)
      → IsFresh c
      → KeyAnswer crypto (derive_public_key crypto display c)
  unfolding derive_public_key helper_send_response_pubkey
  derive_public_key-KeyAnswer display c h =
      let derived = set_raw_tx-IsFresh _ pubkey_len _ (set_raw_tx-IsFresh c 0 _ h) in
      let compressed = set_raw_tx-IsFresh _ 0 _ derived in
      if-KeyAnswer _ (replied derived.well) (
        if-KeyAnswer _ (replied compressed.well) (
          if-KeyAnswer display (ui_display_address-KeyAnswer _ compressed.well)
            (replied compressed.well)))

  -- Asking for a key always returns: with an answer, or with the review of the address of the very
  -- key that an approval sends.
  pub handler_get_public_key-KeyAnswer :
      (ops : BufferOps) (cdata : Buffer) (display : Bool)
      → KeyAnswer crypto (handler_get_public_key crypto ops cdata display)
  unfolding handler_get_public_key
  handler_get_public_key-KeyAnswer ops cdata display =
      let c : Context = record zero_context { req_type = confirm_address; state = state_none } in
      let kept = read_path-tx_info ops cdata c in
      let fresh : IsFresh (read_path ops cdata c).1 = record {
        well = IsContext-tx_info zero_context _ kept zero_context-IsContext;
        empty = sym (ap (λ (t : TxInfo). t.raw_tx_len) kept);
      } in
      if-KeyAnswer _ (replied fresh.well) (derive_public_key-KeyAnswer display _ fresh)
