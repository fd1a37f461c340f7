-- ===== src/Tokens.antt =====
-- src/token/token_db.c, src/token/dynamic_token_info.c and src/handler/provide_token_info.c. The TLV
-- library of the SDK is a parameter.
pub mod Lookup
pub mod StandIn
use ledger_hardmail_app.Common.{
  ℕ, zero, suc, ◌+◌, ◌-◌, ◌≡◌, Bool, true, false, not, ◌&&◌, ◌||◌, List, [], ◌∷◌, ◌++◌, Option,
  none, some, length, ltb, leb, ◌==◌, if◌then◌else◌, take, replicate, ◌>>=◌,
}
use Prim.Native.String.{String}
use ledger_hardmail_app.Sdk.Buffers.{Bytes, Buffer}
use ledger_hardmail_app.Display.{codes, c_string}
use ledger_hardmail_app.Context.{StatusWord, swo_success, sw_invalid_dynamic_token}

abbrev pub token_address_len : ℕ
token_address_len = 32

-- `token_info_t`, with the C string that the ticker points at.
pub record TokenInfo : Type 0 where
  pub ticker : Bytes
  pub decimals : ℕ

-- `token_entry_t`.
pub record TokenEntry : Type 0 where
  pub address : Bytes
  pub ticker : Bytes
  pub decimals : ℕ

abbrev pub entry : Bytes → String → ℕ → TokenEntry
entry address ticker decimals = record {
  address = address;
  ticker = codes ticker;
  decimals = decimals;
}

-- `TOKENS`.
unfoldable pub tokens : List TokenEntry
tokens =
    entry
      (0x01 ∷ 0x23 ∷ 0x45 ∷ 0x67 ∷ 0x89 ∷ 0xab ∷ 0xcd ∷ 0xef ∷ 0x01 ∷ 0x23 ∷ 0x45 ∷ 0x67 ∷ 0x89
        ∷ 0xab ∷ 0xcd ∷ 0xef ∷ 0x01 ∷ 0x23 ∷ 0x45 ∷ 0x67 ∷ 0x89 ∷ 0xab ∷ 0xcd ∷ 0xef ∷ 0x01 ∷ 0x23
        ∷ 0x45 ∷ 0x67 ∷ 0x89 ∷ 0xab ∷ 0xcd ∷ 0xef ∷ [])
      "USDC" 12
    ∷ entry
        (0xfe ∷ 0xdc ∷ 0xba ∷ 0x98 ∷ 0x76 ∷ 0x54 ∷ 0x32 ∷ 0x10 ∷ 0xfe ∷ 0xdc ∷ 0xba ∷ 0x98 ∷ 0x76
          ∷ 0x54 ∷ 0x32 ∷ 0x10 ∷ 0xfe ∷ 0xdc ∷ 0xba ∷ 0x98 ∷ 0x76 ∷ 0x54 ∷ 0x32 ∷ 0x10 ∷ 0xfe ∷ 0xdc
          ∷ 0xba ∷ 0x98 ∷ 0x76 ∷ 0x54 ∷ 0x32 ∷ 0x10 ∷ [])
        "WETH" 14
    ∷ entry
        (0xaa ∷ 0xbb ∷ 0xcc ∷ 0xdd ∷ 0xee ∷ 0xff ∷ 0x00 ∷ 0x11 ∷ 0x22 ∷ 0x33 ∷ 0x44 ∷ 0x55 ∷ 0x66
          ∷ 0x77 ∷ 0x88 ∷ 0x99 ∷ 0xaa ∷ 0xbb ∷ 0xcc ∷ 0xdd ∷ 0xee ∷ 0xff ∷ 0x00 ∷ 0x11 ∷ 0x22 ∷ 0x33
          ∷ 0x44 ∷ 0x55 ∷ 0x66 ∷ 0x77 ∷ 0x88 ∷ 0x99 ∷ [])
        "DAI" 14
    ∷ entry
        (0x11 ∷ 0x22 ∷ 0x33 ∷ 0x44 ∷ 0x55 ∷ 0x66 ∷ 0x77 ∷ 0x88 ∷ 0x99 ∷ 0xaa ∷ 0xbb ∷ 0xcc ∷ 0xdd
          ∷ 0xee ∷ 0xff ∷ 0x00 ∷ 0x11 ∷ 0x22 ∷ 0x33 ∷ 0x44 ∷ 0x55 ∷ 0x66 ∷ 0x77 ∷ 0x88 ∷ 0x99 ∷ 0xaa
          ∷ 0xbb ∷ 0xcc ∷ 0xdd ∷ 0xee ∷ 0xff ∷ 0x00 ∷ [])
        "BTC" 12
    ∷ entry
        (0xff ∷ 0xee ∷ 0xdd ∷ 0xcc ∷ 0xbb ∷ 0xaa ∷ 0x99 ∷ 0x88 ∷ 0x77 ∷ 0x66 ∷ 0x55 ∷ 0x44 ∷ 0x33
          ∷ 0x22 ∷ 0x11 ∷ 0x00 ∷ 0xff ∷ 0xee ∷ 0xdd ∷ 0xcc ∷ 0xbb ∷ 0xaa ∷ 0x99 ∷ 0x88 ∷ 0x77 ∷ 0x66
          ∷ 0x55 ∷ 0x44 ∷ 0x33 ∷ 0x22 ∷ 0x11 ∷ 0x00 ∷ [])
        "LINK" 14
    ∷ []

-- `memcmp (a, b, n) == 0` of two arrays with at least `n` bytes.
abbrev pub same_bytes : ℕ → Bytes → Bytes → Bool
same_bytes zero a b = true
same_bytes (suc n) (x ∷ a) (y ∷ b) = x == y && same_bytes n a b
same_bytes (suc n) _ _ = false

-- The loop of `get_hardcoded_token_info`.
unfoldable pub find_token : List TokenEntry → Bytes → Option TokenInfo
find_token [] token_address = none
find_token (t ∷ ts) token_address =
    if same_bytes token_address_len token_address t.address
    then some (record { ticker = t.ticker; decimals = t.decimals })
    else find_token ts token_address

unfoldable pub get_hardcoded_token_info : Bytes → Option TokenInfo
get_hardcoded_token_info token_address = find_token tokens token_address

-- `dynamic_token_info_t`.
pub record DynamicTokenInfo : Type 0 where
  pub received : Bool
  pub address : Bytes
  pub ticker : Bytes
  pub decimals : ℕ

-- `tlv_dynamic_descriptor_out_t`, the fields that are read.
pub record Descriptor : Type 0 where
  pub coin_type : ℕ
  pub ticker : Bytes
  pub magnitude : ℕ
  pub tuid : Buffer

-- `tlv_TUID_data_t`, whose received tags the parser returns.
pub record TuidData : Type 0 where
  pub token_address_buffer : Buffer

abbrev pub Handler : Type 0
Handler = Buffer → TuidData → Bool × TuidData

-- The TLV library: the size of a ticker, the use case of the dynamic descriptor, the parser that
-- DEFINE_TLV_PARSER makes of a table of tags and handlers, and `get_buffer_from_tlv_data`.
pub record TlvOps : Type 0 where
  pub max_ticker_size : ℕ
  pub dynamic_descriptor : Buffer → Option Descriptor
  pub parse_tlv : List (ℕ × Handler) → Buffer → TuidData → Option (TuidData × List ℕ)
  pub get_buffer : Buffer → ℕ → ℕ → Option Buffer

abbrev pub no_buffer : Buffer
no_buffer = record { ptr = []; size = 0; offset = 0 }

abbrev pub coin_type_slip44 : ℕ
coin_type_slip44 = 0x8001

abbrev pub coin_type_hardened : ℕ
coin_type_hardened = 0x80008001

-- `validate_coin_type`.
unfoldable pub validate_coin_type : ℕ → Bool
validate_coin_type coin_type = coin_type == coin_type_slip44 || coin_type == coin_type_hardened

abbrev pub tag_token_address : ℕ
tag_token_address = 0x10

abbrev pub has_tag : ℕ → List ℕ → Bool
has_tag tag [] = false
has_tag tag (t ∷ ts) = tag == t || has_tag tag ts

-- `strncpy (dst, src, n)`: cut at the string's end, and filled up with zeros.
abbrev pub strncpy : Bytes → ℕ → Bytes
strncpy src n = let s = take n (c_string src) in s ++ replicate (n - length s) 0

module _ (tlv : TlvOps) where
  -- `init_dynamic_token_storage`.
  unfoldable pub init_dynamic_token_storage : DynamicTokenInfo
  init_dynamic_token_storage = record {
    received = false;
    address = replicate token_address_len 0;
    ticker = replicate (tlv.max_ticker_size + 1) 0;
    decimals = 0;
  }

  -- `set_token_info`; an address buffer shorter than an address is a read out of bounds.
  unfoldable pub set_token_info : ℕ → Bytes → Buffer → Option DynamicTokenInfo
  set_token_info decimals ticker token_address_buffer =
      if ltb (length token_address_buffer.ptr) token_address_len
      then none
      else some (record {
        received = true;
        address = take token_address_len token_address_buffer.ptr;
        ticker = strncpy ticker tlv.max_ticker_size ++ 0 ∷ [];
        decimals = decimals;
      })

  -- `handle_tuid_token_address`.
  unfoldable pub handle_tuid_token_address : Handler
  handle_tuid_token_address d t = elim (tlv.get_buffer d token_address_len token_address_len) [
    | none ↦ (false, t)
    | some b ↦ (true, record { token_address_buffer = b })
  ]

  -- `handler_provide_token_info`: the storage afterwards, and the status word.
  unfoldable pub handler_provide_token_info : Buffer → Option (DynamicTokenInfo × StatusWord)
  handler_provide_token_info cdata =
      let refused = some (init_dynamic_token_storage, sw_invalid_dynamic_token) in
      elim (tlv.dynamic_descriptor cdata) [
        | none ↦ refused
        | some out ↦
            if not (validate_coin_type out.coin_type)
            then refused
            else elim (tlv.parse_tlv ((tag_token_address, handle_tuid_token_address) ∷ []) out.tuid
                (record { token_address_buffer = no_buffer })) [
                  | none ↦ refused
                  | some (tuid_data, received_tags) ↦
                      if not (has_tag tag_token_address received_tags) then refused else do
                        stored ←
                            set_token_info out.magnitude out.ticker tuid_data.token_address_buffer
                        some (stored, swo_success)
                ]
      ]

-- `get_dynamic_token_info`.
unfoldable pub get_dynamic_token_info : DynamicTokenInfo → Bytes → Option TokenInfo
get_dynamic_token_info stored token_address =
    if not stored.received
    then none
    else if not (same_bytes token_address_len token_address stored.address)
    then none
    else some (record { ticker = c_string stored.ticker; decimals = stored.decimals })

-- `get_token_info`, for a pointer that is not NULL: the dynamic token first.
unfoldable pub get_token_info : DynamicTokenInfo → Bytes → Option TokenInfo
get_token_info stored token_address = elim (get_dynamic_token_info stored token_address) [
  | some info ↦ some info
  | none ↦ get_hardcoded_token_info token_address
]
