-- ===== src/Sdk/Crypto.antt =====
-- The SDK's cryptography (cx.h, crypto_helpers.h) and hexadecimal printer (format.h), as used by
-- src/handler, src/ui and src/address.c. Error codes are numbers, and 0 is CX_OK.
use ledger_hardmail_app.Common.{
  ℕ, ◌+◌, ◌*◌, ◌/◌, ◌%◌, ◌≤◌, ◌≡◌, Option, some, List, [], ◌∷◌, length, ltb, if◌then◌else◌,
}
use ledger_hardmail_app.Sdk.Buffers.{Bytes}

pub record CryptoOps : Type 0 where
  -- `cx_hash_sha256`: the number of bytes written, and the bytes.
  pub hash_sha256 : Bytes → ℕ × Bytes
  -- `bip32_derive_eddsa_sign_hash_256`: the error, the signature and its length.
  pub eddsa_sign : List ℕ → ℕ → Bytes → ℕ × Bytes × ℕ
  -- `bip32_derive_get_pubkey_256`: the error, the public key and the chain code.
  pub get_pubkey : List ℕ → ℕ → ℕ × Bytes × Bytes
  -- `cx_edwards_compress_point_no_throw`: the error, and the key in place.
  pub compress_point : Bytes → ℕ × Bytes
  -- `cx_keccak_256_hash`: the error and the digest.
  pub keccak_256 : Bytes → ℕ × Bytes
  -- `format_hex (in, in_len, out, out_len)`: the string, or -1.
  pub format_hex : Bytes → ℕ → Option Bytes

-- One digit of upper-case hexadecimal, and two for each byte.
abbrev pub hex_digit : ℕ → ℕ
hex_digit d = if ltb d 10 then 0x30 + d else 0x37 + d

abbrev pub hex : Bytes → Bytes
hex [] = []
hex (b ∷ bs) = hex_digit (b / 16) ∷ hex_digit (b % 16) ∷ hex bs

-- What format.h documents: with room for two digits a byte and the terminator, the printer
-- succeeds and writes upper-case hexadecimal.
pub record HexLaw (o : CryptoOps) : Type 0 where
  pub format_hex_done :
      (bs : Bytes) (out_len : ℕ)
      → 2 * length bs + 1 ≤ out_len
      → o.format_hex bs out_len ≡ some (hex bs)

-- What cx.h documents of the hash: it writes the 32 bytes of the digest.
pub record HashLaw (o : CryptoOps) : Type 0 where
  pub digest_written : (bs : Bytes) → (o.hash_sha256 bs).0 ≡ 32
  pub digest_length : (bs : Bytes) → length (o.hash_sha256 bs).1 ≡ 32

-- What crypto_helpers.h documents of an Ed25519 signature: on CX_OK it is 64 bytes long.
pub record SignLaw (o : CryptoOps) : Type 0 where
  pub signed_length :
      (path : List ℕ) (n : ℕ) (digest : Bytes)
      → (o.eddsa_sign path n digest).0 ≡ 0
      → (length (o.eddsa_sign path n digest).1 ≡ 64) × ((o.eddsa_sign path n digest).2 ≡ 64)

-- What crypto_helpers.h and cx.h document of a key: on CX_OK an uncompressed point of 65 bytes and a
-- chain code of 32, and the compression is in place.
pub record KeyLaw (o : CryptoOps) : Type 0 where
  pub key_length :
      (path : List ℕ) (n : ℕ) → (o.get_pubkey path n).0 ≡ 0 → length (o.get_pubkey path n).1 ≡ 65
  pub code_length :
      (path : List ℕ) (n : ℕ) → (o.get_pubkey path n).0 ≡ 0 → length (o.get_pubkey path n).2 ≡ 32
  pub point_length : (key : Bytes) → length key ≡ 65 → length (o.compress_point key).1 ≡ 65
