-- ===== src/Sdk/CryptoStandIn.antt =====
-- Concrete functions that meet the laws of the SDK's cryptography. The witnesses run on them; the
-- digests and signatures are of the documented lengths and nothing else.
use ledger_hardmail_app.Common.{
  ℕ, ◌+◌, ◌*◌, ◌%◌, refl, Option, none, some, length, ltb, le→ltb, if◌then◌else◌, replicate,
  length-replicate,
}
use ledger_hardmail_app.Sdk.Buffers.{Bytes}
use ledger_hardmail_app.Sdk.Crypto.{CryptoOps, hex, HexLaw, HashLaw, SignLaw, KeyLaw}

format_in : Bytes → ℕ → Option Bytes
format_in bs out_len = if ltb out_len (2 * length bs + 1) then none else some (hex bs)

unfoldable pub stand_in_crypto : CryptoOps
unfolding format_in
stand_in_crypto = record {
  hash_sha256 = λ bs. (32, replicate 32 (length bs % 256));
  eddsa_sign = λ path n digest. (0, replicate 64 (length path), 64);
  get_pubkey = λ path n. (0, replicate 65 4, replicate 32 7);
  compress_point = λ key. (0, key);
  keccak_256 = λ bs. (0, replicate 32 (length bs % 256));
  format_hex = format_in;
}

pub stand_in_hex : HexLaw stand_in_crypto
unfolding stand_in_crypto format_in
stand_in_hex = record { format_hex_done = λ bs n h. rw (le→ltb n (2 * length bs + 1) h) refl }

pub stand_in_hash : HashLaw stand_in_crypto
unfolding stand_in_crypto
stand_in_hash = record {
  digest_written = λ bs. refl;
  digest_length = λ bs. length-replicate 32 (length bs % 256);
}

pub stand_in_sign : SignLaw stand_in_crypto
unfolding stand_in_crypto
stand_in_sign = record {
  signed_length = λ path n digest e. (length-replicate 64 (length path), refl);
}

pub stand_in_key : KeyLaw stand_in_crypto
unfolding stand_in_crypto
stand_in_key = record {
  key_length = λ path n e. length-replicate {A = ℕ} 65 4;
  code_length = λ path n e. length-replicate {A = ℕ} 32 7;
  point_length = λ key h. h;
}
