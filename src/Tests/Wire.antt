-- ===== src/Tests/Wire.antt =====
-- Witnesses for the parser of src/transaction/deserialize.c.
use ledger_hardmail_app.Common.{
  ℤ, ℕ, ◌≤◌, ◌≡◌, refl, sym, ap, some, arith, length, take, pos, replicate,
}
use ledger_hardmail_app.Sdk.Buffers.{Bytes, rest}
use ledger_hardmail_app.Sdk.StandIn.{stand_in, stand_in_laws}
use ledger_hardmail_app.Email.{parsing_ok, zero_email, max_tx_len}
use ledger_hardmail_app.Wire.{IsValid, encode}
use ledger_hardmail_app.Wire.Reference.{reference}
use ledger_hardmail_app.Parser.{
  Parser, transaction_deserialize, parse, fields, text_ok, read_text_field, text_field,
  challenge_field, body_field, attachment, attachment_field,
}
use ledger_hardmail_app.Parser.View.{view, IsInMemory}
use ledger_hardmail_app.Parser.Refinement.{status_of, Shows, transaction_deserialize-reference}
use ledger_hardmail_app.Parser.Correct.{
  transaction_deserialize-IsValid, transaction_deserialize-encode,
}
use ledger_hardmail_app.Parser.Widths.{IsWide}
use ledger_hardmail_app.Serializer.{transaction_serialize}
use ledger_hardmail_app.Serializer.Outcome.{Written, transaction_serialize-Written}
use ledger_hardmail_app.Serializer.RoundTrip.{
  transaction_serialize-transaction_deserialize, transaction_deserialize-transaction_serialize,
}
use ledger_hardmail_app.Tests.{
  sample, sample-IsValid, sample_bytes, sample_bytes-encode, buffer_on, buffer_on-IsBuffer,
  AllBytes-by, sample_email, sample_email-IsInMemory,
}

size : length (encode sample) ≡ length sample_bytes
size = ap length (sym sample_bytes-encode)

short : length (encode sample) ≤ max_tx_len
short = omega (arith, size)

sample-rest : rest (buffer_on sample_bytes) ≡ encode sample
sample-rest = sample_bytes-encode

transaction_deserialize-encode_example :
    (s : Parser) × (transaction_deserialize stand_in (buffer_on sample_bytes) zero_email
      ≡ some (parsing_ok, s))
    × (view sample_bytes s.tx ≡ sample)
    × IsInMemory sample_bytes s.tx
transaction_deserialize-encode_example =
    transaction_deserialize-encode stand_in stand_in_laws (buffer_on sample_bytes) zero_email sample
      (buffer_on-IsBuffer sample_bytes) refl sample-IsValid sample-rest short

-- The parser's run on the sample.
abbrev sample_parser : Parser
sample_parser = record {
  buf = record { ptr = sample_bytes; size = length sample_bytes; offset = length sample_bytes };
  tx = sample_email;
}

parsed :
    transaction_deserialize stand_in (buffer_on sample_bytes) zero_email
    ≡ some (parsing_ok, sample_parser)
unfolding transaction_deserialize parse fields text_ok read_text_field text_field challenge_field
    body_field attachment attachment_field stand_in
parsed = refl

transaction_deserialize-IsValid_example :
    (rest (buffer_on sample_bytes) ≡ encode (view sample_bytes sample_email))
    × IsValid (view sample_bytes sample_email)
    × IsInMemory sample_bytes sample_email
    × (length sample_bytes ≤ max_tx_len)
transaction_deserialize-IsValid_example =
    transaction_deserialize-IsValid stand_in stand_in_laws (buffer_on sample_bytes) zero_email
      sample_parser (buffer_on-IsBuffer sample_bytes) refl (AllBytes-by sample_bytes refl) parsed

transaction_deserialize-reference_example :
    (s : Parser) × (transaction_deserialize stand_in (buffer_on sample_bytes) zero_email
      ≡ some (status_of (reference (rest (buffer_on sample_bytes))), s))
    × Shows sample_bytes (reference (rest (buffer_on sample_bytes))) s.tx
transaction_deserialize-reference_example =
    transaction_deserialize-reference stand_in stand_in_laws (buffer_on sample_bytes) zero_email
      (buffer_on-IsBuffer sample_bytes) refl

sample_email-IsWide : IsWide sample_email
sample_email-IsWide = record {
  from_u8 = omega arith;
  to_u8 = omega arith;
  subject_u8 = omega arith;
  body_u16 = omega arith;
  attachment_wide = (omega arith, omega arith);
}

abbrev room : Bytes
room = replicate 100 0

transaction_serialize-Written_example :
    (r : ℤ × Bytes) × (transaction_serialize sample_bytes sample_email room 100 ≡ some r)
    × Written (encode (view sample_bytes sample_email)) room r
transaction_serialize-Written_example =
    transaction_serialize-Written sample_bytes sample_email room sample_email-IsInMemory
      sample_email-IsWide

transaction_serialize-transaction_deserialize_example :
    (out : Bytes) × (transaction_serialize sample_bytes sample_email room 100
      ≡ some (pos (length sample_bytes), out))
    × (take (length sample_bytes) out ≡ rest (buffer_on sample_bytes))
transaction_serialize-transaction_deserialize_example =
    transaction_serialize-transaction_deserialize stand_in stand_in_laws (buffer_on sample_bytes)
      zero_email sample_parser room (buffer_on-IsBuffer sample_bytes) refl
      (AllBytes-by sample_bytes refl) (omega arith) parsed

transaction_deserialize-transaction_serialize_example :
    (n : ℕ) × (out : Bytes) × (s : Parser) × (transaction_serialize sample_bytes sample_email room
        100
      ≡ some (pos n, out))
    × (transaction_deserialize stand_in (record { ptr = out; size = n; offset = 0 }) zero_email
        ≡ some (parsing_ok, s))
    × (view out s.tx ≡ view sample_bytes sample_email)
transaction_deserialize-transaction_serialize_example =
    transaction_deserialize-transaction_serialize stand_in stand_in_laws sample_bytes sample_email
      zero_email room sample_email-IsInMemory sample-IsValid short (omega (arith, size))
