-- ===== src/Tokens/StandIn.antt =====
-- Concrete functions that meet the laws of the SDK's TLV library. The witnesses run on them.
use ledger_hardmail_app.Common.{
  ℕ, ◌≤◌, ◌≡◌, ap, subst, ◌∙◌, true, some, none, Option, arith, length, List, [], ◌∷◌, ltb, ltb→le,
  if◌then◌else◌, Bool-cases, inl, inr,
}
use ledger_hardmail_app.Sdk.Buffers.{Buffer}
use ledger_hardmail_app.Display.{codes}
use ledger_hardmail_app.Tokens.{TlvOps, TuidData, Handler}
use ledger_hardmail_app.Tokens.Lookup.{TlvLaws}

-- A TLV library whose payload is one tag's value: it runs the handler on it.
run_handler : List (ℕ × Handler) → Buffer → TuidData → Option (TuidData × List ℕ)
run_handler ((tag, h) ∷ _) b t = if (h b t).0 then some ((h b t).1, tag ∷ []) else none
run_handler [] b t = none

cut_buffer : Buffer → ℕ → ℕ → Option Buffer
cut_buffer b least most = if ltb (length b.ptr) least then none else some b

unfoldable pub tlv_stand_in : TlvOps
unfolding run_handler cut_buffer
tlv_stand_in = record {
  max_ticker_size = 12;
  dynamic_descriptor =
      λ b. some (record { coin_type = 0x8001; ticker = codes "TOK"; magnitude = 6; tuid = b });
  parse_tlv = run_handler;
  get_buffer = cut_buffer;
}

run_handled :
    (tag : ℕ) (h : Handler) (b : Buffer) (t t' : TuidData) (tags : List ℕ)
    → run_handler ((tag, h) ∷ []) b t ≡ some (t', tags)
    → (d : Buffer) × (t0 : TuidData) × (h d t0 ≡ (true, t'))
unfolding run_handler
run_handled tag h b t t' tags e = elim (Bool-cases (h b t).0) [
  | inl ok ↦
      let e' = (rw (ok, run_handler) at e) in
      let same : (h b t).1 ≡ t' = ground (arith, e') in
      (b, t, ap (λ x. (x, (h b t).1)) ok ∙ ap (λ y. (true, y)) same)
  | inr bad ↦ absurd (ground (arith, rw (bad, run_handler) at e))
]

cut_long :
    (b : Buffer) (least most : ℕ) (b' : Buffer)
    → cut_buffer b least most ≡ some b'
    → least ≤ length b'.ptr
unfolding cut_buffer
cut_long b least most b' e = elim (Bool-cases (ltb (length b.ptr) least)) [
  | inl short ↦ absurd (ground (arith, rw (short, cut_buffer) at e))
  | inr long ↦
      let e' = (rw (long, cut_buffer) at e) in
      let same : b ≡ b' = ground (arith, e') in
      subst (λ (x : Buffer). least ≤ length x.ptr) same (ltb→le (length b.ptr) least long)
]

pub tlv_stand_in_laws : TlvLaws tlv_stand_in
unfolding tlv_stand_in
tlv_stand_in_laws = record {
  handled = λ tag h b t t' tags e _. run_handled tag h b t t' tags e;
  long_enough = cut_long;
}
