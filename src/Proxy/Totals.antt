-- ===== src/Proxy/Totals.antt =====
-- The token totals of a session, and what one answer adds to them.
use se_skills.Prelude.{
  ℕ, ◌+◌, ◌≡◌, ap, String, Bool, none, arith, contains, if◌then◌else◌, String-cases, inl, inr,
}
use se_skills.Prelude.Int.{ℤ, pos, ◌+ℤ◌}
use se_skills.Prelude.Result.{Result, ok, raised}
use se_skills.Json.{Json, Fields, end, field, get}
use se_skills.Proxy.State.{ProxySession}
use se_skills.Proxy.Account.{◌and_then◌, int_or_zero, add_usage, forwarded_fields, redact_response}

-- One field of a filtered object, kept or dropped by a test of its name.
pub get-kept :
    (k j : String) (v : Json) (d : Fields) (keep : Bool) (rest : Fields) {test : Bool}
    → get k rest ≡ (if test then get k d else none)
    → (j ≡ k → keep ≡ test)
    → get k (if keep then field j v rest else rest) ≡ (if test then get k (field j v d) else none)
unfolding get
get-kept k j v d keep rest {test} ih same = elim (String-cases j k) [
  | inl (e, hit) ↦ let s = same e in ground arith
  | inr (ne, miss) ↦ ground arith
]

-- `_redact_response` keeps the fields of its list as they are, and drops every other.
pub get-redact_response :
    (k : String) (d : Fields)
    → get k (redact_response d) ≡ (if contains k forwarded_fields then get k d else none)
unfolding get redact_response
get-redact_response k end = ground arith
get-redact_response k (field j v d) =
    get-kept k j v d (contains j forwarded_fields) (redact_response d) (get-redact_response k d)
      (ap (λ (t : String). contains t forwarded_fields))

pub record Totals : Type 0 where
  pub input : ℤ
  pub output : ℤ
  pub creation : ℤ
  pub read : ℤ
  pub requests : ℕ

abbrev pub totals : ProxySession → Totals
totals s = record {
  input = s.input_tokens;
  output = s.output_tokens;
  creation = s.cache_creation;
  read = s.cache_read;
  requests = s.request_count;
}

abbrev pub value_or_zero : Result ℤ → ℤ
value_or_zero (ok n) = n
value_or_zero (raised e) = pos 0

-- The totals with one answered request more, whose usage is `u`.
unfoldable pub with_usage : Fields → Totals → Totals
with_usage u t = record {
  input = t.input +ℤ value_or_zero (int_or_zero (get "input_tokens" u));
  output = t.output +ℤ value_or_zero (int_or_zero (get "output_tokens" u));
  creation = t.creation +ℤ value_or_zero (int_or_zero (get "cache_creation_input_tokens" u));
  read = t.read +ℤ value_or_zero (int_or_zero (get "cache_read_input_tokens" u));
  requests = t.requests + 1;
}

pub add_usage-totals :
    (u : Fields) (s : ProxySession)
    → (add_usage u s).1 ≡ ok tt
    → let t = (add_usage u s).0 in
      totals (record t { request_count = t.request_count + 1 }) ≡ with_usage u (totals s)
unfolding add_usage ◌and_then◌ with_usage
add_usage-totals u s h = ground arith

unfoldable pub usage_or_empty : Result Fields → Fields
usage_or_empty (ok u) = u
usage_or_empty (raised e) = end
