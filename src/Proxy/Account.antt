-- ===== src/Proxy/Account.antt =====
-- The usage accounting of `ModelProxy.handle`, `_int_or_zero` and `_redact_response`.
use se_skills.Prelude.{
  String, true, false, Option, none, some, List, [], ◌∷◌, contains, if◌then◌else◌,
}
use se_skills.Prelude.Int.{ℤ, pos, ◌+ℤ◌}
use se_skills.Prelude.Text.{int_of_text}
use se_skills.Prelude.Result.{Result, ok, raised, attribute_error, overflow_error}
use se_skills.Json.{
  Json, null, bool, int, float, str, arr, obj, Fields, end, field, finite, nan, infinite, get,
  truthy, truncate,
}
use se_skills.Proxy.State.{ProxySession}

unfoldable pub text_or_zero : Option ℤ → ℤ
text_or_zero none = pos 0
text_or_zero (some n) = n

-- `int` raises ValueError on a NaN and a text, TypeError on a container: these count 0. It raises
-- OverflowError on an infinity, which is not caught.
unfoldable pub int_or_zero : Option Json → Result ℤ
unfolding text_or_zero truncate
int_or_zero none = ok (pos 0)
int_or_zero (some null) = ok (pos 0)
int_or_zero (some (bool true)) = ok (pos 1)
int_or_zero (some (bool false)) = ok (pos 0)
int_or_zero (some (int n)) = ok n
int_or_zero (some (float (finite m k))) = ok (truncate m k)
int_or_zero (some (float nan)) = ok (pos 0)
int_or_zero (some (float infinite)) = raised overflow_error
int_or_zero (some (str s)) = ok (text_or_zero (int_of_text s))
int_or_zero (some (arr xs)) = ok (pos 0)
int_or_zero (some (obj d)) = ok (pos 0)

-- `response_data.get("usage") or {}`, on which `.get` is called
unfoldable pub usage_fields : Option Json → Result Fields
unfolding truthy
usage_fields none = ok end
usage_fields (some (obj d)) = ok d
usage_fields (some j) = if truthy j then raised attribute_error else ok end

-- A statement that writes the session and may raise.
abbrev pub Statement : Type 0
Statement = ProxySession → ProxySession × Result (Unit {0})

-- `session.field += value`, where the value may raise before the write.
abbrev pub assign : (ℤ → ProxySession → ProxySession) → Result ℤ → Statement
assign write (ok n) s = (write n s, ok tt)
assign write (raised e) s = (s, raised e)

abbrev pub next_statement :
    Statement → ProxySession × Result (Unit {0}) → ProxySession × Result (Unit {0})
next_statement q (s, ok _) = q s
next_statement q (s, raised e) = (s, raised e)

-- One statement, then another if the first did not raise.
infixr 10 ◌and_then◌
unfoldable pub ◌and_then◌ : Statement → Statement → Statement
◌and_then◌ p q s = next_statement q (p s)

abbrev pub add_input : ℤ → ProxySession → ProxySession
add_input n s = record s { input_tokens = s.input_tokens +ℤ n }

abbrev pub add_output : ℤ → ProxySession → ProxySession
add_output n s = record s { output_tokens = s.output_tokens +ℤ n }

abbrev pub add_creation : ℤ → ProxySession → ProxySession
add_creation n s = record s { cache_creation = s.cache_creation +ℤ n }

abbrev pub add_read : ℤ → ProxySession → ProxySession
add_read n s = record s { cache_read = s.cache_read +ℤ n }

-- The four `+=`, in order: one that raises leaves the earlier ones done.
unfoldable pub add_usage : Fields → Statement
add_usage u =
    assign add_input (int_or_zero (get "input_tokens" u))
    and_then assign add_output (int_or_zero (get "output_tokens" u))
    and_then assign add_creation (int_or_zero (get "cache_creation_input_tokens" u))
    and_then assign add_read (int_or_zero (get "cache_read_input_tokens" u))

abbrev pub forwarded_fields : List String
forwarded_fields =
    "id" ∷ "type" ∷ "role" ∷ "model" ∷ "content" ∷ "stop_reason" ∷ "stop_sequence" ∷ "usage" ∷ []

-- `_redact_response`
unfoldable pub redact_response : Fields → Fields
redact_response end = end
redact_response (field k v d) =
    let rest = redact_response d in if contains k forwarded_fields then field k v rest else rest
