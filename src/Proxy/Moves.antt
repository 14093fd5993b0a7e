-- ===== src/Proxy/Moves.antt =====
-- The numbers that go upstream under an identifier, and what a step does to its session.
use se_skills.Prelude.{
  ℕ, suc, ◌≤◌, ◌≡◌, refl, String, Bool, true, false, Option, some, List, [], ◌∷◌, ◌++◌, ◌==◌,
  eq_refl, arith, if◌then◌else◌, String-cases, inl, inr,
}
use se_skills.Prelude.Int.{ℤ, pos}
use se_skills.Prelude.Dict.{lookup, insert, lookup-insert}
use se_skills.Proxy.State.{ProxyCapability, ProxySession, Sessions}
use se_skills.Proxy.Ledger.{ensure_session, cancel_session}
use se_skills.Proxy.Run.{Event, consume, Sent}
use se_skills.Proxy.Advances.{next_number, is_cancelled}

-- The numbers that went upstream under an identifier, in order.
unfoldable pub numbers : String → List Sent → List (Option ℤ)
numbers j [] = []
numbers j (x ∷ xs) = let rest = numbers j xs in if x.jti == j then x.number ∷ rest else rest

-- The numbers are read, strictly ascending, from `lo` on and all below `hi`.
abbrev pub Ascending : ℕ → List (Option ℤ) → ℕ → Type 0
Ascending lo [] hi = lo ≤ hi
Ascending lo (x ∷ xs) hi = (k : ℕ) × (x ≡ some (pos k)) × (lo ≤ k) × Ascending (suc k) xs hi

pub Ascending-weaken :
    (lo mid : ℕ) (xs : List (Option ℤ)) (hi : ℕ)
    → lo ≤ mid
    → Ascending mid xs hi
    → Ascending lo xs hi
Ascending-weaken lo mid [] hi h a = omega arith
Ascending-weaken lo mid (x ∷ xs) hi h (k, e, le, rest) = (k, e, omega arith, rest)

pub Ascending-append :
    (lo mid : ℕ) (xs ys : List (Option ℤ)) (hi : ℕ)
    → Ascending lo xs mid
    → Ascending mid ys hi
    → Ascending lo (xs ++ ys) hi
Ascending-append lo mid [] ys hi a b = Ascending-weaken lo mid ys hi a b
Ascending-append lo mid (x ∷ xs) ys hi (k, e, le, rest) b =
    (k, e, le, Ascending-append (suc k) mid xs ys hi rest b)

pub numbers-append :
    (j : String) (xs ys : List Sent) → numbers j (xs ++ ys) ≡ numbers j xs ++ numbers j ys
unfolding numbers
numbers-append j [] ys = refl
numbers-append j (x ∷ xs) ys = ground (arith, numbers-append j xs ys)

-- What a step of a history does under one identifier.
pub record Moves (j : String) (before after : Sessions) (sent : List Sent) : Type 0 where
  pub ascends :
      Ascending (next_number (lookup j before)) (numbers j sent) (next_number (lookup j after))
  pub stays_cancelled : is_cancelled (lookup j before) ≡ true → is_cancelled (lookup j after) ≡ true
  pub silent : is_cancelled (lookup j before) ≡ true → numbers j sent ≡ []

pub ensure_session-number :
    (c : ProxyCapability) (sessions : Sessions)
    → ((ensure_session c sessions).next_seq ≡ next_number (lookup c.jti sessions))
      × ((ensure_session c sessions).cancelled ≡ is_cancelled (lookup c.jti sessions))
unfolding ensure_session
ensure_session-number c sessions = ground arith

-- A write under one identifier that lowers neither the number nor the flag.
pub quiet_later :
    (j i : String) (s : ProxySession) (sessions : Sessions)
    → next_number (lookup i sessions) ≤ s.next_seq
    → (is_cancelled (lookup i sessions) ≡ true → s.cancelled ≡ true)
    → Moves j sessions (insert i s sessions) []
unfolding numbers
quiet_later j i s sessions hn hc = elim (String-cases i j) [
  | inl (e, same) ↦ record {
    ascends = rw (lookup-insert, same, ← e) hn;
    stays_cancelled = λ h. rw (lookup-insert, same) (hc (rw e h));
    silent = λ h. refl;
  }
  | inr (ne, other) ↦ record {
    ascends = rw (lookup-insert, other) (omega arith);
    stays_cancelled = λ h. rw (lookup-insert, other) h;
    silent = λ h. refl;
  }
]

pub quiet : (j : String) (sessions : Sessions) → Moves j sessions sessions []
unfolding numbers
quiet j sessions = record { ascends = omega arith; stays_cancelled = λ h. h; silent = λ h. refl }

pub cancel_session-is_cancelled :
    (j : String) (s : ProxySession) (sessions : Sessions)
    → lookup j sessions ≡ some s
    → is_cancelled (lookup j (cancel_session (some j) sessions)) ≡ true
unfolding cancel_session
cancel_session-is_cancelled j s sessions there =
    rw (there, cancel_session) (rw (lookup-insert, eq_refl))

-- The event consumes the session of the identifier.
abbrev pub consumes : String → Event → Bool
consumes j (consume (some i)) = i == j
consumes j _ = false
