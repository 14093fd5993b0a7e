-- ===== src/Proxy/Screened.antt =====
-- The guards of `handle` before the lock, and what a request has that passes them.
use Prim.Native.Nat.{ℕ}
use text.Mathlib.Text.{find?}
use se_skills.Prelude.{
  String, Bool, List, [], ◌∷◌, ◌==◌, not, ltb, is_some, length, eq_iff, ◌≤◌, ◌≡◌, refl, true, false,
  Option, none, some, arith,
}
use se_skills.Prelude.Int.{pos, ltb_ℤ}
use se_skills.Prelude.Text.{strip, drop}
use se_skills.Json.{Json, obj, end}
use se_skills.Proxy.State.{ProxyConfig, ProxyCapability}
use se_skills.Proxy.Library.{Library, Decoded, claims, expired, invalid, value}
use se_skills.Proxy.Check.{Check, pass, refuse, fails, require, ◌>>=◌, ◌>>◌}
use se_skills.Proxy.Request.{
  Request, header_or, starts_with_lower, positive_attempt, parse_body, decode_token, screen,
}

-- The steps of a chain of guards that passed.
passed_bind :
    {A B : Type 0} (k : Check A) (f : A → Check B) (b : B)
    → (k >>= f) ≡ pass b
    → (a : A) × (k ≡ pass a) × (f a ≡ pass b)
passed_bind (pass a) f b e = (a, refl, e)
passed_bind (refuse status category) f b e = cc e
passed_bind (fails x) f b e = cc e

required :
    {B : Type 0} (test : Bool) (status : ℕ) (category : String) (k : Check B) (b : B)
    → (require test status category >> k) ≡ pass b
    → (test ≡ true) × (k ≡ pass b)
required true status category k b e = (refl, e)
required false status category k b e = cc e

module _ (lib : Library) where
  open lib use {Cost, Rest, decode, loads, capability_fields, request_fields, fromisoformat}

  -- `json.loads` of the body, or an empty object for an empty body.
  abbrev pub Body : List ℕ → Json → Type 0
  Body [] payload = payload ≡ obj end
  Body (b ∷ bs) payload = loads (b ∷ bs) ≡ value payload

  -- A request that came as a POST of JSON to the one route, small enough, with a token that is signed,
  -- not expired, and names a positive attempt.
  pub record IsScreened (cfg : ProxyConfig Cost) (now : ℕ) (r : Request) (payload : Json)
      (c : ProxyCapability) : Type 0 where
    pub posted : r.method ≡ "POST"
    pub routed : r.path ≡ "/v1/messages"
    pub is_json : is_some (find? (header_or r "content-type" "") "application/json") ≡ true
    pub fits : length r.content ≤ cfg.max_body_bytes
    pub body : Body r.content payload
    pub bears : starts_with_lower (header_or r "authorization" "") "bearer " ≡ true
    pub token : Json
    pub signed :
        decode cfg.secret (strip (drop 7 (header_or r "authorization" ""))) now ≡ claims token
    pub named : capability_fields token ≡ some c
    pub positive : ltb_ℤ c.attempt_number (pos 1) ≡ false

  parse_body-Body :
      (bytes : List ℕ) (payload : Json) → parse_body lib bytes ≡ pass payload → Body bytes payload
  unfolding parse_body
  parse_body-Body [] payload e = ground arith
  parse_body-Body (b ∷ bs) payload e = ground arith

  positive_attempt-pass :
      (o : Option ProxyCapability) (c : ProxyCapability)
      → positive_attempt o ≡ pass c
      → (o ≡ some c) × (ltb_ℤ c.attempt_number (pos 1) ≡ false)
  unfolding positive_attempt
  positive_attempt-pass none c e = cc e
  positive_attempt-pass (some d) c e = ground arith

  decode_token-pass :
      (cfg : ProxyConfig Cost) (now : ℕ) (token : String) (c : ProxyCapability)
      → decode_token lib cfg now token ≡ pass c
      → (j : Json) × (decode cfg.secret token now ≡ claims j)
        × (positive_attempt (capability_fields j) ≡ pass c)
  unfolding decode_token
  decode_token-pass cfg now token c e = from (decode cfg.secret token now) refl e
    where
      from :
          (d : Decoded)
          → decode cfg.secret token now ≡ d
          → elim d [
            | expired ↦ refuse 401 "capability_expired"
            | invalid ↦ refuse 401 "invalid_capability"
            | claims j ↦ positive_attempt (capability_fields j)
          ]
            ≡ pass c
          → (j : Json) × (decode cfg.secret token now ≡ claims j)
            × (positive_attempt (capability_fields j) ≡ pass c)
      from expired d e = cc e
      from invalid d e = cc e
      from (claims j) d e = (j, d, e)

  pub screen-IsScreened :
      (cfg : ProxyConfig Cost) (now : ℕ) (r : Request) (payload : Json) (c : ProxyCapability)
      → screen lib cfg now r ≡ pass (payload, c)
      → IsScreened cfg now r payload c
  unfolding screen
  screen-IsScreened cfg now r payload c e =
      let (method, e1) = required (r.method == "POST") _ _ _ _ e in
      let (path, e2) = required (r.path == "/v1/messages") _ _ _ _ e1 in
      let (json, e3) = required _ _ _ _ _ e2 in
      let (small, e4) = required (not (ltb cfg.max_body_bytes (length r.content))) _ _ _ _ e3 in
      let (j, parsed, e5) = passed_bind (parse_body lib r.content) _ _ e4 in
      let (bearer, e6) = required _ _ _ _ _ e5 in
      let (d, decoded, e7) = passed_bind (decode_token lib cfg now _) _ _ e6 in
      let same_body : j ≡ payload = ground arith in
      let same_token : d ≡ c = ground arith in
      let (token, signed, checked) = decode_token-pass cfg now _ c (rw same_token at decoded) in
      let (named, positive) = positive_attempt-pass (capability_fields token) c checked in
      record {
        posted = ground (arith, eq_iff r.method "POST");
        routed = ground (arith, eq_iff r.path "/v1/messages");
        is_json = json;
        fits = ground arith;
        body = parse_body-Body r.content payload (rw same_body at parsed);
        bears = bearer;
        token = token;
        signed = signed;
        named = named;
        positive = positive;
      }
