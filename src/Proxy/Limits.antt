-- ===== src/Proxy/Limits.antt =====
-- The size cap on an upstream answer.
use se_skills.Prelude.{
  ℕ, ◌+◌, ◌≤◌, ◌≡◌, ap, sym, ◌∙◌, false, [], ◌++◌, arith, ltb, length, length-append, ◌↔◌,
  Bool-cases, inl, inr, ltb-false→le,
}
use mathlib.Core.List.{append-nil, append_assoc}
use se_skills.Proxy.Stream.{Bytes, Incoming, finished, broken, chunk, body, stream, sent}

-- The provider's answer ends without an error.
abbrev pub Ends : Incoming → Type 0
Ends finished = Unit
Ends (broken e) = ⊥
Ends (chunk bytes rest) = Ends rest

stream_sound :
    (limit : ℕ) (read : Bytes) (incoming : Incoming) {bytes : Bytes}
    → length read ≤ limit
    → stream limit read incoming ≡ body bytes
    → (bytes ≡ read ++ sent incoming) × (length bytes ≤ limit) × Ends incoming
unfolding stream sent
stream_sound limit read finished small h = (ground (arith, append-nil read), ground arith, tt)
stream_sound limit read (broken e) small h = cc
stream_sound limit read (chunk bytes rest) small h =
    elim (Bool-cases (ltb limit (length read + length bytes))) [
      | inl big ↦ ground arith
      | inr fits ↦
          let room : length (read ++ bytes) ≤ limit =
            omega (arith, length-append read bytes, ltb-false→le _ _ fits) in
          let (all, capped, ends) = stream_sound limit (read ++ bytes) rest room (ground arith) in
          (all ∙ append_assoc read bytes (sent rest), capped, ends)
    ]

within : (limit n : ℕ) → n ≤ limit → ltb limit n ≡ false
within limit n h = ground arith

stream_complete :
    (limit : ℕ) (read : Bytes) (incoming : Incoming)
    → Ends incoming
    → length (read ++ sent incoming) ≤ limit
    → stream limit read incoming ≡ body (read ++ sent incoming)
unfolding stream sent
stream_complete limit read finished ends small = rw append-nil
stream_complete limit read (broken e) ends small = absurd ends
stream_complete limit read (chunk bytes rest) ends small =
    let regroup = append_assoc read bytes (sent rest) in
    let room : length (read ++ bytes) + length (sent rest) ≤ limit =
      omega (arith, small, ap length regroup, length-append (read ++ bytes) (sent rest)) in
    rw
      (
        within limit (length read + length bytes) (omega (arith, length-append read bytes)),
        ← regroup,
      )
      (stream_complete limit (read ++ bytes) rest ends
        (omega (arith, length-append (read ++ bytes) (sent rest))))

-- The body of an upstream answer is read exactly when the answer ends without an error, whole, and
-- within the cap: then it is all that was sent, and so it is never longer than the cap.
pub stream_exact :
    (limit : ℕ) (incoming : Incoming) (bytes : Bytes)
    → (stream limit [] incoming ≡ body bytes)
      ↔ (Ends incoming × (bytes ≡ sent incoming) × (length (sent incoming) ≤ limit))
stream_exact limit incoming bytes = (
  λ h.
      let (all, capped, ends) = stream_sound limit [] incoming (omega arith) h in
      (ends, all, omega (arith, ap length all)),
  λ h. stream_complete limit [] incoming h.0 h.2 ∙ ap body (sym h.1),
)
