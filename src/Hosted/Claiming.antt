-- ===== src/Hosted/Claiming.antt =====
-- webapp/hosted: which job `claim_next_job` hands out, and what becomes of the attempt in
-- `Worker.process_one`.
use se_skills.Prelude.{
  ℕ, suc, ◌≡◌, refl, sym, subst, String, Bool, true, Option, none, some, Option-cases, inl, inr,
  eqb_refl,
}
use se_skills.Json.{Json}
use se_skills.Hosted.Tables.{
  Uuid, Time, JobRow, AttemptRow, Db, find, find-update_row, find_attempt,
}
use se_skills.Hosted.Queue.{done}
use se_skills.Hosted.Claim.{Claim, is_eligible, oldest, start_attempt, new_attempt, claim_next_job}
use se_skills.Hosted.Lease.{check_lease}
use se_skills.Hosted.Calls.{HolderCall, holder_call, run}
use se_skills.Hosted.Tracked.{Sound}
use se_skills.Hosted.Oldest.{Oldest, oldest-Oldest, oldest-none}
use se_skills.Hosted.Leases.{Reply-cases, Held-check_lease, check_lease-Held}
use se_skills.Hosted.Fencing.{holder_call-checked}
use se_skills.Hosted.Outcome.{Over, holder_call-Over}
use se_skills.Hosted.Worker.{
  Executor, Decision, finish, leave, propagate, decide, returns, Round, finish_attempt,
  process_claim, process_one,
}
use se_skills.Hosted.Decisions.{Left, Chosen, decide-is_heartbeat, decide-Left, decide-Calls}

-- The lease of the claim `c` is good in the database `next`, and `c` is about the oldest job of the
-- database `db` that may be claimed.
pub record Leased (locked : Uuid → Bool) (now : Time) (db next : Db) (c : Claim) : Type 0 where
  pub row : JobRow
  pub attempt : AttemptRow
  pub chosen : Oldest locked now db.jobs c.job_id row
  pub accepted :
      check_lease c.job_id c.attempt_number (some c.lease_token) next ≡ done (c.job, attempt)

-- No claim: the database stays, and the rows that may be claimed are locked.
abbrev pub Claims : (Uuid → Bool) → Time → Db → Option Claim × Db → Type 0
Claims locked now db (none, next) =
    (next ≡ db)
    × ((k : Uuid) (j : JobRow)
        → find k db.jobs ≡ some j
        → is_eligible now j ≡ true
        → locked k ≡ true)
Claims locked now db (some c, next) = Leased locked now db next c

-- In a sound database `claim_next_job` hands out the oldest queued job that is due, not asked to be
-- cancelled, not dead-lettered and not locked, with an attempt number and a lease token that the
-- other functions then accept for that job; if there is no such job, it changes nothing.
pub claim_next_job-Claims :
    (locked : Uuid → Bool) (worker : String) (timeout_seconds : ℕ) (token : Uuid) (now : Time)
    (db : Db)
    → Sound db
    → Claims locked now db (claim_next_job locked worker timeout_seconds token now db)
unfolding claim_next_job start_attempt new_attempt find_attempt
claim_next_job-Claims locked worker timeout_seconds token now db s =
    elim (Option-cases (oldest locked now db.jobs)) [
      | inl idle ↦ rw (idle, claim_next_job) (refl, λ k j. oldest-none locked now db.jobs k j idle)
      | inr ((id, j), chosen) ↦
          let o : Oldest locked now db.jobs id j =
            oldest-Oldest locked now db.jobs id j s.keyed chosen in
          rw (chosen, claim_next_job)
            (record {
              row = j;
              attempt = new_attempt j.org_id worker token now;
              chosen = o;
              accepted = Held-check_lease (record {
                job = rw (find-update_row, eqb_refl, o.found) refl;
                runs = refl;
                attempt = rw (eqb_refl id) (rw (eqb_refl (suc j.attempts)) refl);
                token_matches = inr refl;
                opened = refl;
              });
            })
    ]

-- What `process_one` has done, if it returns: nothing was claimed; or the attempt is left alone; or the attempt is over, and cancelled with its job if, by then, a
-- cancellation was requested.
pub data Done (x : Executor) (round : Round) (started ended next : Db) : Option Claim → Type 0 where
  no_job : next ≡ started → Done x round started ended next none
  left_alone :
      (c : Claim) → Left round.race → next ≡ ended → Done x round started ended next (some c)
  over :
      (c : Claim) (job : JobRow) (call : HolderCall)
      → Chosen round.race call
      → holder_call c.job_id c.attempt_number (some c.lease_token) round.ended_at call ended
        ≡ done next
      → find c.job_id ended.jobs ≡ some job
      → Over c.job_id c.attempt_number job next
      → Done x round started ended next (some c)

finish_attempt-Done :
    (x : Executor) (round : Round) (started ended next : Db) (c : Claim) (b : Bool) (d : Decision)
    → decide x round.race ≡ d
    → finish_attempt c round.ended_at d ended ≡ (returns b, next)
    → Done x round started ended next (some c)
unfolding finish_attempt
finish_attempt-Done x round started ended next c b leave chosen e =
    left_alone c (decide-Left x round.race chosen) (sym (λ k. (e k).1))
finish_attempt-Done x round started ended next c b propagate chosen e = cc e
finish_attempt-Done x round started ended next c b (finish call) chosen e =
    elim (Reply-cases
      (holder_call c.job_id c.attempt_number (some c.lease_token) round.ended_at call ended)) [
        | inl (r, denied) ↦ cc (rw (denied, finish_attempt) at e)
        | inr (after, given) ↦
            let same : (returns true, after) ≡ (returns b, next) =
              rw (given, finish_attempt) at e in
            let ((j, a), ok) =
              holder_call-checked c.job_id c.attempt_number (some c.lease_token) round.ended_at call
                ended after given in
            let h = check_lease-Held c.job_id c.attempt_number (some c.lease_token) ended j a ok in
            let o : Over c.job_id c.attempt_number j after = rw given at (
              holder_call-Over c.job_id c.attempt_number (some c.lease_token) round.ended_at call
                ended j (decide-is_heartbeat x round.race call chosen) h.job) in
            over c j call (rw chosen at (decide-Calls x round.race))
              (subst
                (λ y.
                  holder_call c.job_id c.attempt_number (some c.lease_token) round.ended_at call
                    ended
                  ≡ done y)
                (λ k. (same k).1) given)
              h.job (subst (Over c.job_id c.attempt_number j) (λ k. (same k).1) o)
      ]

process_claim-Done :
    (json_eq : Json → Json → Bool) (x : Executor) (round : Round) (claimed : Option Claim)
    (started next : Db) (b : Bool)
    → process_claim json_eq x round (claimed, started) ≡ (returns b, next)
    → Done x round started (run json_eq round.meanwhile started) next claimed
unfolding process_claim
process_claim-Done json_eq x round none started next b e = no_job (sym (λ k. (e k).1))
process_claim-Done json_eq x round (some c) started next b e =
    finish_attempt-Done x round started (run json_eq round.meanwhile started) next c b
      (decide x round.race) refl e

-- If `process_one` returns, then it claimed no job and changed nothing; or it claimed one and changed
-- nothing after the claim, because the heartbeat was lost or the executor returned a result that
-- says that the attempt is finalized; or the attempt is over, with the job and the attempt cancelled if a cancellation had been
-- requested, whatever else was called in the meantime.
pub process_one-Done :
    (json_eq : Json → Json → Bool) (x : Executor) (worker_name : String) (timeout_seconds : ℕ)
    (round : Round) (db next : Db) (b : Bool)
    → process_one json_eq x worker_name timeout_seconds round db ≡ (returns b, next)
    → let (claimed, started) =
        claim_next_job round.locked worker_name timeout_seconds round.token round.claimed_at db in
      Done x round started (run json_eq round.meanwhile started) next claimed
unfolding process_one
process_one-Done json_eq x worker_name timeout_seconds round db next b e =
    let (claimed, started) =
      claim_next_job round.locked worker_name timeout_seconds round.token round.claimed_at db in
    process_claim-Done json_eq x round claimed started next b e
