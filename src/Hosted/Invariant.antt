-- ===== src/Hosted/Invariant.antt =====
-- webapp/hosted: the ledger over any sequence of calls.
use se_skills.Prelude.{Bool, refl, List, [], ◌∷◌}
use se_skills.Json.{Json}
use se_skills.Hosted.Tables.{Time, Db, find, find_attempt}
use se_skills.Hosted.Calls.{
  Call, enqueues, asks_cancellation, claims, recovers, by_holder, apply, run,
}
use se_skills.Hosted.Tracked.{Sound}
use se_skills.Hosted.Begin.{enqueue_job-Sound, request_job_cancellation-Sound, claim_next_job-Sound}
use se_skills.Hosted.Finish.{recover_expired_leases-Sound, holder_call-Sound}

abbrev pub empty : Db
empty = record { jobs = []; attempts = []; outputs = [] }

pub apply-Sound :
    (json_eq : Json → Json → Bool) (c : Time × Call) (db : Db)
    → Sound db
    → Sound (apply json_eq c db)
unfolding apply
apply-Sound json_eq (now, enqueues d id r) db s = enqueue_job-Sound json_eq d id now r db s
apply-Sound json_eq (now, asks_cancellation d id) db s =
    request_job_cancellation-Sound d id now db s
apply-Sound json_eq (now, claims locked worker seconds token) db s =
    claim_next_job-Sound locked worker seconds token now db s
apply-Sound json_eq (now, recovers locked backoff) db s =
    recover_expired_leases-Sound locked backoff now db s
apply-Sound json_eq (now, by_holder id number token call) db s =
    holder_call-Sound id number token now call db s

run-Sound :
    (json_eq : Json → Json → Bool) (cs : List (Time × Call)) (db : Db)
    → Sound db
    → Sound (run json_eq cs db)
unfolding run
run-Sound json_eq [] db s = s
run-Sound json_eq (c ∷ cs) db s =
    run-Sound json_eq cs (apply json_eq c db) (apply-Sound json_eq c db s)

pub empty-Sound : Sound empty
unfolding find find_attempt
empty-Sound = record { keyed = tt; known = λ id j e. cc e; unknown = λ id e n. refl }

pub ledger-Sound :
    (json_eq : Json → Json → Bool) (calls : List (Time × Call)) → Sound (run json_eq calls empty)
ledger-Sound json_eq calls = run-Sound json_eq calls empty empty-Sound
