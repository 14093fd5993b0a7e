-- ===== src/Hosted/Decisions.antt =====
-- webapp/hosted/worker.py: why `Worker.process_one` calls what it calls, or leaves an attempt alone.
use se_skills.Prelude.{
  ◌==◌, Bool-cases, if◌then◌else◌, ◌≡◌, refl, String, Bool, true, false, ◌||◌, not, Option, none,
  some, arith, inl, inr,
}
use se_skills.Hosted.Lease.{Completion}
use se_skills.Hosted.Retry.{Failure}
use se_skills.Hosted.Calls.{fails, cancels, completes, branch, HolderCall}
use se_skills.Hosted.Outcome.{is_heartbeat}
use se_skills.Hosted.Worker.{
  truthy_text, text_or, or_text, fail_arguments, complete_arguments, Executor, WorkerRace, Decision,
  finish, leave, propagate, decide, decide_execution, decide_result, Execution, ExecutorResult,
  returned, raised_exception, Processed, returns, Round, finish_attempt, process_claim, process_one,
}

decide_result-is_heartbeat :
    (c : Bool) (r : se_skills.Hosted.Worker.ExecutorResult) (call : HolderCall)
    → decide_result c r ≡ finish call
    → is_heartbeat call ≡ false
unfolding decide_result
decide_result-is_heartbeat c r call e = ground arith

decide_execution-is_heartbeat :
    (x : Executor) (c : Bool) (e : Execution) (call : HolderCall)
    → decide_execution x c e ≡ finish call
    → is_heartbeat call ≡ false
unfolding decide_execution
decide_execution-is_heartbeat x c (returned r) call e = decide_result-is_heartbeat c r call e
decide_execution-is_heartbeat x c raised_exception call e = ground arith

pub decide-is_heartbeat :
    (x : Executor) (race : WorkerRace) (call : HolderCall)
    → decide x race ≡ finish call
    → is_heartbeat call ≡ false
unfolding decide
decide-is_heartbeat x race call =
    branch NoHeartbeat (not race.any_done) _ _
      (λ _.
        branch NoHeartbeat (race.executor_raises || race.monitor_raises) _ _ (λ _ e. cc e)
          (λ _ e. ground arith))
      (λ _.
        branch NoHeartbeat race.heartbeat_lost _ _
          (λ _. branch NoHeartbeat race.executor_raises _ _ (λ _ e. cc e) (λ _ e. cc e))
          (λ _.
            branch NoHeartbeat race.cancel_requested _ _
              (λ _. branch NoHeartbeat race.executor_raises _ _ (λ _ e. cc e) (λ _ e. ground arith))
              (λ _.
                branch NoHeartbeat race.monitor_raises _ _ (λ _ e. cc e)
                  (λ _.
                    decide_execution-is_heartbeat x race.cancel_requested_later race.execution
                      call))))
  where
    NoHeartbeat : Decision → Type 0
    NoHeartbeat d = d ≡ finish call → is_heartbeat call ≡ false

-- Why an attempt is left alone: the heartbeat was lost before the deadline, or the executor returned
-- a result that says that it has finalized the attempt.
pub data Left (race : WorkerRace) : Type 0 where
  lease_lost : race.any_done ≡ true → race.heartbeat_lost ≡ true → Left race
  finalized_by_executor :
      (r : ExecutorResult)
      → race.any_done ≡ true
      → race.heartbeat_lost ≡ false
      → race.cancel_requested ≡ false
      → race.execution ≡ returned r
      → r.finalized ≡ true
      → Left race

-- Only a finalized result is left alone.
decide_execution-leave :
    (x : Executor) (c : Bool) (e : Execution)
    → decide_execution x c e ≡ leave
    → (r : ExecutorResult) × (e ≡ returned r) × (r.finalized ≡ true)
unfolding decide_execution decide_result
decide_execution-leave x c raised_exception e = ground arith
decide_execution-leave x c (returned r) e = (r, refl, ground arith)

pub decide-Left : (x : Executor) (race : WorkerRace) → decide x race ≡ leave → Left race
unfolding decide
decide-Left x race =
    branch Leaves (not race.any_done) _ _
      (λ _.
        branch Leaves (race.executor_raises || race.monitor_raises) _ _ (λ _ e. cc e)
          (λ _ e. ground arith))
      (λ ended.
        let any_done : race.any_done ≡ true = ground arith in
        branch Leaves race.heartbeat_lost _ _ (λ lost _. lease_lost any_done lost)
          (λ kept.
            branch Leaves race.cancel_requested _ _
              (λ _. branch Leaves race.executor_raises _ _ (λ _ e. cc e) (λ _ e. ground arith))
              (λ unasked.
                branch Leaves race.monitor_raises _ _ (λ _ e. cc e)
                  (λ _ e.
                    let (r, returned_it, finalized) =
                      decide_execution-leave x race.cancel_requested_later race.execution e in
                    finalized_by_executor r any_done kept unasked returned_it finalized))))
  where
    Leaves : Decision → Type 0
    Leaves d = d ≡ leave → Left race

-- Which call ends an attempt, and why: a timeout without a task done before the deadline; a
-- cancellation that was requested; an exception of the executor; a result that names an error; or a
-- result that names none.
pub data Chosen (race : WorkerRace) : HolderCall → Type 0 where
  too_late :
      (e : Failure) → race.any_done ≡ false → e.error_category ≡ "timeout" → Chosen race (fails e)
  on_request : race.any_done ≡ true → race.cancel_requested ≡ true → Chosen race cancels
  on_late_request : race.any_done ≡ true → race.cancel_requested_later ≡ true → Chosen race cancels
  on_exception :
      (e : Failure)
      → race.any_done ≡ true
      → race.cancel_requested ≡ false
      → race.execution ≡ raised_exception
      → e.error_category ≡ "executor_error"
      → Chosen race (fails e)
  on_error :
      (r : ExecutorResult) (e : Failure) (category : String)
      → race.any_done ≡ true
      → race.cancel_requested ≡ false
      → race.cancel_requested_later ≡ false
      → race.execution ≡ returned r
      → r.error_category ≡ some category
      → e.error_category ≡ category
      → Chosen race (fails e)
  on_success :
      (r : ExecutorResult) (c : Completion)
      → race.any_done ≡ true
      → race.cancel_requested ≡ false
      → race.cancel_requested_later ≡ false
      → race.execution ≡ returned r
      → r.finalized ≡ false
      → c.result_output_id ≡ r.output_id
      → Chosen race (completes c)

abbrev pub Calls : WorkerRace → Decision → Type 0
Calls race (finish call) = Chosen race call
Calls race leave = Unit
Calls race propagate = Unit

text_or-some : (t : String) → truthy_text (some t) ≡ true → text_or (some t) "" ≡ t
text_or-some t e = elim (Bool-cases (t == "")) [
  | inl empty ↦ cc (rw empty at e)
  | inr full ↦ rw full refl
]

decide_error-Calls :
    (race : WorkerRace) (r : ExecutorResult) (category : Option String)
    → race.any_done ≡ true
    → race.cancel_requested ≡ false
    → race.cancel_requested_later ≡ false
    → race.execution ≡ returned r
    → r.finalized ≡ false
    → r.error_category ≡ category
    → Calls race (
        if truthy_text category
        then finish (
            fails (
              fail_arguments
                (text_or category "")
                (text_or r.error "Execution failed")
                (or_text r.validation_status "unvalidated")
                (some r.runtime_version)
                (some r.model)))
        else finish (completes (complete_arguments r)))
unfolding fail_arguments complete_arguments
decide_error-Calls race r none in_time unasked later ran open_ named =
    on_success r _ in_time unasked later ran open_ refl
decide_error-Calls race r (some t) in_time unasked later ran open_ named =
    branch (Calls race) (truthy_text (some t)) _ _
      (λ names.
        on_error r
          (fail_arguments (text_or (some t) "") (text_or r.error "Execution failed")
            (or_text r.validation_status "unvalidated") (some r.runtime_version) (some r.model))
          t in_time unasked later ran named (text_or-some t names))
      (λ _. on_success r _ in_time unasked later ran open_ refl)

decide_result-Calls :
    (race : WorkerRace) (r : ExecutorResult)
    → race.any_done ≡ true
    → race.cancel_requested ≡ false
    → race.execution ≡ returned r
    → Calls race (decide_result race.cancel_requested_later r)
unfolding decide_result
decide_result-Calls race r in_time unasked ran =
    branch (Calls race) r.finalized _ _ (λ _. tt)
      (λ open_.
        branch (Calls race) race.cancel_requested_later _ _ (λ later. on_late_request in_time later)
          (λ later.
            decide_error-Calls race r r.error_category in_time unasked later ran open_ refl))

pub decide-Calls : (x : Executor) (race : WorkerRace) → Calls race (decide x race)
unfolding decide decide_execution fail_arguments
decide-Calls x race =
    branch (Calls race) (not race.any_done) _ _
      (λ late.
        branch (Calls race) (race.executor_raises || race.monitor_raises) _ _ (λ _. tt)
          (λ _. too_late _ (ground arith) refl))
      (λ ended.
        let in_time : race.any_done ≡ true = ground arith in
        branch (Calls race) race.heartbeat_lost _ _
          (λ _. branch (Calls race) race.executor_raises _ _ (λ _. tt) (λ _. tt))
          (λ _.
            branch (Calls race) race.cancel_requested _ _
              (λ asked.
                branch (Calls race) race.executor_raises _ _ (λ _. tt)
                  (λ _. on_request in_time asked))
              (λ unasked.
                branch (Calls race) race.monitor_raises _ _ (λ _. tt)
                  (λ _. executed race.execution in_time unasked refl))))
  where
    executed :
        (e : Execution)
        → race.any_done ≡ true
        → race.cancel_requested ≡ false
        → race.execution ≡ e
        → Calls race (decide_execution x race.cancel_requested_later e)
    executed raised_exception in_time unasked ran = on_exception _ in_time unasked ran refl
    executed (returned r) in_time unasked ran = decide_result-Calls race r in_time unasked ran
