-- ===== src/Evidence/Forget.antt =====
-- webapp/services/evidence_ledger_service.py: the deletion of a source by the receipt of it.
use se_skills.Prelude.{ℕ, String, Bool, ◌||◌, not, Option, none, some, ◌==◌, if◌then◌else◌}
use se_skills.Prelude.Dict.{lookup, insert, without}
use se_skills.Evidence.Record.{Fields}
use se_skills.Evidence.Status.{
  Code, malformed_storage, forget_not_started, invalid_overview, not_gmail, unknown_source,
  unsafe_storage,
}
use se_skills.Evidence.Store.{
  Answer, Receipt, Store, answered, complete, failed_with, is_forgotten, pending, read_source,
}

-- What the calls that return a receipt answer.
pub data Granted : Type 0 where
  no_receipt : Code → Granted
  receipt_of : Receipt → Granted

unfoldable pub write_receipt : String → Receipt → Store → Store
write_receipt id receipt store = record store {
  forgotten = insert id (some receipt) store.forgotten;
}

unfoldable pub new_receipt : ℕ → Receipt
new_receipt now = record { requested_at = now; status = pending; overview_status = none }

unfoldable pub forget_read : ℕ → String → Answer → Store → Granted × Store
forget_read now id (failed_with code) store = (no_receipt code, store)
forget_read now id (answered s) store =
    if not (s.provider == "gmail")
    then (no_receipt not_gmail, store)
    else (receipt_of (new_receipt now), write_receipt id (new_receipt now) store)

unfoldable pub begin_forget : Fields → ℕ → String → Store → Granted × Store
begin_forget fields now id store = elim (lookup id store.forgotten) [
  | some none ↦ (no_receipt malformed_storage, store)
  | some (some receipt) ↦ (receipt_of receipt, store)
  | none ↦ forget_read now id (read_source fields id store) store
]

abbrev pub is_overview_status : String → Bool
is_overview_status t = t == "not_present" || t == "repaired" || t == "withheld"

unfoldable pub finish_receipt : String → String → Receipt → Store → Granted × Store
finish_receipt id overview_status receipt store =
    if not (is_overview_status overview_status)
    then (no_receipt invalid_overview, store)
    else (receipt_of finished, write_receipt id finished store)
  where
    finished : Receipt
    finished = record receipt { status = complete; overview_status = some overview_status }

unfoldable pub finish_forget : String → String → Store → Granted × Store
finish_forget id overview_status store = elim (lookup id store.forgotten) [
  | some none ↦ (no_receipt malformed_storage, store)
  | some (some receipt) ↦ finish_receipt id overview_status receipt store
  | none ↦ (no_receipt unknown_source, store)
]

-- `unsafe`: an entry of the content directory is no plain file, or the directory is none.
unfoldable pub purge_forgotten_source : Bool → String → Store → Option Code × Store
purge_forgotten_source unsafe id store =
    if not (is_forgotten id store.forgotten)
    then (some forget_not_started, store)
    else if unsafe
    then (some unsafe_storage, store)
    else (none, record store { sources = without id store.sources })
