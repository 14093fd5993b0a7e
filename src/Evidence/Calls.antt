-- ===== src/Evidence/Calls.antt =====
-- webapp/services/evidence_ledger_service.py: the calls of the service over time.
use se_skills.Prelude.{ℕ, String, Bool, List, [], ◌∷◌}
use se_skills.Json.{Json}
use se_skills.Evidence.Record.{Fields}
use se_skills.Evidence.Store.{Operation, Store, operate}
use se_skills.Evidence.Forget.{begin_forget, finish_forget, purge_forgotten_source}
use se_skills.Evidence.Import.{Selected, import_meetings}

-- What the service relies on: Pydantic's parsing, the equality of identities, and the patterns of
-- an error code and of an import identifier.
pub record Checks : Type 0 where
  pub fields : Fields
  pub same_identity : Json → Json → Bool
  pub code_ok : String → Bool
  pub token_ok : String → Bool

-- The calls of the service, at their times.
pub data Event : Type 0 where
  operates : ℕ → Operation → String → Event
  imports : String → String → List (ℕ × Selected) → Event
  forgets : ℕ → String → Event
  ends_forgetting : String → String → Event
  purges : Bool → String → Event

unfoldable pub happen : Checks → Event → Store → Store
happen c (operates now op id) store = (operate c.fields c.code_ok now op id store).1
happen c (imports import_id trigger items) store =
    (import_meetings c.fields c.same_identity c.token_ok import_id trigger items store).1
happen c (forgets now id) store = (begin_forget c.fields now id store).1
happen c (ends_forgetting overview_status id) store = (finish_forget id overview_status store).1
happen c (purges unsafe id) store = (purge_forgotten_source unsafe id store).1

unfoldable pub run_events : Checks → List Event → Store → Store
run_events c [] store = store
run_events c (e ∷ es) store = run_events c es (happen c e store)
