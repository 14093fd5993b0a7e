-- ===== src/Evidence/Examples.antt =====
-- The theorems on the evidence ledger at concrete records, and tests of its operations.
use se_skills.Prelude.{
  ◌↔◌, ℕ, String, ◌≡◌, refl, true, false, Option, none, some, List, [], ◌∷◌, arith,
}
use se_skills.Json.{Json, null}
use se_skills.Prelude.Dict.{lookup, insert}
use se_skills.Evidence.Record.{
  content_available, ProcessingStatus, queued, processed, manual, EvidenceSource, initial,
  is_consistent, is_decision, is_revision, counts_up, all, last_is, is_source,
}
use se_skills.Evidence.Status.{derive_processing, derived_status, malformed_storage, reset}
use se_skills.Evidence.Association.{
  ResolvedIdentity, append_decision, confirm_association, confirmation, with_decision,
}
use se_skills.Evidence.Processing.{mark_processed, mark_processing}
use se_skills.Evidence.Store.{
  Answer, Store, answered, confirms, effect, failed_with, finishes, on_source, operate, read_source,
  refused_first, starts, take_effect, write_source, retries, fails,
}
use se_skills.Evidence.Import.{
  Selected, created, first_decision, import_all, import_existing, import_first, import_meetings,
  new_revision, record_meeting, then_import,
}
use se_skills.Evidence.Calls.{Checks, Event, happen, imports, operates, run_events}
use se_skills.Evidence.History.{AllSettled, run_events-AllSettled}
use se_skills.Evidence.Forget.{begin_forget, forget_read, new_receipt, write_receipt}
use se_skills.Evidence.Calls.{purges, forgets}
use se_skills.Evidence.Stuck.{run_events-IsStuck}
use se_skills.Evidence.Status.{source_forgotten}
use se_skills.Evidence.Append.{forgotten_for_ever, AllGrow, run_events-AllGrow}
use se_skills.Evidence.Reading.{started, after_answer, operate-reads, starts_at_limit}
use se_skills.Evidence.Listing.{
  ContentFile, content_of, snapshot, read_content, content_from, content_at, checked_content,
  find_revision, list_sources, latest_first, scan_sources, is_listed,
}
use se_skills.Evidence.Content.{Shown, read_content_lem}
use se_skills.Evidence.Pages.{follow, follow-list_sources}
use se_skills.Evidence.Duplicate.{record_meeting-again}

abbrev checks : Checks
checks = record {
  fields = record {
    decision_fields = λ d. true;
    revision_fields = λ r. true;
    same_decision = λ d e. true;
    record_bytes = λ s. 1000;
  };
  same_identity = λ x y. true;
  code_ok = λ t. true;
  token_ok = λ t. true;
}

abbrev meeting : Selected
meeting = record {
  source_id = "src";
  identity = null;
  provider = "granola";
  availability = content_available;
  occurred_at = none;
  provider_updated_at = none;
  unavailable_reason = none;
  content_hash = "hash";
  body_hash = "body";
  metrics = null;
  too_large = false;
}

abbrev identity : ResolvedIdentity
identity = record {
  safe_account = "acme";
  safe_opp = "renewal";
  sfdc_account_id = none;
  sfdc_id = none;
}

abbrev empty_store : Store
empty_store = record { sources = []; forgotten = [] }

abbrev imported : Store
imported =
    run_events checks (imports "0123456789abcdef" "manual_import" ((10, meeting) ∷ []) ∷ [])
      empty_store

abbrev work : List Event
work =
    operates 20 (confirms (some identity) manual "human" "checked") "src"
    ∷ operates 30 starts "src"
    ∷ operates 40 (finishes 1) "src"
    ∷ []

abbrev status_of : Answer → Option ProcessingStatus
status_of (failed_with code) = none
status_of (answered s) = some s.processing.status

processed_status :
    status_of (read_source checks.fields "src" (run_events checks work imported)) ≡ some processed
unfolding run_events happen import_meetings import_all then_import record_meeting import_first
    import_existing created derive_processing derived_status is_revision is_decision is_consistent
    new_revision first_decision take_effect write_source read_source operate on_source effect
    refused_first insert lookup all counts_up last_is is_source append_decision with_decision
    confirmation reset confirm_association mark_processing mark_processed
processed_status = refl

run_events-AllSettled_example : AllSettled (run_events checks work imported)
unfolding lookup
run_events-AllSettled_example = run_events-AllSettled checks work imported (
    run_events-AllSettled checks
      (imports "0123456789abcdef" "manual_import" ((10, meeting) ∷ []) ∷ []) empty_store
      (record { at = λ id s e. cc e }))

run_events-AllGrow_example : AllGrow imported (run_events checks work imported)
run_events-AllGrow_example = run_events-AllGrow checks work imported

-- The record that the import makes, and the same one after its association and 1000 attempts.
abbrev first_record : EvidenceSource
first_record =
    created 10 (new_revision 10 1 initial "0123456789abcdef" "manual_import" meeting) meeting

abbrev worn : EvidenceSource
worn = record first_record {
  processing = record first_record.processing { status = queued; attempts = 1000 };
}

abbrev first_store : Store
first_store = record { sources = ("src", first_record) ∷ []; forgotten = [] }

abbrev worn_store : Store
worn_store = record { sources = ("src", worn) ∷ []; forgotten = [] }

operate-reads_example :
    let (answer, next) =
      operate checks.fields checks.code_ok 20
        (confirms (some identity) manual "human" "checked")
        "src"
        first_store in
    read_source checks.fields "src" next ≡ after_answer first_record answer
unfolding run_events happen import_meetings import_all then_import record_meeting import_first
    import_existing created derive_processing derived_status is_revision is_decision is_consistent
    new_revision first_decision take_effect write_source read_source operate on_source effect
    refused_first insert lookup all counts_up last_is is_source append_decision with_decision
    confirmation reset confirm_association mark_processing mark_processed
operate-reads_example =
    operate-reads checks.fields checks.code_ok 20
      (confirms (some identity) manual "human" "checked") "src" first_store first_record (λ d. refl)
      refl (omega arith) (omega arith) (λ t e. omega arith)

starts_at_limit_example :
    let (answer, next) = operate checks.fields checks.code_ok 20 starts "src" worn_store in
    (answer ≡ answered (started 20 worn))
    × (read_source checks.fields "src" next ≡ failed_with malformed_storage)
unfolding run_events happen import_meetings import_all then_import record_meeting import_first
    import_existing created derive_processing derived_status is_revision is_decision is_consistent
    new_revision first_decision take_effect write_source read_source operate on_source effect
    refused_first insert lookup all counts_up last_is is_source append_decision with_decision
    confirmation reset confirm_association mark_processing mark_processed
starts_at_limit_example =
    starts_at_limit checks.fields checks.code_ok 20 "src" worn_store worn refl refl refl

abbrev stuck_store : Store
stuck_store = (operate checks.fields checks.code_ok 20 starts "src" worn_store).1

-- The attempt is retried and failed, the meeting is imported again and forgotten.
abbrev later_events : List Event
later_events =
    operates 21 retries "src"
    ∷ operates 22 (fails "timeout" true) "src"
    ∷ imports "1123456789abcdef" "user_triggered_retrieval" ((23, meeting) ∷ [])
    ∷ forgets 24 "src"
    ∷ []

run_events-IsStuck_example :
    (read_source checks.fields "src" (run_events checks later_events stuck_store)
      ≡ failed_with malformed_storage)
    × (lookup "src" (run_events checks later_events stuck_store).sources
        ≡ lookup "src" stuck_store.sources)
unfolding run_events happen import_meetings import_all then_import record_meeting import_first
    import_existing created derive_processing derived_status is_revision is_decision is_consistent
    new_revision first_decision take_effect write_source read_source operate on_source effect
    refused_first insert lookup all counts_up last_is is_source append_decision with_decision
    confirmation reset confirm_association mark_processing mark_processed
run_events-IsStuck_example = run_events-IsStuck checks later_events "src" stuck_store refl

record_meeting-again_example :
    record_meeting checks.fields checks.same_identity 20 "1123456789abcdef"
      "user_triggered_retrieval" meeting first_store
    ≡ (answered first_record, first_store)
unfolding run_events happen import_meetings import_all then_import record_meeting import_first
    import_existing created derive_processing derived_status is_revision is_decision is_consistent
    new_revision first_decision take_effect write_source read_source operate on_source effect
    refused_first insert lookup all counts_up last_is is_source append_decision with_decision
    confirmation reset confirm_association mark_processing mark_processed
record_meeting-again_example =
    record_meeting-again checks.fields checks.same_identity meeting 10 20 "0123456789abcdef"
      "1123456789abcdef" "manual_import" "user_triggered_retrieval" empty_store first_store
      first_record (λ x. refl) refl refl

-- The same record of a Gmail message, forgotten.
abbrev gmail_store : Store
gmail_store = record {
  sources = ("src", record first_record { provider = "gmail" }) ∷ [];
  forgotten = [];
}

abbrev barred : Store
barred = write_receipt "src" (new_receipt 20) gmail_store

abbrev purge : List Event
purge = purges false "src" ∷ imports "0123456789abcdef" "manual_import" ((30, meeting) ∷ []) ∷ []

forgotten_for_ever_example :
    (read_source checks.fields "src" (run_events checks purge barred)
      ≡ failed_with source_forgotten)
    × (record_meeting checks.fields checks.same_identity 40 "0123456789abcdef" "manual_import"
          meeting
          (run_events checks purge barred)
        ≡ (failed_with source_forgotten, run_events checks purge barred))
unfolding begin_forget forget_read new_receipt write_receipt insert lookup created derive_processing
    derived_status is_revision is_decision is_consistent new_revision first_decision read_source all
    counts_up last_is is_source
forgotten_for_ever_example =
    forgotten_for_ever checks 20 40 "0123456789abcdef" "manual_import" meeting gmail_store barred
      (new_receipt 20) purge refl

abbrev all_files : String → ContentFile
all_files hash = snapshot null

abbrev digest : Json → String
digest raw = "hash"

read_content_lem_example :
    (read_content checks.fields digest all_files "src" 1 first_store ≡ content_of null)
    ↔ Shown digest all_files 1 (read_source checks.fields "src" first_store) null
read_content_lem_example = read_content_lem checks.fields digest all_files "src" 1 first_store null

read_content-shows :
    read_content checks.fields digest all_files "src" 1 first_store ≡ content_of null
unfolding read_content content_from content_at checked_content find_revision lookup created
    derive_processing derived_status is_revision is_decision is_consistent new_revision
    first_decision read_source all counts_up last_is is_source
read_content-shows = refl

abbrev iso : ℕ → String
iso n = ""

abbrev two_sources : Store
two_sources = record { sources = ("a", first_record) ∷ ("b", first_record) ∷ []; forgotten = [] }

follow-list_sources_example :
    follow (λ offset. list_sources checks.fields iso none true 1 offset two_sources) 2 0
    ≡ latest_first iso
        (scan_sources
          (λ id. read_source checks.fields id two_sources)
          (is_listed none true)
          two_sources.sources).0
unfolding scan_sources lookup created derive_processing derived_status is_revision is_decision
    is_consistent new_revision first_decision read_source all counts_up last_is is_source
follow-list_sources_example =
    follow-list_sources checks.fields iso none true 1 2 two_sources (omega arith) (omega arith)
      (omega arith)
