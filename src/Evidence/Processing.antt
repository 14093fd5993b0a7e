-- ===== src/Evidence/Processing.antt =====
-- webapp/services/evidence_ledger_service.py: the operations on the processing of a source.
use se_skills.Prelude.{ℕ, ◌+◌, String, Bool, true, false, ◌&&◌, not, none, some, eqb, if◌then◌else◌}
use se_skills.Evidence.Record.{
  EvidenceSource, ProcessingStatus, discovered, failed, processed, processing, queued,
}
use se_skills.Evidence.Status.{
  Effect, busy_processing, derive_processing, keep, not_processing, not_queued, refuse, reset,
  retry_blocked, save,
}

abbrev pub may_start : ProcessingStatus → Bool → Effect → Effect
may_start queued retry_eligible start = start
may_start failed retry_eligible start = if retry_eligible then start else refuse retry_blocked
may_start _ retry_eligible start = refuse not_queued

abbrev pub is_processing : ProcessingStatus → Bool
is_processing processing = true
is_processing _ = false

abbrev pub is_failed : ProcessingStatus → Bool
is_failed failed = true
is_failed _ = false

unfoldable pub mark_processing : ℕ → EvidenceSource → Effect
mark_processing now s = may_start s.processing.status s.processing.retry_eligible (
    save (record s {
      updated_at = now;
      processing = record s.processing {
        status = processing;
        attempts = s.processing.attempts + 1;
        updated_at = now;
      };
    }))

unfoldable pub mark_processed : ℕ → ℕ → EvidenceSource → Effect
mark_processed now revision s =
    if not (is_processing s.processing.status)
    then refuse not_processing
    else if eqb revision s.latest_revision
    then save (record s {
      updated_at = now;
      processing = record s.processing {
        status = processed;
        processed_revision = some revision;
        retry_eligible = false;
        last_error_code = none;
        updated_at = now;
      };
    })
    else save (
        derive_processing now (record s {
          updated_at = now;
          processing = record s.processing {
            status = discovered;
            retry_eligible = false;
            last_error_code = none;
            updated_at = now;
          };
        }))

unfoldable pub mark_failed : ℕ → String → Bool → EvidenceSource → Effect
mark_failed now error_code retry_eligible s =
    if not (is_processing s.processing.status)
    then refuse not_processing
    else save (record s {
      updated_at = now;
      processing = record s.processing {
        status = failed;
        retry_eligible = retry_eligible;
        last_error_code = some error_code;
        updated_at = now;
      };
    })

unfoldable pub retry : ℕ → EvidenceSource → Effect
retry now s =
    if is_failed s.processing.status && s.processing.retry_eligible
    then save (
        derive_processing now (record s {
          updated_at = now;
          processing = record s.processing {
            status = discovered;
            retry_eligible = false;
            updated_at = now;
          };
        }))
    else keep

unfoldable pub request_reprocessing : ℕ → String → EvidenceSource → Effect
request_reprocessing now reason_code s =
    if is_processing s.processing.status
    then refuse busy_processing
    else save (derive_processing now (reset now (some reason_code) (record s { updated_at = now })))
