-- ===== src/PlagiarismRuns/Records.antt =====
-- What src/oj_checker/plagiarism_runs.py reads from a run's files.
use csoj_judger.Prelude.{ℕ, suc, Bool, ◌&&◌, ◌||◌, List, [], ◌∷◌, length, drop, ◌==◌}
use csoj_judger.Prelude.Order.{Text, text, nat_ord, list_ord}
use csoj_judger.Prelude.Result.{Result, ok, err, ◌>>=◌}
use csoj_judger.AgentRuns.Data.{
  preparing, RunError, no_events, Event, RunDir, Run, has_prefix, all_hex, result_object,
  metadata_of, code_is,
}

-- The constructor's arguments that the operations read.
pub record Config : Type 0 where
  pub allowed_models : List Text
  pub has_workers : Bool
  pub max_queued : ℕ
  pub max_request_bytes : ℕ
  pub max_run_attempts : ℕ
  pub reconcile_batch_size : ℕ

-- `_RUN_ID`: `plagiarism-` and 64 lower-case hexadecimal digits.
unfoldable pub is_run_id : Text → Bool
is_run_id id =
    has_prefix (text "plagiarism-") id && (length (drop 11 id) == 64 && all_hex (drop 11 id))

-- The number of `*__preparing.json` event files.
unfoldable pub attempt_count : List Event → ℕ
attempt_count [] = 0
attempt_count (e ∷ es) =
    let rest = attempt_count es in elim e.state [ preparing ↦ suc rest | _ ↦ rest ]

unfoldable pub latest_event : RunDir → Result RunError Event
latest_event dir = elim dir.events [ [] ↦ err no_events | e ∷ es ↦ ok e ]

unfoldable pub read_run : RunDir → Result RunError Run
unfolding latest_event
read_run dir = do
  metadata ← metadata_of dir.metadata
  event ← latest_event dir
  result ← result_object dir.result
  ok (record {
    metadata = metadata;
    sequence = event.sequence;
    state = event.state;
    updated_at = event.updated_at;
    error_code = event.error_code;
    attempts = attempt_count dir.events;
    result = result;
  })

-- `_RETRYABLE_FAILURES`.
unfoldable pub is_retryable : Run → Bool
is_retryable run =
    code_is run.error_code (text "JOB_LOST")
    || (code_is run.error_code (text "PLAGIARISM_EXECUTION_FAILED")
        || code_is run.error_code (text "SOURCE_BUNDLE_INVALID"))
