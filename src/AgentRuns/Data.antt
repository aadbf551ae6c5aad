-- ===== src/AgentRuns/Data.antt =====
-- What src/oj_checker/agent_runs.py keeps on disk and in memory.
-- The files of a run are a `RunDir`: its events are kept newest first, as `_latest_event` and the
-- numbering read them. A timestamp is its instant: the UTC texts are ordered alike.
use csoj_judger.Prelude.{
  ℕ, suc, Bool, true, false, ◌&&◌, ◌||◌, Option, none, some, List, [], ◌∷◌, length, all, drop, leb,
  ◌==◌,
}
use csoj_judger.Prelude.Order.{Text, text, ◌===◌, nat_ord, list_ord}
use csoj_judger.Prelude.Dict.{Dict}
use csoj_judger.Prelude.Result.{Result, ok, err, ◌>>=◌}
use csoj_judger.Json.{Fields}
use csoj_judger.SubmissionStore.Paths.{is_hex}

pub data RunState : Type 0 where
  queued preparing running finalizing completed failed cancelled : RunState

pub data RunError : Type 0 where
  invalid_run_id unknown_run invalid_record no_events model_not_allowed queue_full : RunError
  bundle_refused submission_id_refused : RunError

pub record Event : Type 0 where
  pub sequence : ℕ
  pub state : RunState
  pub updated_at : ℕ
  pub error_code : Option Text

pub record Metadata : Type 0 where
  pub run_id : Text
  pub payload_digest : Text
  pub submission_id : Text
  pub model : Text
  pub source : Text
  pub created_at : ℕ

-- `result.json`: missing, a JSON object within the size limit, or neither.
pub data ResultFile : Type 0 where
  absent : ResultFile
  object : Fields → ResultFile
  invalid : ResultFile

pub record RunDir : Type 0 where
  pub metadata : Option Metadata
  pub request : Option (List ℕ)
  pub events : List Event
  pub result : ResultFile
  pub ready : Bool

-- A cached run: the metadata, the fields of the latest event, the attempts and the result. An error
-- code stays from an earlier event where the latest has none.
pub record Run : Type 0 where
  pub metadata : Metadata
  pub sequence : ℕ
  pub state : RunState
  pub updated_at : ℕ
  pub error_code : Option Text
  pub attempts : ℕ
  pub result : Option Fields

pub record Service : Type 0 where
  pub disk : Dict Text RunDir
  pub runs : Dict Text Run
  pub latest_by_submission : Dict Text (ℕ × Text)
  pub queue : List Text
  pub started : Bool

-- The constructor's arguments that the operations read; `has_workers` is `executor is not None and
-- worker_count`.
pub record Config : Type 0 where
  pub allowed_models : List Text
  pub has_workers : Bool
  pub max_queued : ℕ
  pub max_run_attempts : ℕ
  pub reconcile_batch_size : ℕ

-- `_RUN_ID`: `review-` and 64 lower-case hexadecimal digits.
abbrev pub all_hex : Text → Bool
all_hex s = all is_hex s

abbrev pub prefix_length : ℕ
prefix_length = 7

abbrev pub has_prefix : Text → Text → Bool
has_prefix [] s = true
has_prefix (c ∷ p) [] = false
has_prefix (c ∷ p) (d ∷ s) = c == d && has_prefix p s

unfoldable pub is_run_id : Text → Bool
is_run_id id =
    has_prefix (text "review-") id
    && (length (drop prefix_length id) == 64 && all_hex (drop prefix_length id))

-- The number of `*__preparing.json` event files.
unfoldable pub attempt_count : List Event → ℕ
attempt_count [] = 0
attempt_count (e ∷ es) =
    let rest = attempt_count es in elim e.state [ preparing ↦ suc rest | _ ↦ rest ]

unfoldable pub latest_event : RunDir → Result RunError Event
latest_event dir = elim dir.events [ [] ↦ err no_events | e ∷ es ↦ ok e ]

abbrev pub result_object : ResultFile → Result RunError (Option Fields)
result_object absent = ok none
result_object (object r) = ok (some r)
result_object invalid = err invalid_record

abbrev pub metadata_of : Option Metadata → Result RunError Metadata
metadata_of none = err invalid_record
metadata_of (some m) = ok m

unfoldable pub read_run : RunDir → Result RunError Run
unfolding latest_event
read_run dir = do
  metadata ← metadata_of dir.metadata
  event ← latest_event dir
  result ← result_object dir.result
  ok (record {
    metadata = metadata;
    sequence = event.sequence;
    state = event.state;
    updated_at = event.updated_at;
    error_code = event.error_code;
    attempts = attempt_count dir.events;
    result = result;
  })

-- `_RETRYABLE_FAILURES`, and those that are retried for a manual run only.
abbrev pub code_is : Option Text → Text → Bool
code_is none code = false
code_is (some c) code = c === code

unfoldable pub is_retryable_failure : Run → Bool
is_retryable_failure run =
    code_is run.error_code (text "JOB_LOST")
    || code_is run.error_code (text "MODEL_UNAVAILABLE")
    || (run.metadata.source === text "manual"
        && (code_is run.error_code (text "AGENT_EXECUTION_FAILED")
            || code_is run.error_code (text "RESULT_INVALID")))

abbrev pub is_failed : RunState → Bool
is_failed failed = true
is_failed _ = false

-- The two fields that `_public_run` adds.
pub record PublicRun : Type 0 where
  pub run : Run
  pub max_attempts : ℕ
  pub will_retry : Bool

unfoldable pub public_run : Config → Run → PublicRun
public_run cfg run = record {
  run = run;
  max_attempts = cfg.max_run_attempts;
  will_retry =
      is_failed run.state
      && (leb (suc run.attempts) cfg.max_run_attempts && is_retryable_failure run);
}
