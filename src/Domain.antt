-- ===== src/Domain.antt =====
-- src/oj_checker/domain.py: submissions, snapshot and audit requests, audit tasks.
-- An aware `datetime` is its instant in UTC, in microseconds since year 1, so `astimezone(UTC)`
-- leaves it as it is; a naive one has none.
pub mod Entries
use csoj_judger.Prelude.{ℕ, Bool, true, not, Option, none, some, List, any, is_nil}
use csoj_judger.Prelude.Int.{ℤ, positive?}
use csoj_judger.Prelude.Order.{Text}
use csoj_judger.Prelude.Result.{Result, ok, err, ◌>>=◌, ◌>>◌, raise_if}
use csoj_judger.Prelude.Text.{strip}
use csoj_judger.Json.{Fields}

pub data Datetime : Type 0 where
  naive : ℕ → Datetime
  aware : ℕ → Datetime

-- The `ValueError`s of the constructors.
pub data DomainError : Type 0 where
  naive_timestamp limit_not_positive blank_submission_id completion_count_not_positive : DomainError

unfoldable pub utc : Datetime → Result DomainError ℕ
utc (naive t) = err naive_timestamp
utc (aware t) = ok t

pub data SelectionPolicy : Type 0 where
  best_per_owner_lab all_qualifying : SelectionPolicy

pub data AuditTaskKind : Type 0 where
  single_review exact_duplicate plagiarism_review : AuditTaskKind

-- `run_performance` is a float that nothing reads: its text.
pub record Submission : Type 0 where
  pub id : Text
  pub owner : Text
  pub lab_id : Text
  pub score : ℤ
  pub input_digest : Text
  pub submitted_at : ℕ
  pub input_manifest : Fields
  pub lab_definition : Fields
  pub active_run_id : Option ℤ
  pub run_state : Option Text
  pub run_result_info : Fields
  pub run_failure_class : Option Text
  pub run_failure_reason : Option Text
  pub run_score : Option ℤ
  pub run_performance : Option Text
  pub run_finished_at : Option ℕ
  pub status : Text
  pub is_valid : Bool

pub record SnapshotRequest : Type 0 where
  pub policy : SelectionPolicy
  pub cutoff : ℕ
  pub min_score : ℤ
  pub labs : List Text
  pub owners : List Text
  pub limit : Option ℤ
  pub submission_ids : List Text

abbrev pub is_blank : Text → Bool
is_blank s = is_nil (strip s)

abbrev pub not_positive? : Option ℤ → Bool
not_positive? none = not true
not_positive? (some n) = not (positive? n)

-- `SnapshotRequest(...)` with its `__post_init__`.
unfoldable pub snapshot_request :
    SelectionPolicy
    → Datetime
    → ℤ
    → List Text
    → List Text
    → Option ℤ
    → List Text
    → Result DomainError SnapshotRequest
unfolding utc
snapshot_request policy cutoff min_score labs owners limit submission_ids = do
  at ← utc cutoff
  raise_if (not_positive? limit) limit_not_positive
  raise_if (any is_blank submission_ids) blank_submission_id
  ok (record {
    policy = policy;
    cutoff = at;
    min_score = min_score;
    labs = labs;
    owners = owners;
    limit = limit;
    submission_ids = submission_ids;
  })

pub record SubmissionSnapshot : Type 0 where
  pub policy : SelectionPolicy
  pub cutoff : ℕ
  pub submissions : List Submission

pub record AuditRequest : Type 0 where
  pub run_id : Text
  pub cutoff : ℕ
  pub min_score : ℤ
  pub labs : List Text
  pub owners : List Text
  pub limit : Option ℤ
  pub rules_version : Text
  pub prompt_version : Option Text
  pub model : Option Text
  pub similarity_threshold : Option Text
  pub completion_count : ℤ
  pub submission_id : Option Text
  pub execute_reviews : Bool

abbrev pub blank_id? : Option Text → Bool
blank_id? none = not true
blank_id? (some s) = is_blank s

-- `AuditRequest.__post_init__`, on a request whose cutoff is not yet in UTC.
unfoldable pub check_audit_request : Datetime → AuditRequest → Result DomainError AuditRequest
unfolding utc
check_audit_request cutoff r = do
  at ← utc cutoff
  raise_if (not_positive? r.limit) limit_not_positive
  raise_if (not (positive? r.completion_count)) completion_count_not_positive
  raise_if (blank_id? r.submission_id) blank_submission_id
  ok (record r { cutoff = at })

pub record AuditTask : Type 0 where
  pub key : Text
  pub kind : AuditTaskKind
  pub lab_id : Text
  pub submission_ids : List Text
  pub input_digest : Text
  pub input_digests : List Text
  pub source_delta_digests : List Text
  pub similarity_signal : Option Text
  pub jaccard : Option Text
