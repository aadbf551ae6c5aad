-- ===== src/ReviewBundle/Request.antt =====
-- `verify_review_bundle` and `submission_from_review_bundle` of src/oj_checker/review_bundle.py.

pub mod Conversion
pub mod Trust
use csoj_judger.Prelude.{ℕ, Bool, true, Option, none, some, List}
use csoj_judger.Prelude.Int.{ℤ}
use csoj_judger.Prelude.Order.{Text, text}
use csoj_judger.Prelude.Result.{Result, ok, err, ◌>>=◌, ◌>>◌}
use csoj_judger.Json
use csoj_judger.Json.{Json, null, bool, int, real, str, arr, obj, Fields, mapping?, str?}
use csoj_judger.Domain.{Datetime, Submission}
use csoj_judger.ReviewBundle.Checks.{BundleError, Libraries, parse_timestamp}
use csoj_judger.ReviewBundle.Envelope.{Envelope, KeyMaterial, SignedPayload, verify_signed_payload}
use csoj_judger.ReviewBundle.Payload.{validate_payload}

-- `then` of a value that a cast claims to be there.
infixl 5 ◌>>?◌
abbrev pub ◌>>?◌ {ℓ κ} : {A : Type ℓ} {B : Type κ} → Option A → (A → Option B) → Option B
o >>? next = elim o [ none ↦ none | some a ↦ next a ]

abbrev pub int? : Option Json → Option ℤ
int? (some (int n)) = some n
int? _ = none

-- A value that may be `None`.
abbrev pub optional_int : Option Json → Option (Option ℤ)
optional_int (some null) = some none
optional_int (some (int n)) = some (some n)
optional_int _ = none

abbrev pub converted : Option Text → Option (Option Text)
converted none = none
converted (some r) = some (some r)

abbrev pub instant? : Result BundleError ℕ → Option ℕ
instant? (err e) = none
instant? (ok t) = some t

module _ (lib : Libraries) where
  -- `verify_review_bundle`.
  unfoldable pub verify_review_bundle :
      Envelope → (Text → Option KeyMaterial) → Option Datetime → Result BundleError SignedPayload
  verify_review_bundle envelope public_keys now =
      verify_signed_payload lib envelope public_keys >>= λ bundle.
      validate_payload lib bundle.payload now >> ok bundle

  -- `None if performance is None else float(performance)`.
  abbrev pub performance_of : Option Json → Option (Option Text)
  performance_of (some null) = some none
  performance_of (some (real r)) = some (some r)
  performance_of (some (int n)) = converted (lib.to_float n)
  performance_of _ = none

  unfoldable pub submission_of : Fields → Fields → Option Submission
  submission_of raw run = str? (Json.get raw (text "id")) >>? λ id.
      str? (Json.get raw (text "owner")) >>? λ owner.
      str? (Json.get raw (text "lab_id")) >>? λ lab_id.
      int? (Json.get raw (text "score")) >>? λ score.
      str? (Json.get raw (text "input_digest")) >>? λ input_digest.
      str? (Json.get raw (text "submitted_at")) >>? λ submitted.
      instant? (parse_timestamp lib submitted) >>? λ submitted_at.
      mapping? (Json.get raw (text "input_manifest")) >>? λ input_manifest.
      mapping? (Json.get raw (text "lab_definition")) >>? λ lab_definition.
      int? (Json.get run (text "id")) >>? λ run_id.
      str? (Json.get run (text "state")) >>? λ run_state.
      mapping? (Json.get run (text "result_info")) >>? λ result_info.
      optional_int (Json.get run (text "score")) >>? λ run_score.
      performance_of (Json.get run (text "performance")) >>? λ run_performance.
      str? (Json.get run (text "finished_at")) >>? λ finished.
      instant? (parse_timestamp lib finished) >>? λ finished_at. some (record {
        id = id;
        owner = owner;
        lab_id = lab_id;
        score = score;
        input_digest = input_digest;
        submitted_at = submitted_at;
        input_manifest = input_manifest;
        lab_definition = lab_definition;
        active_run_id = some run_id;
        run_state = some run_state;
        run_result_info = result_info;
        run_failure_class = none;
        run_failure_reason = none;
        run_score = run_score;
        run_performance = run_performance;
        run_finished_at = some finished_at;
        status = text "Success";
        is_valid = true;
      })

  -- `submission_from_review_bundle`; `none` stands for any exception, and for a value that is not of
  -- the type that a cast claims.
  unfoldable pub submission_from_review_bundle : Fields → Option Submission
  submission_from_review_bundle payload = mapping? (Json.get payload (text "submission")) >>? λ raw.
      mapping? (Json.get raw (text "active_run")) >>? λ run. submission_of raw run
