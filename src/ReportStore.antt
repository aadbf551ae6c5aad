-- ===== src/ReportStore.antt =====
-- src/oj_checker/report_store.py: manifests, results and summaries as create-only files below the
-- root. Paths and files are those of the review ledger.
pub mod Manifests
use csoj_judger.Prelude.{
  ℕ, Bool, true, false, not, ◌&&◌, ◌||◌, Option, none, some, List, [], ◌∷◌, ◌++◌, all, length, leb,
  ◌==◌, take, if◌then◌else◌,
}
use csoj_judger.Prelude.Order.{Text, text, ◌===◌, nat_ord, list_ord}
use csoj_judger.Prelude.Dict
use csoj_judger.Prelude.Dict.{put}
use csoj_judger.Prelude.Result.{Result, ok, err}
use csoj_judger.Json
use csoj_judger.Json.{Json, str, obj, null, Fields, end, field, json_eq, mapping?, str?}
use csoj_judger.SubmissionStore.Paths.{is_hex}
use csoj_judger.ReviewLedger.{
  Codec, FilePath, Files, LedgerError, is_safe_component, write_create_only,
}

-- The exceptions of the store. `not_read` stands for one that the reading of a file raises.
pub data ReportError : Type 0 where
  unsafe_run_id unsafe_task_key unsafe_component already_exists different_manifest : ReportError
  malformed_summary not_read : ReportError

-- `json.dumps` with an indent, beside the compact one.
pub record Printer : Type 0 where
  pub codec : Codec
  pub dumps_indented : Json → Text

-- `_SAFE_TASK_KEY.fullmatch`.
abbrev pub is_task_key : Text → Bool
is_task_key s = length s == 64 && all is_hex s

abbrev pub Written : Type 0
Written = Files × Result ReportError FilePath

abbrev pub written : Files × Result LedgerError FilePath → Written
written (files, ok target) = (files, ok target)
written (files, err e) = (files, err ReportError.already_exists)

-- A manifest: its id, its time, and the other entries of its dictionary.
pub record Manifest : Type 0 where
  pub run_id : Text
  pub generated_at : ℕ
  pub entries : Fields

module _ (p : Printer) where
  abbrev pub report_text : Fields → Text
  report_text value = p.dumps_indented (obj value) ++ (10 ∷ [])

  -- `_write_immutable_json`.
  unfoldable pub write_immutable_json : Files → FilePath → Fields → Written
  write_immutable_json files target value =
      written (write_create_only files target (report_text value))

  -- `_json_digest`.
  abbrev pub json_digest : Fields → Text
  json_digest value = p.codec.sha256 (p.codec.dumps (obj value))

  abbrev pub json_name : Text → Text
  json_name s = s ++ text ".json"

  abbrev pub guarded : Files → Text → Text → FilePath → Fields → Written
  guarded files run_id task_key target value =
      if not (is_safe_component run_id)
      then (files, err ReportError.unsafe_run_id)
      else if not (is_task_key task_key)
      then (files, err ReportError.unsafe_task_key)
      else write_immutable_json files target value

  abbrev pub result_path : Text → Text → FilePath
  result_path run_id task_key =
      text "runs" ∷ run_id ∷ text "results" ∷ take 2 task_key ∷ json_name task_key ∷ []

  abbrev pub attempt_path : Text → Text → Fields → FilePath
  attempt_path run_id task_key value =
      text "runs"
      ∷ run_id
      ∷ text "attempts"
      ∷ take 2 task_key
      ∷ task_key
      ∷ json_name (json_digest value)
      ∷ []

  unfoldable pub write_task_result : Files → Text → Text → Fields → Written
  write_task_result files run_id task_key value =
      guarded files run_id task_key (result_path run_id task_key) value

  unfoldable pub write_task_attempt : Files → Text → Text → Fields → Written
  write_task_attempt files run_id task_key value =
      guarded files run_id task_key (attempt_path run_id task_key value) value

  abbrev pub summary_path : Text → FilePath
  summary_path run_id = text "runs" ∷ run_id ∷ text "summary.json" ∷ []

  abbrev pub attempt_summary_path : Text → Fields → FilePath
  attempt_summary_path run_id value =
      text "runs" ∷ run_id ∷ text "attempt-summaries" ∷ json_name (json_digest value) ∷ []

  unfoldable pub write_summary : Files → Text → Fields → Written
  write_summary files run_id value =
      if is_safe_component run_id
      then write_immutable_json files (summary_path run_id) value
      else (files, err ReportError.unsafe_run_id)

  unfoldable pub write_attempt_summary : Files → Text → Fields → Written
  write_attempt_summary files run_id value =
      if is_safe_component run_id
      then write_immutable_json files (attempt_summary_path run_id value) value
      else (files, err ReportError.unsafe_run_id)

  abbrev pub summary_value : Option Json → Result ReportError (Option Fields)
  summary_value none = err ReportError.not_read
  summary_value (some (obj d)) = ok (some d)
  summary_value (some _) = err ReportError.malformed_summary

  abbrev pub summary_text : Option Text → Result ReportError (Option Fields)
  summary_text none = ok none
  summary_text (some content) = summary_value (p.codec.loads content)

  unfoldable pub read_summary : Files → Text → Result ReportError (Option Fields)
  read_summary files run_id =
      if is_safe_component run_id
      then summary_text (Dict.get files (summary_path run_id))
      else err ReportError.unsafe_run_id

  abbrev pub separated : Text → Text → Text
  separated a b = a ++ (text "__" ++ b)

  abbrev pub response_key : Text → Text
  response_key digest = take 16 (p.codec.sha256 digest)

  abbrev pub owner_path : Text → Text → Text → Text → Fields → FilePath
  owner_path owner lab_id review_key digest value =
      text "owners"
      ∷ owner
      ∷ json_name (
          separated lab_id (
            separated (take 16 review_key)
              (separated (response_key digest) (take 16 (json_digest value)))))
      ∷ []

  abbrev pub plagiarism_path : Text → Text → Text → FilePath
  plagiarism_path lab_id review_key digest =
      text "plagiarism"
      ∷ lab_id
      ∷ json_name (separated (take 16 review_key) (response_key digest))
      ∷ []

  unfoldable pub write_owner_review : Files → Text → Text → Text → Text → Fields → Written
  write_owner_review files owner lab_id review_key digest value =
      if not (is_safe_component owner && is_safe_component lab_id)
      then (files, err ReportError.unsafe_component)
      else if not (is_task_key review_key)
      then (files, err ReportError.unsafe_task_key)
      else write_immutable_json files (owner_path owner lab_id review_key digest value) value

  unfoldable pub write_plagiarism_review : Files → Text → Text → Text → Fields → Written
  write_plagiarism_review files lab_id review_key digest value =
      if not (is_safe_component lab_id)
      then (files, err ReportError.unsafe_component)
      else if not (is_task_key review_key)
      then (files, err ReportError.unsafe_task_key)
      else write_immutable_json files (plagiarism_path lab_id review_key digest) value

  -- `RunManifest.to_dict`.
  abbrev pub manifest_dict : Manifest → Fields
  manifest_dict m = field (text "generated_at") (str (p.codec.isoformat m.generated_at)) m.entries

  abbrev pub manifest_path : Text → FilePath
  manifest_path run_id = text "runs" ∷ run_id ∷ text "manifest.json" ∷ []

  -- `{key: value ... if key != "generated_at"}`.
  abbrev pub identity_of : Fields → Fields
  identity_of end = end
  identity_of (field k v d) =
      let rest = identity_of d in if k === text "generated_at" then rest else field k v rest

  abbrev pub first_time : Manifest → Option ℕ → Result ReportError Manifest
  first_time m none = err ReportError.not_read
  first_time m (some t) = ok (record m { generated_at = t })

  abbrev pub time_of : Option Text → Option ℕ
  time_of none = none
  time_of (some s) = p.codec.fromisoformat s

  abbrev pub compared : Manifest → Option Fields → Result ReportError Manifest
  compared m none = err ReportError.not_read
  compared m (some existing) =
      if json_eq (obj (identity_of existing)) (obj (identity_of (manifest_dict m)))
      then first_time m (time_of (str? (Json.get existing (text "generated_at"))))
      else err ReportError.different_manifest

  abbrev pub manifest_over : Files → Manifest → Option Text → Files × Result ReportError Manifest
  manifest_over files m none =
      (put files (manifest_path m.run_id) (report_text (manifest_dict m)), ok m)
  manifest_over files m (some old) = (files, compared m (mapping? (p.codec.loads old)))

  -- `write_manifest`.
  unfoldable pub write_manifest : Files → Manifest → Files × Result ReportError Manifest
  write_manifest files m =
      if is_safe_component m.run_id
      then manifest_over files m (Dict.get files (manifest_path m.run_id))
      else (files, err ReportError.unsafe_run_id)
