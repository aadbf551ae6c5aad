-- ===== src/ReviewBundle/Payload.antt =====
-- `_validate_payload`, `_validate_submission` and `_validate_basis` of
-- src/oj_checker/review_bundle.py.
use csoj_judger.Prelude.{
  ℕ, ◌-◌, Bool, true, false, not, ◌&&◌, ◌||◌, Option, none, some, List, [], ◌∷◌, map, leb, ltb,
  length,
}
use csoj_judger.Prelude.Order.{Text, text, ◌===◌, nat_ord, list_ord}
use csoj_judger.Prelude.Result.{Result, ok, err, ◌>>=◌, ◌>>◌, raise_if}
use csoj_judger.Json
use csoj_judger.Json.{Json, null, bool, int, real, str, arr, obj, Fields, elements}
use csoj_judger.Domain.{Datetime}
use csoj_judger.SubmissionStore.Paths.{is_canonical_uuid}
use csoj_judger.ReviewBundle.Checks.{
  BundleError, Libraries, require_exact_keys, nonempty_string, nonempty_strings, timestamp,
  aware_utc, is_digest_value, is_text_value, is_object, is_natural, is_positive, max_validity,
}

abbrev pub object : Option Json → Result BundleError Fields
object (some (obj d)) = ok d
object _ = err BundleError.not_an_object

abbrev pub list_value : Option Json → Result BundleError (List Json)
list_value (some (arr xs)) = ok (elements xs)
list_value _ = err BundleError.bad_references

abbrev pub reference_keys : List Text
reference_keys = map text ("repository" ∷ "revision" ∷ "tree_digest" ∷ "path_prefix" ∷ [])

unfoldable pub validate_reference : Json → Result BundleError (Unit {0})
validate_reference v = do
  d ← object (some v)
  require_exact_keys d reference_keys
  nonempty_strings d (map text ("repository" ∷ "revision" ∷ "path_prefix" ∷ []))
  raise_if (not (is_digest_value (Json.get d (text "tree_digest")))) BundleError.bad_digest

unfoldable pub validate_references : List Json → Result BundleError (Unit {0})
validate_references [] = ok tt
validate_references (v ∷ vs) = validate_reference v >> validate_references vs

abbrev pub basis_keys : List Text
basis_keys = map text (
    "commit" ∷ "tree_digest" ∷ "document_digest" ∷ "source_path" ∷ "document_path"
    ∷ "public_references" ∷ [])

-- `_validate_basis`.
unfoldable pub validate_basis : Option Json → Result BundleError (Unit {0})
validate_basis value = do
  d ← object value
  require_exact_keys d basis_keys
  nonempty_strings d (map text ("commit" ∷ "source_path" ∷ "document_path" ∷ []))
  raise_if (not (is_digest_value (Json.get d (text "tree_digest")))) BundleError.bad_digest
  raise_if (not (is_digest_value (Json.get d (text "document_digest")))) BundleError.bad_digest
  references ← list_value (Json.get d (text "public_references"))
  validate_references references

-- `str(uuid.UUID(value)) == value`, for the two messages that a wrong value has.
abbrev pub is_uuid_value : Option Json → Bool
is_uuid_value (some (str s)) = is_canonical_uuid s
is_uuid_value _ = false

abbrev pub is_none_or_natural : Option Json → Bool
is_none_or_natural (some null) = true
is_none_or_natural v = is_natural v

abbrev pub is_performance : Option Json → Bool
is_performance (some null) = true
is_performance (some (int n)) = true
is_performance (some (real r)) = true
is_performance _ = false

abbrev pub run_keys : List Text
run_keys = map text ("id" ∷ "state" ∷ "result_info" ∷ "score" ∷ "performance" ∷ "finished_at" ∷ [])

abbrev pub submission_keys : List Text
submission_keys = map text (
    "id" ∷ "owner" ∷ "lab_id" ∷ "score" ∷ "input_digest" ∷ "submitted_at" ∷ "input_manifest"
    ∷ "lab_definition" ∷ "active_run" ∷ [])

abbrev pub payload_keys : List Text
payload_keys = map text (
    "schema_version" ∷ "audience" ∷ "submission" ∷ "basis" ∷ "model" ∷ "source" ∷ "rules_version"
    ∷ "prompt_version" ∷ "tool_version" ∷ "result_schema_version" ∷ "issued_at" ∷ "expires_at"
    ∷ "nonce" ∷ [])

-- The length of the nonce and the times of a payload, at an instant if one is given.
abbrev pub is_nonce : Text → Bool
is_nonce nonce = leb 16 (length nonce) && leb (length nonce) 128

abbrev pub check_now : ℕ → ℕ → Option Datetime → Result BundleError (Unit {0})
check_now issued_at expires_at none = ok tt
check_now issued_at expires_at (some now) = do
  current ← aware_utc now
  raise_if (ltb current issued_at || leb expires_at current) BundleError.outside_validity

module _ (lib : Libraries) where
  unfoldable pub validate_run : Fields → Result BundleError (Unit {0})
  validate_run run = do
    require_exact_keys run run_keys
    raise_if (not (is_positive (Json.get run (text "id")))) BundleError.bad_run_id
    state ← nonempty_string run (text "state")
    raise_if (not (state === text "Success")) BundleError.run_not_successful
    raise_if (not (is_object (Json.get run (text "result_info")))) BundleError.not_an_object
    raise_if (not (is_none_or_natural (Json.get run (text "score")))) BundleError.bad_score
    raise_if (not (is_performance (Json.get run (text "performance")))) BundleError.bad_performance
    finished_at ← timestamp lib run (text "finished_at")
    ok tt

  -- `_validate_submission`.
  unfoldable pub validate_submission : Option Json → Result BundleError (Unit {0})
  validate_submission value = do
    d ← object value
    require_exact_keys d submission_keys
    raise_if (not (is_uuid_value (Json.get d (text "id")))) BundleError.bad_id
    nonempty_strings d (map text ("owner" ∷ "lab_id" ∷ []))
    raise_if (not (is_natural (Json.get d (text "score")))) BundleError.bad_score
    raise_if (not (is_digest_value (Json.get d (text "input_digest")))) BundleError.bad_digest
    submitted_at ← timestamp lib d (text "submitted_at")
    raise_if (not (is_object (Json.get d (text "input_manifest")))) BundleError.not_an_object
    raise_if (not (is_object (Json.get d (text "lab_definition")))) BundleError.not_an_object
    run ← object (Json.get d (text "active_run"))
    validate_run run

  unfoldable pub validate_times : Fields → Option Datetime → Result BundleError (Unit {0})
  validate_times payload now = do
    issued_at ← timestamp lib payload (text "issued_at")
    expires_at ← timestamp lib payload (text "expires_at")
    raise_if (leb expires_at issued_at) BundleError.bad_validity_window
    raise_if (ltb max_validity (expires_at - issued_at)) BundleError.bad_validity_window
    check_now issued_at expires_at now

  -- `_validate_payload`.
  unfoldable pub validate_payload : Fields → Option Datetime → Result BundleError (Unit {0})
  validate_payload payload now = do
    require_exact_keys payload payload_keys
    raise_if
        (not (is_text_value (text "review-bundle-v1") (Json.get payload (text "schema_version"))))
        BundleError.unsupported_schema
    raise_if (not (is_text_value (text "oj-checker") (Json.get payload (text "audience"))))
        BundleError.bad_audience
    model ← nonempty_string payload (text "model")
    source ← nonempty_string payload (text "source")
    raise_if (not (source === text "manual" || source === text "nightly")) BundleError.bad_source
    raise_if (source === text "nightly" && not (model === text "glm-5.3"))
        BundleError.bad_nightly_model
    nonempty_strings payload (
        map text
          ("rules_version" ∷ "prompt_version" ∷ "tool_version" ∷ "result_schema_version" ∷ []))
    nonce ← nonempty_string payload (text "nonce")
    raise_if (not (is_nonce nonce)) BundleError.bad_nonce
    validate_times payload now
    validate_submission (Json.get payload (text "submission"))
    validate_basis (Json.get payload (text "basis"))
