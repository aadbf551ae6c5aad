-- ===== src/PlagiarismBundle.antt =====
-- src/oj_checker/plagiarism_bundle.py: the signed request to look for copies of one submission among
-- those of its lab. The envelope and the checks of single fields are those of the review bundle.
pub mod Corpus
use csoj_judger.Prelude.{
  ℕ, ◌-◌, Bool, true, false, not, ◌&&◌, ◌||◌, Option, none, some, List, [], ◌∷◌, map, is_nil, leb,
  ltb, length,
}
use csoj_judger.Prelude.Int.{ℤ}
use csoj_judger.Prelude.Order.{Text, text, one_of, ◌===◌, nat_ord, list_ord}
use csoj_judger.Prelude.Result.{Result, ok, err, ◌>>=◌, ◌>>◌, raise_if}
use csoj_judger.Json
use csoj_judger.Json.{
  Json, null, bool, int, real, str, arr, obj, Fields, end, elements, mapping?, list?, str?,
}
use csoj_judger.Domain.{Datetime, Submission}
use csoj_judger.SubmissionStore.Paths.{is_canonical_uuid}
use csoj_judger.ReviewBundle.Checks.{
  BundleError, Libraries, require_exact_keys, nonempty_string, nonempty_strings, parse_timestamp,
  timestamp, is_digest_value, is_text_value, is_object, is_natural, max_validity,
}
use csoj_judger.ReviewBundle.Envelope.{Envelope, KeyMaterial, SignedPayload, verify_signed_payload}
use csoj_judger.ReviewBundle.Payload.{object, is_nonce, check_now, validate_basis}
use csoj_judger.ReviewBundle.Request.{◌>>?◌, int?, instant?}

-- `_canonical_uuid`; a wrong value has one of two messages.
unfoldable pub canonical_uuid : Option Json → Result BundleError Text
canonical_uuid (some (str s)) = elim (is_canonical_uuid s) [
  | true ↦ ok s
  | false ↦ err BundleError.bad_id
]
canonical_uuid _ = err BundleError.bad_id

abbrev pub corpus_list : Option (List Json) → Result BundleError (List Json)
corpus_list none = err BundleError.bad_count
corpus_list (some xs) = elim (is_nil xs || ltb 1000 (length xs)) [
  | true ↦ err BundleError.bad_count
  | false ↦ ok xs
]

abbrev pub member_keys : List Text
member_keys =
    map text (
      "id" ∷ "owner" ∷ "lab_id" ∷ "score" ∷ "input_digest" ∷ "submitted_at" ∷ "input_manifest" ∷ [])

abbrev pub corpus_keys : List Text
corpus_keys = map text (
    "schema_version" ∷ "audience" ∷ "target_submission_id" ∷ "submissions" ∷ "lab_definition"
    ∷ "basis" ∷ "model" ∷ "source" ∷ "rules_version" ∷ "prompt_version" ∷ "result_schema_version"
    ∷ "issued_at" ∷ "expires_at" ∷ "nonce" ∷ [])

-- The lab that the loop compares with, once it has seen one.
abbrev pub same_lab : Option Text → Text → Bool
same_lab none current = true
same_lab (some lab) current = current === lab

abbrev pub lab_after : Option Text → Text → Option Text
lab_after none current = some current
lab_after (some lab) current = some lab

module _ (lib : Libraries) where
  -- `_validate_submission`.
  unfoldable pub validate_member : Json → Result BundleError (Text × Text)
  validate_member value = do
    d ← object (some value)
    require_exact_keys d member_keys
    id ← canonical_uuid (Json.get d (text "id"))
    owner ← nonempty_string d (text "owner")
    raise_if (ltb 256 (length owner)) BundleError.owner_too_long
    lab_id ← nonempty_string d (text "lab_id")
    raise_if (not (is_natural (Json.get d (text "score")))) BundleError.bad_score
    raise_if (not (is_digest_value (Json.get d (text "input_digest")))) BundleError.bad_digest
    submitted_at ← timestamp lib d (text "submitted_at")
    raise_if (not (is_object (Json.get d (text "input_manifest")))) BundleError.not_an_object
    ok (id, lab_id)

  -- The loop over the submissions, with the ids and the lab seen so far; it ends with all ids.
  unfoldable pub check_corpus : List Text → Option Text → List Json → Result BundleError (List Text)
  check_corpus seen lab [] = ok seen
  check_corpus seen lab (raw ∷ rest) = validate_member raw >>= λ p.
      raise_if (one_of seen p.0) BundleError.not_unique
      >> (raise_if (not (same_lab lab p.1)) BundleError.not_one_lab
          >> check_corpus (p.0 ∷ seen) (lab_after lab p.1) rest)

  unfoldable pub validate_corpus : Fields → Result BundleError (Unit {0})
  validate_corpus payload = do
    target_id ← canonical_uuid (Json.get payload (text "target_submission_id"))
    submissions ← corpus_list (list? (Json.get payload (text "submissions")))
    seen ← check_corpus [] none submissions
    raise_if (not (one_of seen target_id)) BundleError.no_target
    raise_if (not (is_object (Json.get payload (text "lab_definition")))) BundleError.not_an_object
    validate_basis (Json.get payload (text "basis"))

  unfoldable pub validate_window : Fields → Option Datetime → Result BundleError (Unit {0})
  validate_window payload now = do
    issued_at ← timestamp lib payload (text "issued_at")
    expires_at ← timestamp lib payload (text "expires_at")
    raise_if (leb expires_at issued_at || ltb max_validity (expires_at - issued_at))
        BundleError.bad_validity_window
    check_now issued_at expires_at now

  -- `_validate_payload`.
  unfoldable pub validate_plagiarism_payload :
      Fields → Option Datetime → Result BundleError (Unit {0})
  validate_plagiarism_payload payload now = do
    require_exact_keys payload corpus_keys
    raise_if
        (not (
          is_text_value (text "plagiarism-review-bundle-v1")
            (Json.get payload (text "schema_version"))))
        BundleError.unsupported_schema
    raise_if (not (is_text_value (text "oj-checker") (Json.get payload (text "audience"))))
        BundleError.bad_audience
    model ← nonempty_string payload (text "model")
    source ← nonempty_string payload (text "source")
    raise_if (not (source === text "manual")) BundleError.bad_source
    nonempty_strings payload
        (map text ("rules_version" ∷ "prompt_version" ∷ "result_schema_version" ∷ []))
    raise_if (not (is_text_value (text "plagiarism-v2") (Json.get payload (text "prompt_version"))))
        BundleError.unsupported_version
    raise_if
        (not (
          is_text_value (text "plagiarism-result-v1")
            (Json.get payload (text "result_schema_version"))))
        BundleError.unsupported_version
    nonce ← nonempty_string payload (text "nonce")
    raise_if (not (is_nonce nonce)) BundleError.bad_nonce
    validate_window payload now
    validate_corpus payload

  -- `verify_plagiarism_bundle`.
  unfoldable pub verify_plagiarism_bundle :
      Envelope → (Text → Option KeyMaterial) → Option Datetime → Result BundleError SignedPayload
  verify_plagiarism_bundle envelope public_keys now =
      verify_signed_payload lib envelope public_keys >>= λ bundle.
      validate_plagiarism_payload bundle.payload now >> ok bundle

  -- `_submission_from_payload`; `none` as in `submission_from_review_bundle`.
  unfoldable pub member_of : Fields → Json → Option Submission
  member_of lab_definition value = mapping? (some value) >>? λ raw.
      str? (Json.get raw (text "id")) >>? λ id. str? (Json.get raw (text "owner")) >>? λ owner.
      str? (Json.get raw (text "lab_id")) >>? λ lab_id.
      int? (Json.get raw (text "score")) >>? λ score.
      str? (Json.get raw (text "input_digest")) >>? λ input_digest.
      str? (Json.get raw (text "submitted_at")) >>? λ submitted.
      instant? (parse_timestamp lib submitted) >>? λ submitted_at.
      mapping? (Json.get raw (text "input_manifest")) >>? λ input_manifest. some (record {
        id = id;
        owner = owner;
        lab_id = lab_id;
        score = score;
        input_digest = input_digest;
        submitted_at = submitted_at;
        input_manifest = input_manifest;
        lab_definition = lab_definition;
        active_run_id = none;
        run_state = none;
        run_result_info = end;
        run_failure_class = none;
        run_failure_reason = none;
        run_score = none;
        run_performance = none;
        run_finished_at = none;
        status = text "Success";
        is_valid = true;
      })

  unfoldable pub members_of : Fields → List Json → Option (List Submission)
  members_of lab_definition [] = some []
  members_of lab_definition (v ∷ vs) =
      member_of lab_definition v >>? λ s. members_of lab_definition vs >>? λ rest. some (s ∷ rest)

  -- `submissions_from_plagiarism_bundle`.
  unfoldable pub submissions_from_plagiarism_bundle : Fields → Option (Text × List Submission)
  submissions_from_plagiarism_bundle payload =
      mapping? (Json.get payload (text "lab_definition")) >>? λ lab_definition.
      list? (Json.get payload (text "submissions")) >>? λ raws.
      members_of lab_definition raws >>? λ submissions.
      str? (Json.get payload (text "target_submission_id")) >>? λ target. some (target, submissions)
