-- ===== src/Examples/Bundles.antt =====
-- Two signed requests, with libraries for which a timestamp is as late as its text is long.
use csoj_judger.Prelude.{
  ℕ, zero, suc, ◌≤◌, ◌<◌, ◌≡◌, refl, ◌⊎◌, true, Option, none, some, List, [], ◌∷◌, Memᴰ, length,
  if◌then◌else◌,
}
use csoj_judger.Prelude.Int.{pos}
use csoj_judger.Prelude.Order.{Text, text, ◌===◌, nat_ord, list_ord}
use csoj_judger.Prelude.Result.{ok}
use csoj_judger.Prelude.Text.{strip, lstrip, is_space}
use csoj_judger.Json
use csoj_judger.Json.{Json, null, str, int, arr, obj, Fields, fields, items, end}
use csoj_judger.Domain.{Submission, aware}
use csoj_judger.SubmissionStore.Paths.{is_canonical_uuid}
use csoj_judger.ReviewBundle.Checks.{
  Libraries, ed25519, require_exact_keys, trimmed, nonempty_string, nonempty_strings,
  parse_timestamp, timestamp, aware_utc,
}
use csoj_judger.ReviewBundle.Base64.{decode_groups, decode_b64url}
use csoj_judger.ReviewBundle.Envelope.{
  Envelope, of_mapping, KeyMaterial, raw_bytes, SignedPayload, parse_fields, decode_key,
  parse_envelope, verify_parsed, verify_signed_payload,
}
use csoj_judger.ReviewBundle.Envelope.Signature.{IsSigned}
use csoj_judger.ReviewBundle.Payload.{
  validate_references, validate_basis, validate_run, validate_submission, validate_times,
  validate_payload,
}
use csoj_judger.ReviewBundle.Request.{verify_review_bundle, submission_from_review_bundle}
use csoj_judger.ReviewBundle.Request.Trust.{IsTimely, verify_review_bundle-IsTrusted}
use csoj_judger.ReviewBundle.Request.Conversion.{
  IsTooLarge, IsRequested, submission_from-IsRequested,
}
use csoj_judger.PlagiarismBundle.{
  canonical_uuid, validate_member, check_corpus, validate_corpus, validate_window,
  validate_plagiarism_payload, verify_plagiarism_bundle, submissions_from_plagiarism_bundle,
}
use csoj_judger.PlagiarismBundle.Corpus.{AreDistinct, submissions_from-IsCorpus}

abbrev zeros : ℕ → List ℕ
zeros zero = []
zeros (suc n) = 0 ∷ zeros n

abbrev repeated : ℕ → ℕ → Text
repeated c zero = []
repeated c (suc n) = c ∷ repeated c n

abbrev entry : Text → Text → Text × Json
entry k v = (k, str v)

abbrev digest : Text
digest = repeated b'0' 64

abbrev first_id : Text
first_id = text "00000000-0000-0000-0000-000000000001"

abbrev second_id : Text
second_id = text "00000000-0000-0000-0000-000000000002"

abbrev basis : Fields
basis = fields (
    entry (text "commit") (text "c")
    ∷ entry (text "tree_digest") digest
    ∷ entry (text "document_digest") digest
    ∷ entry (text "source_path") (text "s")
    ∷ entry (text "document_path") (text "d")
    ∷ (text "public_references", arr (items []))
    ∷ [])

abbrev run : Fields
run = fields (
    (text "id", int (pos 7))
    ∷ entry (text "state") (text "Success")
    ∷ (text "result_info", obj end)
    ∷ (text "score", null)
    ∷ (text "performance", int (pos 3))
    ∷ entry (text "finished_at") (text "t")
    ∷ [])

abbrev member : Text → List (Text × Json) → Fields
member id rest = fields (
    entry (text "id") id
    ∷ entry (text "owner") (text "ann")
    ∷ entry (text "lab_id") (text "lab")
    ∷ (text "score", int (pos 90))
    ∷ entry (text "input_digest") digest
    ∷ entry (text "submitted_at") (text "t")
    ∷ (text "input_manifest", obj end)
    ∷ rest)

abbrev versions : List (Text × Json) → List (Text × Json)
versions rest =
    (text "basis", obj basis)
    ∷ entry (text "model") (text "m")
    ∷ entry (text "source") (text "manual")
    ∷ entry (text "rules_version") (text "r")
    ∷ entry (text "issued_at") (text "t")
    ∷ entry (text "expires_at") (text "ttt")
    ∷ entry (text "nonce") (repeated b'n' 16)
    ∷ entry (text "audience") (text "oj-checker")
    ∷ rest

abbrev review_payload : Fields
review_payload = fields (
    versions (
      entry (text "schema_version") (text "review-bundle-v1")
      ∷ entry (text "prompt_version") (text "p")
      ∷ entry (text "tool_version") (text "t")
      ∷ entry (text "result_schema_version") (text "v")
      ∷ (
        text "submission",
        obj (
            member first_id ((text "lab_definition", obj end) ∷ (text "active_run", obj run) ∷ [])),
      )
      ∷ []))

abbrev corpus_payload : Fields
corpus_payload = fields (
    versions (
      entry (text "schema_version") (text "plagiarism-review-bundle-v1")
      ∷ entry (text "prompt_version") (text "plagiarism-v2")
      ∷ entry (text "result_schema_version") (text "plagiarism-result-v1")
      ∷ entry (text "target_submission_id") second_id
      ∷ (
        text "submissions",
        arr (items (obj (member first_id []) ∷ obj (member second_id []) ∷ [])),
      )
      ∷ (text "lab_definition", obj end)
      ∷ []))

abbrev library : Libraries
library = record {
  loads_bytes = λ bytes.
      if bytes === zeros 3
      then some (obj review_payload)
      else if bytes === 0 ∷ 0 ∷ 1 ∷ []
      then some (obj corpus_payload)
      else none;
  loads = λ s. none;
  sha256 = λ bytes. digest;
  from_iso = λ s. some (aware (length s));
  load_pem = λ s. ed25519 [];
  verify = λ key signature message. signature === zeros 64;
  to_float = λ n. some (text "3.0");
}

abbrev keys : Text → Option KeyMaterial
keys k = if k === text "key" then some (raw_bytes (zeros 32)) else none

abbrev envelope : Text → Envelope
envelope payload = of_mapping (
    fields (
      entry (text "payload") payload
      ∷ entry (text "key_id") (text "key")
      ∷ entry (text "signature") (repeated b'A' 86)
      ∷ []))

abbrev bundle : Fields → List ℕ → SignedPayload
bundle payload bytes = record {
  payload = payload;
  payload_bytes = bytes;
  payload_digest = digest;
  key_id = text "key";
}

review_signed :
    verify_signed_payload library (envelope (text "AAAA")) keys
    ≡ ok (bundle review_payload (zeros 3))
unfolding verify_signed_payload parse_envelope parse_fields require_exact_keys verify_parsed
    decode_key decode_b64url decode_groups Json.get
review_signed = refl

review_valid : validate_payload library review_payload (some (aware 2)) ≡ ok tt
unfolding validate_payload require_exact_keys nonempty_string nonempty_strings trimmed strip lstrip
    is_space timestamp parse_timestamp aware_utc validate_times validate_submission validate_run
    validate_basis validate_references is_canonical_uuid Json.get
review_valid = refl

review_verified :
    verify_review_bundle library (envelope (text "AAAA")) keys (some (aware 2))
    ≡ ok (bundle review_payload (zeros 3))
unfolding verify_review_bundle
review_verified = rw (review_signed, review_valid) refl

verify_review_bundle-IsTrusted_example :
    IsSigned library keys (envelope (text "AAAA")) (bundle review_payload (zeros 3))
    × IsTimely library review_payload 2
verify_review_bundle-IsTrusted_example =
    verify_review_bundle-IsTrusted library (envelope (text "AAAA")) keys 2
      (bundle review_payload (zeros 3)) review_verified

submission_from-IsRequested_example :
    ((s : Submission) × (submission_from_review_bundle library review_payload ≡ some s)
      × IsRequested s)
    ⊎ IsTooLarge library review_payload
submission_from-IsRequested_example =
    submission_from-IsRequested library (envelope (text "AAAA")) keys (some (aware 2))
      (bundle review_payload (zeros 3)) review_verified

corpus_signed :
    verify_signed_payload library (envelope (text "AAAB")) keys
    ≡ ok (bundle corpus_payload (0 ∷ 0 ∷ 1 ∷ []))
unfolding verify_signed_payload parse_envelope parse_fields require_exact_keys verify_parsed
    decode_key decode_b64url decode_groups Json.get
corpus_signed = refl

corpus_valid : validate_plagiarism_payload library corpus_payload (some (aware 2)) ≡ ok tt
unfolding validate_plagiarism_payload require_exact_keys nonempty_string nonempty_strings trimmed
    strip lstrip is_space timestamp parse_timestamp aware_utc validate_window validate_corpus
    validate_member check_corpus canonical_uuid validate_basis validate_references is_canonical_uuid
    Json.get
corpus_valid = refl

corpus_verified :
    verify_plagiarism_bundle library (envelope (text "AAAB")) keys (some (aware 2))
    ≡ ok (bundle corpus_payload (0 ∷ 0 ∷ 1 ∷ []))
unfolding verify_plagiarism_bundle
corpus_verified = rw (corpus_signed, corpus_valid) refl

submissions_from-IsCorpus_example :
    (target : Text) × (ss : List Submission) × (submissions_from_plagiarism_bundle library
        corpus_payload
      ≡ some (target, ss))
    × (is_canonical_uuid target ≡ true)
    × (0 < length ss)
    × (length ss ≤ 1000)
    × AreDistinct [] ss
    × ((lab : Text) × ((s : Submission) → Memᴰ s ss → s.lab_id ≡ lab))
    × ((s : Submission) × Memᴰ s ss × (s.id ≡ target))
submissions_from-IsCorpus_example =
    submissions_from-IsCorpus library (envelope (text "AAAB")) keys (some (aware 2))
      (bundle corpus_payload (0 ∷ 0 ∷ 1 ∷ [])) corpus_verified
