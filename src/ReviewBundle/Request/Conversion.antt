-- ===== src/ReviewBundle/Request/Conversion.antt =====
-- What the conversion of a verified bundle gives.
use csoj_judger.Prelude.{
  ℕ, suc, ◌≡◌, refl, true, ◌⊎◌, inl, inr, Option, none, some, [], ◌∷◌, map, Memᴰ,
}
use csoj_judger.Prelude.Int.{ℤ, pos}
use csoj_judger.Prelude.Order.{Text, text, ◌===◌, ===_iff, nat_ord, list_ord}
use csoj_judger.Prelude.Result.{ok, returned}
use csoj_judger.Json
use csoj_judger.Json.{Json, null, bool, int, real, str, arr, obj, Fields, str?}
use csoj_judger.Domain.{Datetime, Submission}
use csoj_judger.SubmissionStore.Paths.{is_canonical_uuid}
use csoj_judger.ReviewBundle.Checks.{
  BundleError, Libraries, require_exact_keys, is_trimmed, nonempty_string, nonempty_strings,
  parse_timestamp, timestamp, is_digest, is_digest_value, is_object, is_natural, is_positive,
}
use csoj_judger.ReviewBundle.Checks.Laws.{
  passed, passed_test, string_passed, strings_passed, timestamp_passed, digest_passed,
  object_passed, natural_passed, positive_passed,
}
use csoj_judger.ReviewBundle.Envelope.{Envelope, KeyMaterial, SignedPayload}
use csoj_judger.ReviewBundle.Payload.{
  object, is_uuid_value, is_none_or_natural, is_performance, run_keys, submission_keys,
  validate_run, validate_submission,
}
use csoj_judger.ReviewBundle.Request.{
  optional_int, verify_review_bundle, performance_of, submission_of, submission_from_review_bundle,
}
use csoj_judger.ReviewBundle.Request.Trust.{verified_parts, payload_passed}

-- The performance of the payload's run is an integer for which no float is found: it is too large. Then
-- the conversion raises.
pub data IsTooLarge (lib : Libraries) (payload : Fields) : Type 0 where
  is_too_large :
      (raw run : Fields) (n : ℤ)
      → Json.get payload (text "submission") ≡ some (obj raw)
      → Json.get raw (text "active_run") ≡ some (obj run)
      → Json.get run (text "performance") ≡ some (int n)
      → lib.to_float n ≡ none
      → submission_from_review_bundle lib payload ≡ none
      → IsTooLarge lib payload

pub data IsRequested (s : Submission) : Type 0 where
  is_requested :
      (score run_id : ℕ)
      → is_canonical_uuid s.id ≡ true
      → is_trimmed s.owner ≡ true
      → is_trimmed s.lab_id ≡ true
      → s.score ≡ pos score
      → is_digest s.input_digest ≡ true
      → s.active_run_id ≡ some (pos (suc run_id))
      → s.run_state ≡ some (text "Success")
      → IsRequested s

uuid_passed :
    (o : Option Json)
    → is_uuid_value o ≡ true
    → (s : Text) × (o ≡ some (str s)) × (is_canonical_uuid s ≡ true)
uuid_passed (some (str s)) h = (s, refl, h)
uuid_passed none h = absurd (cc h)
uuid_passed (some null) h = absurd (cc h)
uuid_passed (some (bool x)) h = absurd (cc h)
uuid_passed (some (int x)) h = absurd (cc h)
uuid_passed (some (real x)) h = absurd (cc h)
uuid_passed (some (arr x)) h = absurd (cc h)
uuid_passed (some (obj x)) h = absurd (cc h)

pub object_found : (o : Option Json) {d : Fields} → object o ≡ ok d → o ≡ some (obj d)
object_found (some (obj d)) h = cc h
object_found none h = absurd (cc h)
object_found (some null) h = absurd (cc h)
object_found (some (bool x)) h = absurd (cc h)
object_found (some (int x)) h = absurd (cc h)
object_found (some (real x)) h = absurd (cc h)
object_found (some (str x)) h = absurd (cc h)
object_found (some (arr x)) h = absurd (cc h)

score_converted :
    (o : Option Json)
    → is_none_or_natural o ≡ true
    → (score : Option ℤ) × (optional_int o ≡ some score)
score_converted (some null) h = (none, refl)
score_converted (some (int n)) h = (some n, refl)
score_converted none h = absurd (cc h)
score_converted (some (bool x)) h = absurd (cc h)
score_converted (some (real x)) h = absurd (cc h)
score_converted (some (str x)) h = absurd (cc h)
score_converted (some (arr x)) h = absurd (cc h)
score_converted (some (obj x)) h = absurd (cc h)

module _ (lib : Libraries) where
  -- No float is found for an integer performance.
  abbrev Overflows : Option Json → Type 0
  Overflows o =
      (n : ℤ) × (o ≡ some (int n)) × (lib.to_float n ≡ none) × (performance_of lib o ≡ none)

  performance_converted :
      (o : Option Json)
      → is_performance o ≡ true
      → ((performance : Option Text) × (performance_of lib o ≡ some performance)) ⊎ Overflows o
  performance_converted (some null) h = inl (none, refl)
  performance_converted (some (real r)) h = inl (some r, refl)
  performance_converted (some (int n)) h = float (lib.to_float n) refl
    where
      float :
          (r : Option Text)
          → lib.to_float n ≡ r
          → ((performance : Option Text) × (performance_of lib (some (int n)) ≡ some performance))
            ⊎ Overflows (some (int n))
      float none e = inr (n, refl, e, rw e refl)
      float (some r) e = inl (some r, rw e refl)
  performance_converted none h = absurd (cc h)
  performance_converted (some (bool x)) h = absurd (cc h)
  performance_converted (some (str x)) h = absurd (cc h)
  performance_converted (some (arr x)) h = absurd (cc h)
  performance_converted (some (obj x)) h = absurd (cc h)

  -- The fields of a run that `_validate_submission` accepts.
  data IsRun (run : Fields) : Type 0 where
    is_run :
        (id : ℕ) (state finished : Text) (result_info : Fields) (score : Option ℤ) (finished_at : ℕ)
        → Json.get run (text "id") ≡ some (int (pos (suc id)))
        → Json.get run (text "state") ≡ some (str state)
        → state ≡ text "Success"
        → Json.get run (text "result_info") ≡ some (obj result_info)
        → optional_int (Json.get run (text "score")) ≡ some score
        → is_performance (Json.get run (text "performance")) ≡ true
        → str? (Json.get run (text "finished_at")) ≡ some finished
        → parse_timestamp lib finished ≡ ok finished_at
        → IsRun run

  IsRun-passed : (run : Fields) → validate_run lib run ≡ ok tt → IsRun run
  unfolding validate_run
  IsRun-passed run h =
      let (a1, h1) = passed (require_exact_keys run run_keys) _ h in
      let (a2, h2) =
        passed_test (is_positive (Json.get run (text "id"))) BundleError.bad_run_id _ h1 in
      let (state, a3, h3) = returned (nonempty_string run (text "state")) _ h2 in
      let (a4, h4) = passed_test (state === text "Success") BundleError.run_not_successful _ h3 in
      let (a5, h5) =
        passed_test (is_object (Json.get run (text "result_info"))) BundleError.not_an_object _
          h4 in
      let (a6, h6) =
        passed_test (is_none_or_natural (Json.get run (text "score"))) BundleError.bad_score _ h5 in
      let (a7, h7) =
        passed_test (is_performance (Json.get run (text "performance"))) BundleError.bad_performance
          _ h6 in
      let (finished_at, a8, h8) = returned (timestamp lib run (text "finished_at")) _ h7 in
      let (id, b1) = positive_passed (Json.get run (text "id")) a2 in
      let (info, b2) = object_passed (Json.get run (text "result_info")) a5 in
      let (score, b3) = score_converted (Json.get run (text "score")) a6 in
      let (finished, b4, b5) = timestamp_passed lib run (text "finished_at") a8 in
      is_run id state finished info score finished_at b1 (string_passed run (text "state") a3).0
        ((===_iff state (text "Success")).0 a4) b2 b3 a7 b4 b5

  -- The fields of a submission that `_validate_submission` accepts.
  data IsRaw (raw run : Fields) : Type 0 where
    is_raw :
        (id owner lab_id digest submitted : Text) (score submitted_at : ℕ) (manifest lab : Fields)
        → Json.get raw (text "id") ≡ some (str id)
        → is_canonical_uuid id ≡ true
        → Json.get raw (text "owner") ≡ some (str owner)
        → is_trimmed owner ≡ true
        → Json.get raw (text "lab_id") ≡ some (str lab_id)
        → is_trimmed lab_id ≡ true
        → Json.get raw (text "score") ≡ some (int (pos score))
        → Json.get raw (text "input_digest") ≡ some (str digest)
        → is_digest digest ≡ true
        → str? (Json.get raw (text "submitted_at")) ≡ some submitted
        → parse_timestamp lib submitted ≡ ok submitted_at
        → Json.get raw (text "input_manifest") ≡ some (obj manifest)
        → Json.get raw (text "lab_definition") ≡ some (obj lab)
        → IsRaw raw run

  submission_passed :
      (o : Option Json)
      → validate_submission lib o ≡ ok tt
      → (raw run : Fields) × (o ≡ some (obj raw))
        × (Json.get raw (text "active_run") ≡ some (obj run))
        × IsRaw raw run
        × IsRun run
  unfolding validate_submission
  submission_passed o h =
      let (raw, a1, h1) = returned (object o) _ h in
      let (a2, h2) = passed (require_exact_keys raw submission_keys) _ h1 in
      let (a3, h3) =
        passed_test (is_uuid_value (Json.get raw (text "id"))) BundleError.bad_id _ h2 in
      let (a4, h4) = passed (nonempty_strings raw (map text ("owner" ∷ "lab_id" ∷ []))) _ h3 in
      let (a5, h5) =
        passed_test (is_natural (Json.get raw (text "score"))) BundleError.bad_score _ h4 in
      let (a6, h6) =
        passed_test (is_digest_value (Json.get raw (text "input_digest"))) BundleError.bad_digest _
          h5 in
      let (submitted_at, a7, h7) = returned (timestamp lib raw (text "submitted_at")) _ h6 in
      let (a8, h8) =
        passed_test (is_object (Json.get raw (text "input_manifest"))) BundleError.not_an_object _
          h7 in
      let (a9, h9) =
        passed_test (is_object (Json.get raw (text "lab_definition"))) BundleError.not_an_object _
          h8 in
      let (run, b1, g1) = returned (object (Json.get raw (text "active_run"))) _ h9 in
      let (id, c1, c2) = uuid_passed (Json.get raw (text "id")) a3 in
      let (owner, c3, c4) =
        strings_passed raw (map text ("owner" ∷ "lab_id" ∷ [])) a4 (Memᴰ.head refl) in
      let (lab_id, c5, c6) =
        strings_passed raw (map text ("owner" ∷ "lab_id" ∷ [])) a4 (Memᴰ.tail (Memᴰ.head refl)) in
      let (score, c7) = natural_passed (Json.get raw (text "score")) a5 in
      let (digest, c8, c9) = digest_passed (Json.get raw (text "input_digest")) a6 in
      let (submitted, d1, d2) = timestamp_passed lib raw (text "submitted_at") a7 in
      let (manifest, d3) = object_passed (Json.get raw (text "input_manifest")) a8 in
      let (lab, d4) = object_passed (Json.get raw (text "lab_definition")) a9 in
      (
        raw,
        run,
        object_found o a1,
        object_found (Json.get raw (text "active_run")) b1,
        is_raw id owner lab_id digest submitted score submitted_at manifest lab c1 c2 c3 c4 c5 c6 c7
            c8 c9 d1 d2 d3 d4,
        IsRun-passed run g1,
      )

  converted_parts :
      (raw run : Fields)
      → IsRaw raw run
      → IsRun run
      → ((s : Submission) × (submission_of lib raw run ≡ some s) × IsRequested s)
        ⊎ (Overflows (Json.get run (text "performance")) × (submission_of lib raw run ≡ none))
  unfolding submission_of
  converted_parts raw run
        (is_raw id owner lab_id digest submitted score submitted_at manifest lab c1 c2 c3 c4 c5 c6
          c7 c8 c9 d1 d2 d3 d4)
        (is_run run_id state finished info run_score finished_at e1 e2 e3 e4 e5 e6 e7 e8) =
      elim (performance_converted (Json.get run (text "performance")) e6) [
        | inl (performance, p) ↦ inl (
          record {
            id = id;
            owner = owner;
            lab_id = lab_id;
            score = pos score;
            input_digest = digest;
            submitted_at = submitted_at;
            input_manifest = manifest;
            lab_definition = lab;
            active_run_id = some (pos (suc run_id));
            run_state = some state;
            run_result_info = info;
            run_failure_class = none;
            run_failure_reason = none;
            run_score = run_score;
            run_performance = performance;
            run_finished_at = some finished_at;
            status = text "Success";
            is_valid = true;
          },
          rw (c1, c3, c5, c7, c8, d1, d2, d3, d4, e1, e2, e4, e5, p, e7, e8) refl,
          is_requested score run_id c2 c4 c6 refl c9 refl (cc e3),
        )
        | inr (n, a, b, p) ↦
            inr ((n, a, b, p), rw (c1, c3, c5, c7, c8, d1, d2, d3, d4, e1, e2, e4, e5, p) refl)
      ]

  -- Every verified bundle, of whatever payload, gives a submission, or the performance of its run is an
  -- integer that is too large for a float, and the conversion raises. The submission has a canonical
  -- UUID, trimmed texts that are not blank as its owner and lab, a score of zero or more, a SHA-256
  -- digest, and a successful run with a positive id.
  pub submission_from-IsRequested :
      (envelope : Envelope) (public_keys : Text → Option KeyMaterial) (now : Option Datetime)
      (b : SignedPayload)
      → verify_review_bundle lib envelope public_keys now ≡ ok b
      → ((s : Submission) × (submission_from_review_bundle lib b.payload ≡ some s) × IsRequested s)
        ⊎ IsTooLarge lib b.payload
  unfolding submission_from_review_bundle
  submission_from-IsRequested envelope public_keys now b h =
      let (_, v) = verified_parts lib envelope public_keys now h in
      let (_, w, _) = payload_passed lib b.payload now v in
      let (raw, run, r, a, c, d) = submission_passed (Json.get b.payload (text "submission")) w in
      elim (converted_parts raw run c d) [
        | inl (s, e, q) ↦ inl (s, rw (r, a) e, q)
        | inr ((n, x, y, z), e) ↦ inr (is_too_large raw run n r a x y (rw (r, a) e))
      ]
