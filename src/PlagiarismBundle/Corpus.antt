-- ===== src/PlagiarismBundle/Corpus.antt =====
-- The submissions that a verified request names.
use csoj_judger.Prelude.{
  ℕ, suc, ◌≤◌, ◌<◌, ◌≡◌, refl, sym, subst, ap, ◌⊎◌, inl, inr, true, false, Option, none, some, List,
  [], ◌∷◌, Memᴰ, ltb, length, arith, ◌∙◌, Bool-cases,
}
use csoj_judger.Prelude.Int.{pos}
use csoj_judger.Prelude.Order.{Text, text, one_of, ◌===◌, ===_iff, nat_ord, list_ord}
use csoj_judger.Prelude.Result.{ok, returned, ok_injective}
use csoj_judger.Json
use csoj_judger.Json.{Json, null, bool, int, real, str, arr, obj, Fields, end, list?, str?}
use csoj_judger.Domain.{Datetime, Submission}
use csoj_judger.SubmissionStore.Paths.{is_canonical_uuid}
use csoj_judger.ReviewBundle.Checks.{
  BundleError, Libraries, require_exact_keys, nonempty_string, nonempty_strings, parse_timestamp,
  timestamp, is_digest_value, is_text_value, is_object, is_natural,
}
use csoj_judger.ReviewBundle.Checks.Laws.{
  passed, passed_test, passed_guard, string_passed, timestamp_passed, digest_passed, object_passed,
  natural_passed,
}
use csoj_judger.ReviewBundle.Envelope.{Envelope, KeyMaterial, SignedPayload, verify_signed_payload}
use csoj_judger.ReviewBundle.Payload.{object, is_nonce}
use csoj_judger.ReviewBundle.Request.Conversion.{object_found}
use csoj_judger.PlagiarismBundle.{
  canonical_uuid, corpus_list, member_keys, corpus_keys, same_lab, validate_member, check_corpus,
  validate_corpus, validate_window, validate_plagiarism_payload, verify_plagiarism_bundle,
  member_of, members_of, submissions_from_plagiarism_bundle,
}

-- No id stands twice, nor among those seen before.
pub data AreDistinct : List Text → List Submission → Type 0 where
  no_more : {seen : List Text} → AreDistinct seen []
  one_more :
      {seen : List Text} {s : Submission} {rest : List Submission}
      → one_of seen s.id ≡ false
      → AreDistinct (s.id ∷ seen) rest
      → AreDistinct seen (s ∷ rest)

uuid_found :
    (o : Option Json) {s : Text}
    → canonical_uuid o ≡ ok s
    → (o ≡ some (str s)) × (is_canonical_uuid s ≡ true)
unfolding canonical_uuid
uuid_found (some (str s)) h = ground arith
uuid_found none h = absurd (cc h)
uuid_found (some null) h = absurd (cc h)
uuid_found (some (bool x)) h = absurd (cc h)
uuid_found (some (int x)) h = absurd (cc h)
uuid_found (some (real x)) h = absurd (cc h)
uuid_found (some (arr x)) h = absurd (cc h)
uuid_found (some (obj x)) h = absurd (cc h)

option_injective : {v w : Json} → some v ≡ some w → v ≡ w
option_injective h = cc h

list_found :
    (o : Option (List Json)) {xs : List Json}
    → corpus_list o ≡ ok xs
    → (o ≡ some xs) × (0 < length xs) × (length xs ≤ 1000)
list_found none h = absurd (cc h)
list_found (some []) h = absurd (cc h)
list_found (some (x ∷ xs)) h = ground arith

module _ (lib : Libraries) where
  member_built :
      (lab_definition d : Fields) {id owner lab_id digest submitted : Text} {score at : ℕ}
      {manifest : Fields}
      → Json.get d (text "id") ≡ some (str id)
      → Json.get d (text "owner") ≡ some (str owner)
      → Json.get d (text "lab_id") ≡ some (str lab_id)
      → Json.get d (text "score") ≡ some (int (pos score))
      → Json.get d (text "input_digest") ≡ some (str digest)
      → str? (Json.get d (text "submitted_at")) ≡ some submitted
      → parse_timestamp lib submitted ≡ ok at
      → Json.get d (text "input_manifest") ≡ some (obj manifest)
      → (s : Submission) × (member_of lib lab_definition (obj d) ≡ some s)
        × (s.id ≡ id)
        × (s.lab_id ≡ lab_id)
  unfolding member_of
  member_built lab_definition d {id} {owner} {lab_id} {digest} {submitted} {score} {at} {manifest}
        c1 c2 c3 c4 c5 c6 c7 c8 =
      (
        record {
          id = id;
          owner = owner;
          lab_id = lab_id;
          score = pos score;
          input_digest = digest;
          submitted_at = at;
          input_manifest = manifest;
          lab_definition = lab_definition;
          active_run_id = none;
          run_state = none;
          run_result_info = end;
          run_failure_class = none;
          run_failure_reason = none;
          run_score = none;
          run_performance = none;
          run_finished_at = none;
          status = text "Success";
          is_valid = true;
        },
        rw (c1, c2, c3, c4, c5, c6, c7, c8) refl,
        refl,
        refl,
      )

  member_passed :
      (lab_definition : Fields) (v : Json) {p : Text × Text}
      → validate_member lib v ≡ ok p
      → (s : Submission) × (member_of lib lab_definition v ≡ some s)
        × (s.id ≡ p.0)
        × (s.lab_id ≡ p.1)
  unfolding validate_member
  member_passed lab_definition v h =
      let (d, a1, h1) = returned (object (some v)) _ h in
      let (a2, h2) = passed (require_exact_keys d member_keys) _ h1 in
      let (id, a3, h3) = returned (canonical_uuid (Json.get d (text "id"))) _ h2 in
      let (owner, a4, h4) = returned (nonempty_string d (text "owner")) _ h3 in
      let (a5, h5) = passed_guard (ltb 256 (length owner)) BundleError.owner_too_long _ h4 in
      let (lab_id, a6, h6) = returned (nonempty_string d (text "lab_id")) _ h5 in
      let (a7, h7) =
        passed_test (is_natural (Json.get d (text "score"))) BundleError.bad_score _ h6 in
      let (a8, h8) =
        passed_test (is_digest_value (Json.get d (text "input_digest"))) BundleError.bad_digest _
          h7 in
      let (at, a9, h9) = returned (timestamp lib d (text "submitted_at")) _ h8 in
      let (b1, g1) =
        passed_test (is_object (Json.get d (text "input_manifest"))) BundleError.not_an_object _
          h9 in
      let (score, c1) = natural_passed (Json.get d (text "score")) a7 in
      let (digest, c2, c3) = digest_passed (Json.get d (text "input_digest")) a8 in
      let (submitted, c4, c5) = timestamp_passed lib d (text "submitted_at") a9 in
      let (manifest, c6) = object_passed (Json.get d (text "input_manifest")) b1 in
      let e : (id, lab_id) ≡ _ = ok_injective _ refl g1 in
      let (s, m, k, l) =
        member_built lab_definition d (uuid_found (Json.get d (text "id")) a3).0
          (string_passed d (text "owner") a4).0 (string_passed d (text "lab_id") a6).0 c1 c2 c4 c5
          c6 in
      (
        s,
        subst (λ w. member_of lib lab_definition w ≡ some s)
            (option_injective (sym (object_found (some v) a1))) m,
        k ∙ ap (λ p. p.0) e,
        l ∙ ap (λ p. p.1) e,
      )

  -- What the loop leaves: submissions of one lab with distinct ids, and among the ids that it has seen
  -- are theirs and those seen before.
  members_passed :
      (lab_definition : Fields) (lab : Text) (seen : List Text) (raws : List Json)
      {all_seen : List Text}
      → check_corpus lib seen (some lab) raws ≡ ok all_seen
      → (ss : List Submission) × (members_of lib lab_definition raws ≡ some ss)
        × (length ss ≡ length raws)
        × AreDistinct seen ss
        × ((s : Submission) → Memᴰ s ss → s.lab_id ≡ lab)
        × ((x : Text)
            → one_of all_seen x ≡ true
            → (one_of seen x ≡ true) ⊎ ((s : Submission) × Memᴰ s ss × (s.id ≡ x)))
  unfolding check_corpus members_of
  members_passed lab_definition lab seen [] h =
      ([], refl, refl, no_more, λ s m. elim m [ ], λ x t. inl (cc (t, h)))
  members_passed lab_definition lab seen (v ∷ vs) {all_seen} h =
      let (p, a1, h1) = returned (validate_member lib v) _ h in
      let (a2, h2) = passed_guard (one_of seen p.0) BundleError.not_unique _ h1 in
      let (a3, h3) = passed_test (same_lab (some lab) p.1) BundleError.not_one_lab _ h2 in
      let (s, b1, b2, b3) = member_passed lab_definition v a1 in
      let (ss, c1, c2, c3, c4, c5) = members_passed lab_definition lab (p.0 ∷ seen) vs h3 in
      (
        s ∷ ss,
        rw (b1, c1) refl,
        ap suc c2,
        one_more (rw b2 a2) (rw b2 c3),
        of_lab s ss (b3 ∙ (===_iff p.1 lab).0 a3) c4,
        λ x t. seen_of s ss p.0 b2 x (c5 x t),
      )
    where
      of_lab :
          (s : Submission) (ss : List Submission)
          → s.lab_id ≡ lab
          → ((r : Submission) → Memᴰ r ss → r.lab_id ≡ lab)
          → (r : Submission) → Memᴰ r (s ∷ ss)
          → r.lab_id ≡ lab
      of_lab s ss e f r (Memᴰ.head q) = ap (λ (t : Submission). t.lab_id) q ∙ e
      of_lab s ss e f r (Memᴰ.tail m) = f r m

      seen_of :
          (s : Submission) (ss : List Submission) (k : Text)
          → s.id ≡ k
          → (x : Text) → (one_of (k ∷ seen) x ≡ true) ⊎ ((r : Submission) × Memᴰ r ss × (r.id ≡ x))
          → (one_of seen x ≡ true) ⊎ ((r : Submission) × Memᴰ r (s ∷ ss) × (r.id ≡ x))
      seen_of s ss k e x (inr (r, m, q)) = inr (r, Memᴰ.tail m, q)
      seen_of s ss k e x (inl t) = elim (Bool-cases (k === x)) [
        | inl q ↦ inr (s, Memᴰ.head refl, e ∙ (===_iff k x).0 q)
        | inr q ↦ inl (ground (arith, t, q))
      ]

  -- As above, for the loop as it starts, on a list that is not empty.
  corpus_passed :
      (lab_definition : Fields) (raws : List Json) {all_seen : List Text}
      → 0 < length raws
      → check_corpus lib [] none raws ≡ ok all_seen
      → (ss : List Submission) × (members_of lib lab_definition raws ≡ some ss)
        × (length ss ≡ length raws)
        × AreDistinct [] ss
        × ((lab : Text) × ((s : Submission) → Memᴰ s ss → s.lab_id ≡ lab))
        × ((x : Text) → one_of all_seen x ≡ true → (s : Submission) × Memᴰ s ss × (s.id ≡ x))
  unfolding check_corpus members_of
  corpus_passed lab_definition [] p h = absurd (omega arith)
  corpus_passed lab_definition (v ∷ vs) p h =
      let (r, a1, h1) = returned (validate_member lib v) _ h in
      let (s, b1, b2, b3) = member_passed lab_definition v a1 in
      let (ss, c1, c2, c3, c4, c5) = members_passed lab_definition r.1 (r.0 ∷ []) vs h1 in
      (
        s ∷ ss,
        rw (b1, c1) refl,
        ap suc c2,
        one_more refl (rw b2 c3),
        (r.1, of_lab r.1 s ss b3 c4),
        λ x t. seen_of s ss r.0 b2 x (c5 x t),
      )
    where
      of_lab :
          (lab : Text) (s : Submission) (ss : List Submission)
          → s.lab_id ≡ lab
          → ((r : Submission) → Memᴰ r ss → r.lab_id ≡ lab)
          → (r : Submission) → Memᴰ r (s ∷ ss)
          → r.lab_id ≡ lab
      of_lab lab s ss e f r (Memᴰ.head q) = ap (λ (t : Submission). t.lab_id) q ∙ e
      of_lab lab s ss e f r (Memᴰ.tail m) = f r m

      seen_of :
          (s : Submission) (ss : List Submission) (k : Text)
          → s.id ≡ k
          → (x : Text) → (one_of (k ∷ []) x ≡ true) ⊎ ((r : Submission) × Memᴰ r ss × (r.id ≡ x))
          → (r : Submission) × Memᴰ r (s ∷ ss) × (r.id ≡ x)
      seen_of s ss k e x (inr (r, m, q)) = (r, Memᴰ.tail m, q)
      seen_of s ss k e x (inl t) = (s, Memᴰ.head refl, e ∙ (===_iff k x).0 (ground (arith, t)))

  payload_corpus :
      (payload : Fields) (now : Option Datetime)
      → validate_plagiarism_payload lib payload now ≡ ok tt
      → validate_corpus lib payload ≡ ok tt
  unfolding validate_plagiarism_payload
  payload_corpus payload now h =
      let (a1, h1) = passed (require_exact_keys payload corpus_keys) _ h in
      let (a2, h2) =
        passed_test
          (is_text_value (text "plagiarism-review-bundle-v1")
            (Json.get payload (text "schema_version")))
          BundleError.unsupported_schema _ h1 in
      let (a3, h3) =
        passed_test (is_text_value (text "oj-checker") (Json.get payload (text "audience")))
          BundleError.bad_audience _ h2 in
      let (model, a4, h4) = returned (nonempty_string payload (text "model")) _ h3 in
      let (source, a5, h5) = returned (nonempty_string payload (text "source")) _ h4 in
      let (a6, h6) = passed_test (source === text "manual") BundleError.bad_source _ h5 in
      let (a7, h7) = passed (nonempty_strings payload _) _ h6 in
      let (a8, h8) =
        passed_test
          (is_text_value (text "plagiarism-v2") (Json.get payload (text "prompt_version")))
          BundleError.unsupported_version _ h7 in
      let (a9, h9) =
        passed_test
          (is_text_value (text "plagiarism-result-v1")
            (Json.get payload (text "result_schema_version")))
          BundleError.unsupported_version _ h8 in
      let (nonce, b1, g1) = returned (nonempty_string payload (text "nonce")) _ h9 in
      let (b2, g2) = passed_test (is_nonce nonce) BundleError.bad_nonce _ g1 in
      let (b3, g3) = passed (validate_window lib payload now) _ g2 in g3

  corpus_parts :
      (payload : Fields)
      → validate_corpus lib payload ≡ ok tt
      → (target : Text) × (raws : List Json) × (seen : List Text) × (lab_definition : Fields)
        × (Json.get payload (text "target_submission_id") ≡ some (str target))
        × (is_canonical_uuid target ≡ true)
        × (list? (Json.get payload (text "submissions")) ≡ some raws)
        × (0 < length raws)
        × (length raws ≤ 1000)
        × (check_corpus lib [] none raws ≡ ok seen)
        × (one_of seen target ≡ true)
        × (Json.get payload (text "lab_definition") ≡ some (obj lab_definition))
  unfolding validate_corpus
  corpus_parts payload h =
      let (target, a1, h1) =
        returned (canonical_uuid (Json.get payload (text "target_submission_id"))) _ h in
      let (raws, a2, h2) =
        returned (corpus_list (list? (Json.get payload (text "submissions")))) _ h1 in
      let (seen, a3, h3) = returned (check_corpus lib [] none raws) _ h2 in
      let (a4, h4) = passed_test (one_of seen target) BundleError.no_target _ h3 in
      let (a5, h5) =
        passed_test (is_object (Json.get payload (text "lab_definition"))) BundleError.not_an_object
          _ h4 in
      let (b1, b2) = uuid_found (Json.get payload (text "target_submission_id")) a1 in
      let (b3, b4, b5) = list_found (list? (Json.get payload (text "submissions"))) a2 in
      let (lab_definition, b6) = object_passed (Json.get payload (text "lab_definition")) a5 in
      (target, raws, seen, lab_definition, b1, b2, b3, b4, b5, a3, a4, b6)

  -- A verified request gives its target and its submissions: 1 to 1000 of them, with distinct ids, all
  -- of one lab, and the target, which is a canonical UUID, is the id of one of them.
  pub submissions_from-IsCorpus :
      (envelope : Envelope) (public_keys : Text → Option KeyMaterial) (now : Option Datetime)
      (b : SignedPayload)
      → verify_plagiarism_bundle lib envelope public_keys now ≡ ok b
      → (target : Text) × (ss : List Submission) × (submissions_from_plagiarism_bundle lib b.payload
          ≡ some (target, ss))
        × (is_canonical_uuid target ≡ true)
        × (0 < length ss)
        × (length ss ≤ 1000)
        × AreDistinct [] ss
        × ((lab : Text) × ((s : Submission) → Memᴰ s ss → s.lab_id ≡ lab))
        × ((s : Submission) × Memᴰ s ss × (s.id ≡ target))
  unfolding verify_plagiarism_bundle submissions_from_plagiarism_bundle
  submissions_from-IsCorpus envelope public_keys now b h =
      let (c, a1, h1) = returned (verify_signed_payload lib envelope public_keys) _ h in
      let (a2, h2) = passed (validate_plagiarism_payload lib c.payload now) _ h1 in
      let v : validate_plagiarism_payload lib b.payload now ≡ ok tt =
        subst (λ (x : SignedPayload). validate_plagiarism_payload lib x.payload now ≡ ok tt)
          (ok_injective _ refl h2) a2 in
      let (target, raws, seen, lab_definition, b1, b2, b3, b4, b5, b6, b7, b8) =
        corpus_parts b.payload (payload_corpus b.payload now v) in
      let (ss, c1, c2, c3, c4, c5) = corpus_passed lab_definition raws b4 b6 in
      (target, ss, rw (b8, b3, c1, b1) refl, b2, rw c2 b4, rw c2 b5, c3, c4, c5 target b7)
