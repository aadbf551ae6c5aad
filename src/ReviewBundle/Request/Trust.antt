-- ===== src/ReviewBundle/Request/Trust.antt =====
-- What a verified bundle can be trusted for: its signature, and the time at which it is used.
use csoj_judger.Prelude.{
  ℕ, ◌+◌, ◌-◌, ◌≤◌, ◌<◌, ◌≡◌, refl, not, ◌&&◌, ◌||◌, Option, some, leb, ltb, arith,
}
use csoj_judger.Prelude.Order.{Text, text, ◌===◌, nat_ord, list_ord}
use csoj_judger.Prelude.Result.{ok, returned, ok_injective}
use csoj_judger.Json
use csoj_judger.Json.{Fields}
use csoj_judger.Domain.{Datetime, aware}
use csoj_judger.ReviewBundle.Checks.{
  BundleError, Libraries, require_exact_keys, nonempty_string, nonempty_strings, timestamp,
  aware_utc, is_text_value, max_validity,
}
use csoj_judger.ReviewBundle.Checks.Laws.{not_raised, passed, passed_test, passed_guard}
use csoj_judger.ReviewBundle.Envelope.{Envelope, KeyMaterial, SignedPayload, verify_signed_payload}
use csoj_judger.ReviewBundle.Envelope.Signature.{IsSigned, verify_signed_payload-IsSigned}
use csoj_judger.ReviewBundle.Payload.{
  payload_keys, is_nonce, validate_times, validate_submission, validate_basis, validate_payload,
}
use csoj_judger.ReviewBundle.Request.{verify_review_bundle}

-- The payload is used within its validity, which lasts 15 minutes at most.
pub data IsTimely (lib : Libraries) (payload : Fields) (now : ℕ) : Type 0 where
  is_timely :
      (issued_at expires_at : ℕ)
      → timestamp lib payload (text "issued_at") ≡ ok issued_at
      → timestamp lib payload (text "expires_at") ≡ ok expires_at
      → issued_at ≤ now
      → now < expires_at
      → expires_at ≤ issued_at + 900000000
      → IsTimely lib payload now

module _ (lib : Libraries) where
  pub times_passed :
      (payload : Fields) (now : ℕ)
      → validate_times lib payload (some (aware now)) ≡ ok tt
      → IsTimely lib payload now
  unfolding validate_times aware_utc
  times_passed payload now h =
      let (issued_at, i, h1) = returned (timestamp lib payload (text "issued_at")) _ h in
      let (expires_at, e, h2) = returned (timestamp lib payload (text "expires_at")) _ h1 in
      let (a, h3) = passed_guard (leb expires_at issued_at) BundleError.bad_validity_window _ h2 in
      let (b, h4) =
        passed_guard (ltb max_validity (expires_at - issued_at)) BundleError.bad_validity_window _
          h3 in
      let c =
        not_raised (ltb now issued_at || leb expires_at now) BundleError.outside_validity h4 in
      is_timely issued_at expires_at i e (ground (arith, c)) (ground (arith, c))
        (ground (arith, a, b))

  pub payload_passed :
      (payload : Fields) (now : Option Datetime)
      → validate_payload lib payload now ≡ ok tt
      → (validate_times lib payload now ≡ ok tt)
        × (validate_submission lib (Json.get payload (text "submission")) ≡ ok tt)
        × (validate_basis (Json.get payload (text "basis")) ≡ ok tt)
  unfolding validate_payload
  payload_passed payload now h =
      let (a1, h1) = passed (require_exact_keys payload payload_keys) _ h in
      let (a2, h2) =
        passed_test
          (is_text_value (text "review-bundle-v1") (Json.get payload (text "schema_version")))
          BundleError.unsupported_schema _ h1 in
      let (a3, h3) =
        passed_test (is_text_value (text "oj-checker") (Json.get payload (text "audience")))
          BundleError.bad_audience _ h2 in
      let (model, a4, h4) = returned (nonempty_string payload (text "model")) _ h3 in
      let (source, a5, h5) = returned (nonempty_string payload (text "source")) _ h4 in
      let (a6, h6) =
        passed_test (source === text "manual" || source === text "nightly") BundleError.bad_source _
          h5 in
      let (a7, h7) =
        passed_guard (source === text "nightly" && not (model === text "glm-5.3"))
          BundleError.bad_nightly_model _ h6 in
      let (a8, h8) = passed (nonempty_strings payload _) _ h7 in
      let (nonce, a9, h9) = returned (nonempty_string payload (text "nonce")) _ h8 in
      let (b1, g1) = passed_test (is_nonce nonce) BundleError.bad_nonce _ h9 in
      let (b2, g2) = passed (validate_times lib payload now) _ g1 in
      let (b3, g3) = passed (validate_submission lib (Json.get payload (text "submission"))) _ g2 in
      (b2, b3, g3)

  pub verified_parts :
      (envelope : Envelope) (public_keys : Text → Option KeyMaterial) (now : Option Datetime)
      {b : SignedPayload}
      → verify_review_bundle lib envelope public_keys now ≡ ok b
      → (verify_signed_payload lib envelope public_keys ≡ ok b)
        × (validate_payload lib b.payload now ≡ ok tt)
  unfolding verify_review_bundle
  verified_parts envelope public_keys now {b} h =
      let (c, s, h1) = returned (verify_signed_payload lib envelope public_keys) _ h in
      let (v, h2) = passed (validate_payload lib c.payload now) _ h1 in
      (cc (s, h2), cc (v, ok_injective _ refl h2))

  -- A bundle that is verified at the instant `now` comes from an envelope whose signature, of 64 bytes,
  -- the known key of its key id confirms for exactly the payload's bytes; its payload is the JSON object
  -- in those bytes and its digest their digest. `now` lies between its `issued_at`, inclusively, and its
  -- `expires_at`, exclusively, which are 15 minutes apart at most.
  pub verify_review_bundle-IsTrusted :
      (envelope : Envelope) (public_keys : Text → Option KeyMaterial) (now : ℕ) (b : SignedPayload)
      → verify_review_bundle lib envelope public_keys (some (aware now)) ≡ ok b
      → IsSigned lib public_keys envelope b × IsTimely lib b.payload now
  verify_review_bundle-IsTrusted envelope public_keys now b h =
      let (s, v) = verified_parts envelope public_keys (some (aware now)) h in
      let (t, _, _) = payload_passed b.payload (some (aware now)) v in
      (verify_signed_payload-IsSigned lib envelope public_keys s, times_passed b.payload now t)
