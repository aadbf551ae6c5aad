-- ===== src/ReviewBundle/Envelope/Signature.antt =====
-- What a payload that `_verify_signed_payload` returns went through.
use csoj_judger.Prelude.{
  ℕ, ◌≡◌, refl, subst, true, not, Option, none, some, List, length, ◌==◌, arith,
}
use csoj_judger.Prelude.Order.{Text}
use csoj_judger.Prelude.Result.{ok, ◌>>◌, raise_if, returned, ok_injective}
use csoj_judger.Json.{Json, null, bool, int, real, str, arr, obj, Fields}
use csoj_judger.ReviewBundle.Checks.{BundleError, Libraries}
use csoj_judger.ReviewBundle.Checks.Laws.{passed_test}
use csoj_judger.ReviewBundle.Base64.{decode_b64url}
use csoj_judger.ReviewBundle.Envelope.{
  Envelope, ParsedEnvelope, KeyMaterial, SignedPayload, known_key, key_bytes, decode_key,
  payload_object, parse_envelope, verify_parsed, verify_signed_payload,
}

-- The signature of an envelope: the payload is the JSON object in the very bytes that the key signed.
pub data IsSigned (lib : Libraries) (public_keys : Text → Option KeyMaterial) (envelope : Envelope)
    (b : SignedPayload) : Type 0 where
  is_signed :
      (e : ParsedEnvelope) (material : KeyMaterial) (public_key signature : List ℕ)
      → parse_envelope lib envelope ≡ ok e
      → b.key_id ≡ e.key_id
      → public_keys e.key_id ≡ some material
      → decode_key lib material ≡ ok public_key
      → length public_key ≡ 32
      → decode_b64url e.payload ≡ ok b.payload_bytes
      → decode_b64url e.signature ≡ ok signature
      → length signature ≡ 64
      → lib.verify public_key signature b.payload_bytes ≡ true
      → lib.loads_bytes b.payload_bytes ≡ some (obj b.payload)
      → b.payload_digest ≡ lib.sha256 b.payload_bytes
      → IsSigned lib public_keys envelope b

key_known : (o : Option KeyMaterial) {m : KeyMaterial} → known_key o ≡ ok m → o ≡ some m
key_known none h = absurd (cc h)
key_known (some material) h = cc h

object_read : (o : Option Json) {d : Fields} → payload_object o ≡ ok d → o ≡ some (obj d)
object_read none h = absurd (cc h)
object_read (some (obj d)) h = cc h
object_read (some null) h = absurd (cc h)
object_read (some (bool x)) h = absurd (cc h)
object_read (some (int x)) h = absurd (cc h)
object_read (some (real x)) h = absurd (cc h)
object_read (some (str x)) h = absurd (cc h)
object_read (some (arr x)) h = absurd (cc h)

module _ (lib : Libraries) where
  key_length :
      (material : KeyMaterial) {key : List ℕ} → decode_key lib material ≡ ok key → length key ≡ 32
  unfolding decode_key
  key_length material h =
      let (d, a, b) =
        returned (key_bytes lib material)
          (λ d. raise_if (not (length d == 32)) BundleError.bad_public_key >> ok d) h in
      let (c, e) = passed_test (length d == 32) BundleError.bad_public_key (ok d) b in
      ground (arith, c, e)

  pub verify_signed_payload-IsSigned :
      (envelope : Envelope) (public_keys : Text → Option KeyMaterial) {b : SignedPayload}
      → verify_signed_payload lib envelope public_keys ≡ ok b
      → IsSigned lib public_keys envelope b
  unfolding verify_signed_payload verify_parsed
  verify_signed_payload-IsSigned envelope public_keys {b} h =
      let (e, p, h1) = returned (parse_envelope lib envelope) (verify_parsed lib public_keys) h in
      let (material, m, h2) = returned (known_key (public_keys e.key_id)) _ h1 in
      let (public_key, k, h3) = returned (decode_key lib material) _ h2 in
      let (bytes, y, h4) = returned (decode_b64url e.payload) _ h3 in
      let (signature, s, h5) = returned (decode_b64url e.signature) _ h4 in
      let (l, h6) = passed_test (length signature == 64) BundleError.bad_signature _ h5 in
      let (v, h7) =
        passed_test (lib.verify public_key signature bytes) BundleError.bad_signature _ h6 in
      let (payload, j, h8) = returned (payload_object (lib.loads_bytes bytes)) _ h7 in
      subst (IsSigned lib public_keys envelope) (ok_injective _ refl h8) (
        is_signed e material public_key signature p refl (key_known (public_keys e.key_id) m) k
          (key_length material k) y s (leb_64 l) v (object_read (lib.loads_bytes bytes) j) refl)
    where
      leb_64 : {n : ℕ} → (n == 64) ≡ true → n ≡ 64
      leb_64 h = ground arith
