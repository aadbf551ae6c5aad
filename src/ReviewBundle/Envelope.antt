-- ===== src/ReviewBundle/Envelope.antt =====
-- The envelope of src/oj_checker/review_bundle.py: `_parse_envelope`, `_decode_key` and
-- `_verify_signed_payload`.

pub mod Signature
use csoj_judger.Prelude.{
  ℕ, Bool, true, false, not, ◌&&◌, ◌||◌, Option, none, some, List, [], ◌∷◌, map, all, leb, length,
  ◌==◌, if◌then◌else◌,
}
use csoj_judger.Prelude.Order.{Text, text}
use csoj_judger.Prelude.Result.{Result, ok, err, ◌>>=◌, ◌>>◌, raise_if}
use csoj_judger.Json
use csoj_judger.Json.{Json, null, bool, int, real, str, arr, obj, Fields}
use csoj_judger.ReviewBundle.Checks.{
  BundleError, Pem, unreadable, other_key, ed25519, Libraries, require_exact_keys,
}
use csoj_judger.ReviewBundle.Base64.{is_alphanumeric, decode_b64url}

-- What a caller passes as the envelope: bytes, a text, or a mapping.
pub data Envelope : Type 0 where
  of_bytes : List ℕ → Envelope
  of_text : Text → Envelope
  of_mapping : Fields → Envelope

pub record ParsedEnvelope : Type 0 where
  pub payload : Text
  pub key_id : Text
  pub signature : Text

-- `_KEY_ID.fullmatch`.
abbrev pub is_key_id : Text → Bool
is_key_id s =
    leb 1 (length s)
    && leb (length s) 64
    && all (λ c. is_alphanumeric c || c == b'.' || c == b'_' || c == b'-') s

abbrev pub json_object : Option Json → Result BundleError Fields
json_object none = err BundleError.envelope_not_json
json_object (some (obj d)) = ok d
json_object (some _) = err BundleError.bad_envelope

abbrev pub string_value : Option Json → Result BundleError Text
string_value (some (str s)) = ok s
string_value _ = err BundleError.bad_envelope

abbrev pub envelope_keys : List Text
envelope_keys = map text ("payload" ∷ "key_id" ∷ "signature" ∷ [])

abbrev pub key_id_value : Option Json → Result BundleError Text
key_id_value (some (str s)) = if is_key_id s then ok s else err BundleError.bad_key_id
key_id_value _ = err BundleError.bad_key_id

unfoldable pub parse_fields : Fields → Result BundleError ParsedEnvelope
parse_fields d = do
  require_exact_keys d envelope_keys
  payload ← string_value (Json.get d (text "payload"))
  signature ← string_value (Json.get d (text "signature"))
  key_id ← key_id_value (Json.get d (text "key_id"))
  ok (record { payload = payload; key_id = key_id; signature = signature })

-- A key as the configuration gives it.
pub data KeyMaterial : Type 0 where
  raw_bytes : List ℕ → KeyMaterial
  key_text : Text → KeyMaterial

abbrev pub pem_key : Pem → Result BundleError (List ℕ)
pem_key unreadable = err BundleError.bad_public_key
pem_key other_key = err BundleError.bad_public_key
pem_key (ed25519 bytes) = ok bytes

abbrev pub starts_with : Text → Text → Bool
starts_with [] s = true
starts_with (c ∷ p) [] = false
starts_with (c ∷ p) (d ∷ s) = c == d && starts_with p s

abbrev pub key_bytes : Libraries → KeyMaterial → Result BundleError (List ℕ)
key_bytes lib (raw_bytes bytes) = ok bytes
key_bytes lib (key_text s) =
    if starts_with (text "-----BEGIN PUBLIC KEY-----") s
    then pem_key (lib.load_pem s)
    else decode_b64url s

-- `_decode_key`.
unfoldable pub decode_key : Libraries → KeyMaterial → Result BundleError (List ℕ)
decode_key lib material = do
  decoded ← key_bytes lib material
  raise_if (not (length decoded == 32)) BundleError.bad_public_key
  ok decoded

abbrev pub known_key : Option KeyMaterial → Result BundleError KeyMaterial
known_key none = err BundleError.unknown_key
known_key (some material) = ok material

abbrev pub payload_object : Option Json → Result BundleError Fields
payload_object none = err BundleError.payload_not_json
payload_object (some (obj d)) = ok d
payload_object (some _) = err BundleError.payload_not_object

pub record SignedPayload : Type 0 where
  pub payload : Fields
  pub payload_bytes : List ℕ
  pub payload_digest : Text
  pub key_id : Text

module _ (lib : Libraries) where
  -- `_parse_envelope`.
  unfoldable pub parse_envelope : Envelope → Result BundleError ParsedEnvelope
  parse_envelope (of_bytes bytes) = json_object (lib.loads_bytes bytes) >>= parse_fields
  parse_envelope (of_text s) = json_object (lib.loads s) >>= parse_fields
  parse_envelope (of_mapping d) = parse_fields d

  -- `_verify_signed_payload` of the parsed envelope.
  unfoldable pub verify_parsed :
      (Text → Option KeyMaterial) → ParsedEnvelope → Result BundleError SignedPayload
  verify_parsed public_keys e = do
    material ← known_key (public_keys e.key_id)
    public_key ← decode_key lib material
    payload_bytes ← decode_b64url e.payload
    signature ← decode_b64url e.signature
    raise_if (not (length signature == 64)) BundleError.bad_signature
    raise_if (not (lib.verify public_key signature payload_bytes)) BundleError.bad_signature
    payload ← payload_object (lib.loads_bytes payload_bytes)
    ok (record {
      payload = payload;
      payload_bytes = payload_bytes;
      payload_digest = lib.sha256 payload_bytes;
      key_id = e.key_id;
    })

  -- `_verify_signed_payload`.
  unfoldable pub verify_signed_payload :
      Envelope → (Text → Option KeyMaterial) → Result BundleError SignedPayload
  verify_signed_payload envelope public_keys =
      parse_envelope envelope >>= λ e. verify_parsed public_keys e
