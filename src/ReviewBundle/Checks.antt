-- ===== src/ReviewBundle/Checks.antt =====
-- The checks of single fields of src/oj_checker/review_bundle.py, and what it takes from elsewhere.

pub mod Laws
use csoj_judger.Prelude.{
  ℕ, suc, Bool, true, false, not, ◌&&◌, ◌||◌, Option, none, some, List, [], ◌∷◌, any, all, is_nil,
  leb, length, ◌==◌, map,
}
use csoj_judger.Prelude.Int.{ℤ, pos, negsuc}
use csoj_judger.Prelude.Order.{Text, text, one_of, ◌===◌, nat_ord, list_ord}
use csoj_judger.Prelude.Result.{Result, ok, err, ◌>>=◌, ◌>>◌, raise_if}
use csoj_judger.Prelude.Text.{strip}
use csoj_judger.Json
use csoj_judger.Json.{Json, null, bool, int, real, str, arr, obj, Fields, end, field, str?}
use csoj_judger.Domain.{Datetime, naive, aware}
use csoj_judger.SubmissionStore.Paths.{is_hex}

-- The messages of `ReviewBundleError`, by what they complain of. `naive_now` stands for the
-- `ValueError` that `_aware_utc` raises.
pub data BundleError : Type 0 where
  envelope_not_json bad_envelope bad_key_id unknown_key bad_base64 bad_public_key : BundleError
  bad_signature payload_not_json payload_not_object bad_field_set unsupported_schema : BundleError
  bad_audience blank_string bad_source bad_nightly_model bad_nonce bad_timestamp : BundleError
  naive_timestamp bad_validity_window outside_validity naive_now not_an_object bad_id : BundleError
  bad_score bad_digest bad_run_id run_not_successful bad_performance bad_references : BundleError
  unsupported_version bad_count not_unique not_one_lab no_target owner_too_long : BundleError

pub data Pem : Type 0 where
  unreadable other_key : Pem
  ed25519 : List ℕ → Pem

-- What the bundles use of libraries: `json.loads` of UTF-8 bytes and of a text, the hexadecimal
-- SHA-256 digest, `datetime.fromisoformat`, `load_pem_public_key`, `Ed25519PublicKey.verify` of a key,
-- a signature and a message, and `float` of an integer, as its text (`none` if it is too large).
pub record Libraries : Type 0 where
  pub loads_bytes : List ℕ → Option Json
  pub loads : Text → Option Json
  pub sha256 : List ℕ → Text
  pub from_iso : Text → Option Datetime
  pub load_pem : Text → Pem
  pub verify : List ℕ → List ℕ → List ℕ → Bool
  pub to_float : ℤ → Option Text

abbrev pub keys_in : List Text → Fields → Bool
keys_in expected end = true
keys_in expected (field k v d) = one_of expected k && keys_in expected d

abbrev pub has_key : Fields → Text → Bool
has_key d k = elim (Json.get d k) [ none ↦ false | some v ↦ true ]

-- `_require_exact_keys`: the sets of keys are equal.
unfoldable pub require_exact_keys : Fields → List Text → Result BundleError (Unit {0})
require_exact_keys d expected =
    raise_if (not (keys_in expected d && all (has_key d) expected)) BundleError.bad_field_set

abbrev pub is_trimmed : Text → Bool
is_trimmed s = not (is_nil (strip s)) && s === strip s

-- `_nonempty_string`.
unfoldable pub trimmed : Option Json → Result BundleError Text
trimmed (some (str s)) = elim (is_trimmed s) [ true ↦ ok s | false ↦ err BundleError.blank_string ]
trimmed _ = err BundleError.blank_string

unfoldable pub nonempty_string : Fields → Text → Result BundleError Text
nonempty_string d key = trimmed (Json.get d key)

unfoldable pub nonempty_strings : Fields → List Text → Result BundleError (Unit {0})
nonempty_strings d [] = ok tt
nonempty_strings d (k ∷ ks) = nonempty_string d k >>= λ _. nonempty_strings d ks

abbrev pub instant_of : Option Datetime → Result BundleError ℕ
instant_of none = err BundleError.bad_timestamp
instant_of (some (naive t)) = err BundleError.naive_timestamp
instant_of (some (aware t)) = ok t

-- `value.replace("Z", "+00:00")`.
abbrev pub replace_z : Text → Text
replace_z [] = []
replace_z (c ∷ s) =
    let rest = replace_z s in
    elim (c == b'Z') [ true ↦ b'+' ∷ b'0' ∷ b'0' ∷ b':' ∷ b'0' ∷ b'0' ∷ rest | false ↦ c ∷ rest ]

module _ (lib : Libraries) where
  -- `_parse_timestamp`.
  unfoldable pub parse_timestamp : Text → Result BundleError ℕ
  parse_timestamp s = instant_of (lib.from_iso (replace_z s))

  abbrev pub timestamp_of : Option Text → Result BundleError ℕ
  timestamp_of none = err BundleError.bad_timestamp
  timestamp_of (some s) = parse_timestamp s

  -- `_timestamp`.
  unfoldable pub timestamp : Fields → Text → Result BundleError ℕ
  timestamp d key = timestamp_of (str? (Json.get d key))

-- `_aware_utc`.
unfoldable pub aware_utc : Datetime → Result BundleError ℕ
aware_utc (naive t) = err BundleError.naive_now
aware_utc (aware t) = ok t

-- `_DIGEST.fullmatch`.
abbrev pub is_digest : Text → Bool
is_digest s = length s == 64 && all is_hex s

abbrev pub is_digest_value : Option Json → Bool
is_digest_value (some (str s)) = is_digest s
is_digest_value _ = false

abbrev pub is_text_value : Text → Option Json → Bool
is_text_value expected (some (str s)) = s === expected
is_text_value expected _ = false

abbrev pub is_object : Option Json → Bool
is_object (some (obj d)) = true
is_object _ = false

abbrev pub is_natural : Option Json → Bool
is_natural (some (int (pos n))) = true
is_natural _ = false

abbrev pub is_positive : Option Json → Bool
is_positive (some (int (pos (suc n)))) = true
is_positive _ = false

-- `15 minutes`, in microseconds.
abbrev pub max_validity : ℕ
max_validity = 900000000
