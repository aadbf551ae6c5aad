-- ===== src/ReviewLedger.antt =====
-- src/oj_checker/review_ledger.py: the cache of completed reviews, over a tree of create-only files
-- (src/oj_checker/immutable_store.py). A path below the root is the list of its components.
pub mod RoundTrip
use csoj_judger.Prelude.{
  ℕ, zero, suc, ◌+◌, Bool, true, false, not, ◌&&◌, ◌||◌, Option, none, some, List, [], ◌∷◌, ◌++◌,
  length, map, all, leb, ◌==◌, take, if◌then◌else◌,
}
use csoj_judger.Prelude.Order.{Text, text, ◌<=◌, ◌===◌, nat_ord, list_ord}
use csoj_judger.Prelude.Dict
use csoj_judger.Prelude.Dict.{Dict, put}
use csoj_judger.Prelude.Result.{Result, ok, err, ◌>>=◌, ◌>>◌, raise_if}
use csoj_judger.Json
use csoj_judger.Json.{
  Json, str, arr, obj, bool, Fields, end, fields, items, json_eq, mapping?, str?,
}

pub data ReviewTaskType : Type 0 where
  compliance plagiarism : ReviewTaskType

pub record ReviewIdentity : Type 0 where
  pub task_type : ReviewTaskType
  pub submission_ids : List Text
  pub input_digests : List Text
  pub source_delta_digests : List Text
  pub lab_id : Text
  pub basis_commit : Text
  pub basis_tree_digest : Text
  pub document_digest : Text
  pub lab_definition_digest : Text
  pub rules_version : Text
  pub prompt_version : Text
  pub schema_version : Text
  pub model : Text
  pub model_parameters : List (Text × Json)
  pub task_parameters : List (Text × Json)

pub data LedgerError : Type 0 where
  no_submission digest_counts parameters_not_sorted unsafe_schema_version : LedgerError
  invalid_json identity_mismatch key_mismatch malformed_verdict invalid_timestamp : LedgerError
  malformed_digest malformed_evidence not_conclusive conflict : LedgerError

-- `tuple(sorted(p)) == p`. Values count under equal keys only, which the items of a dictionary do not
-- have.
abbrev pub follows : Text → List (Text × Json) → Bool
follows k [] = true
follows k ((j, v) ∷ rest) = k <= j

abbrev pub is_sorted : List (Text × Json) → Bool
is_sorted [] = true
is_sorted ((k, v) ∷ rest) = follows k rest && is_sorted rest

-- `ReviewIdentity.__post_init__`.
unfoldable pub check_identity : ReviewIdentity → Result LedgerError (Unit {0})
check_identity i = do
  raise_if (length i.submission_ids == 0) no_submission
  raise_if
      (not (length i.input_digests == length i.submission_ids)
        || not (length i.source_delta_digests == length i.submission_ids))
      digest_counts
  raise_if (not (is_sorted i.model_parameters)) parameters_not_sorted
  raise_if (not (is_sorted i.task_parameters)) parameters_not_sorted
  ok tt

pub record CompletedReview : Type 0 where
  pub identity : ReviewIdentity
  pub completed_at : ℕ
  pub verdict : Fields
  pub model_response_digest : Text
  pub conclusive : Bool
  pub evidence : Fields

-- The libraries: `json.dumps` with sorted keys, `json.loads`, the hexadecimal SHA-256 of a text,
-- `isoformat` and `fromisoformat` of an instant, and `str` of a value that is no text.
pub record Codec : Type 0 where
  pub dumps : Json → Text
  pub loads : Text → Option Json
  pub sha256 : Text → Text
  pub isoformat : ℕ → Text
  pub fromisoformat : Text → Option ℕ
  pub show : Option Json → Text

abbrev pub task_type_text : ReviewTaskType → Text
task_type_text compliance = text "compliance"
task_type_text plagiarism = text "plagiarism"

abbrev pub texts : List Text → Json
texts ts = arr (items (map str ts))

-- `ReviewIdentity.to_dict`.
unfoldable pub identity_dict : ReviewIdentity → Fields
identity_dict i = fields (
    (text "task_type", str (task_type_text i.task_type))
    ∷ (text "submission_ids", texts i.submission_ids)
    ∷ (text "input_digests", texts i.input_digests)
    ∷ (text "source_delta_digests", texts i.source_delta_digests)
    ∷ (text "lab_id", str i.lab_id)
    ∷ (text "basis_commit", str i.basis_commit)
    ∷ (text "basis_tree_digest", str i.basis_tree_digest)
    ∷ (text "document_digest", str i.document_digest)
    ∷ (text "lab_definition_digest", str i.lab_definition_digest)
    ∷ (text "rules_version", str i.rules_version)
    ∷ (text "prompt_version", str i.prompt_version)
    ∷ (text "schema_version", str i.schema_version)
    ∷ (text "model", str i.model)
    ∷ (text "model_parameters", obj (fields i.model_parameters))
    ∷ (text "task_parameters", obj (fields i.task_parameters))
    ∷ [])

-- `ReviewIdentity.key`.
unfoldable pub key : Codec → ReviewIdentity → Text
key c i = c.sha256 (c.dumps (obj (identity_dict i)))

-- `CompletedReview.to_dict`.
abbrev pub review_dict : Codec → CompletedReview → Fields
review_dict c r = fields (
    (text "review_key", str (key c r.identity))
    ∷ (text "identity", obj (identity_dict r.identity))
    ∷ (text "completed_at", str (c.isoformat r.completed_at))
    ∷ (text "verdict", obj r.verdict)
    ∷ (text "model_response_digest", str r.model_response_digest)
    ∷ (text "conclusive", bool r.conclusive)
    ∷ (text "evidence", obj r.evidence)
    ∷ [])

abbrev pub is_alphanumeric : ℕ → Bool
is_alphanumeric c = (leb 48 c && leb c 57) || ((leb 65 c && leb c 90) || (leb 97 c && leb c 122))

abbrev pub is_component_char : ℕ → Bool
is_component_char c = is_alphanumeric c || (c == 46 || (c == 95 || c == 45))

-- `_SAFE_COMPONENT.fullmatch`.
unfoldable pub is_safe_component : Text → Bool
is_safe_component [] = false
is_safe_component (c ∷ s) = is_alphanumeric c && (leb (length s) 127 && all is_component_char s)

abbrev pub FilePath : Type 0
FilePath = List Text

abbrev pub path_of : ReviewIdentity → Text → FilePath
path_of i key =
    text "cache" ∷ text "review" ∷ i.schema_version ∷ take 2 key ∷ (key ++ text ".json") ∷ []

unfoldable pub path : Codec → ReviewIdentity → Result LedgerError FilePath
path c i =
    if is_safe_component i.schema_version
    then ok (path_of i (key c i))
    else err unsafe_schema_version

abbrev pub Files : Type 0
Files = Dict FilePath Text

abbrev pub write_over : Files → FilePath → Text → Option Text → Files × Result LedgerError FilePath
write_over files target payload none = (put files target payload, ok target)
write_over files target payload (some old) =
    if old === payload then (files, ok target) else (files, err conflict)

-- `write_create_only`.
unfoldable pub write_create_only : Files → FilePath → Text → Files × Result LedgerError FilePath
write_create_only files target payload = write_over files target payload (Dict.get files target)

abbrev pub payload_of : Codec → CompletedReview → Text
payload_of c r = c.dumps (obj (review_dict c r)) ++ (10 ∷ [])

abbrev pub record_at :
    Codec
    → Files
    → CompletedReview
    → Result LedgerError FilePath
    → Files × Result LedgerError FilePath
record_at c files r (err e) = (files, err e)
record_at c files r (ok target) = write_create_only files target (payload_of c r)

-- `FileReviewLedger.record`.
unfoldable pub record_review : Codec → Files → CompletedReview → Files × Result LedgerError FilePath
record_review c files r =
    if r.conclusive then record_at c files r (path c r.identity) else (files, err not_conclusive)

-- The parts of a stored review.
abbrev pub equals : Option Json → Json → Bool
equals none v = false
equals (some w) v = json_eq w v

abbrev pub is_true : Option Json → Bool
is_true (some (bool true)) = true
is_true _ = false

abbrev pub shown : Codec → Option Json → Text
shown c (some (str s)) = s
shown c v = c.show v

abbrev pub required : {A : Type 0} → Option A → LedgerError → Result LedgerError A
required none e = err e
required (some a) e = ok a

abbrev pub or_empty : Option Json → Option Json
or_empty none = some (obj end)
or_empty (some v) = some v

abbrev pub stored_review :
    Codec → ReviewIdentity → Fields → Result LedgerError (Option CompletedReview)
stored_review c i stored = do
  verdict ← required (mapping? (Json.get stored (text "verdict"))) malformed_verdict
  at ←
      required (c.fromisoformat (shown c (Json.get stored (text "completed_at")))) invalid_timestamp
  digest ← required (str? (Json.get stored (text "model_response_digest"))) malformed_digest
  evidence ← required (mapping? (or_empty (Json.get stored (text "evidence")))) malformed_evidence
  ok (
      some (record {
        identity = i;
        completed_at = at;
        verdict = verdict;
        model_response_digest = digest;
        conclusive = true;
        evidence = evidence;
      }))

abbrev pub review_from :
    Codec → ReviewIdentity → Option Fields → Result LedgerError (Option CompletedReview)
review_from c i none = err identity_mismatch
review_from c i (some stored) =
    if not (equals (Json.get stored (text "identity")) (obj (identity_dict i)))
    then err identity_mismatch
    else if not (equals (Json.get stored (text "review_key")) (str (key c i)))
    then err key_mismatch
    else if not (is_true (Json.get stored (text "conclusive")))
    then ok none
    else stored_review c i stored

abbrev pub lookup_text :
    Codec → ReviewIdentity → Option Text → Result LedgerError (Option CompletedReview)
lookup_text c i none = ok none
lookup_text c i (some content) = elim (c.loads content) [
  | none ↦ err invalid_json
  | some v ↦ review_from c i (mapping? (some v))
]

abbrev pub lookup_at :
    Codec
    → Files
    → ReviewIdentity
    → Result LedgerError FilePath
    → Result LedgerError (Option CompletedReview)
lookup_at c files i (err e) = err e
lookup_at c files i (ok target) = lookup_text c i (Dict.get files target)

-- `FileReviewLedger.lookup`.
unfoldable pub lookup : Codec → Files → ReviewIdentity → Result LedgerError (Option CompletedReview)
lookup c files i = lookup_at c files i (path c i)
