-- ===== src/Examples/Ledger.antt =====
-- One review in an empty ledger. The texts that the libraries give are short constants.
use csoj_judger.Prelude.{◌≡◌, refl, true, some, [], ◌∷◌}
use csoj_judger.Prelude.Order.{text, nat_ord, list_ord}
use csoj_judger.Prelude.Dict
use csoj_judger.Prelude.Result.{ok}
use csoj_judger.Json
use csoj_judger.Json.{Json, str, obj, bool, Fields, end, fields}
use csoj_judger.ReviewLedger.{
  Codec, CompletedReview, ReviewIdentity, compliance, Files, FilePath, path_of, payload_of,
  review_dict, record_review, write_create_only, path, key, lookup, is_safe_component,
  identity_dict,
}
use csoj_judger.ReviewLedger.RoundTrip.{
  IsOutcome, agrees, IsSame, record_review-IsOutcome, lookup-record_review,
}

abbrev identity : ReviewIdentity
identity = record {
  task_type = compliance;
  submission_ids = text "s1" ∷ [];
  input_digests = text "d1" ∷ [];
  source_delta_digests = text "e1" ∷ [];
  lab_id = text "lab2";
  basis_commit = text "c";
  basis_tree_digest = text "t";
  document_digest = text "d";
  lab_definition_digest = text "l";
  rules_version = text "r";
  prompt_version = text "p";
  schema_version = text "v1";
  model = text "glm";
  model_parameters = [];
  task_parameters = [];
}

abbrev review : CompletedReview
review = record {
  identity = identity;
  completed_at = 30;
  verdict = end;
  model_response_digest = text "m";
  conclusive = true;
  evidence = end;
}

abbrev stored : Fields
stored = fields (
    (text "evidence", obj end)
    ∷ (text "verdict", obj end)
    ∷ (text "conclusive", bool true)
    ∷ (text "review_key", str (text "abc"))
    ∷ (text "completed_at", str (text "now"))
    ∷ (text "identity", obj (identity_dict identity))
    ∷ (text "model_response_digest", str (text "m"))
    ∷ [])

abbrev codec : Codec
codec = record {
  dumps = λ v. text "json";
  loads = λ t. some (obj stored);
  sha256 = λ t. text "abc";
  isoformat = λ t. text "now";
  fromisoformat = λ t. some 30;
  show = λ o. [];
}

abbrev place : FilePath
place = path_of identity (text "abc")

abbrev filled : Files
filled = (place, payload_of codec review) ∷ []

it_is_recorded : record_review codec [] review ≡ (filled, ok place)
unfolding record_review path write_create_only is_safe_component key Dict.get Dict.put
it_is_recorded = refl

-- A ledger that holds another text for the review.
abbrev occupied : Files
occupied = (place, text "other") ∷ []

record_review-IsOutcome_example :
    IsOutcome codec occupied
      (record_review codec occupied review).0
      review
      (record_review codec occupied review).1
record_review-IsOutcome_example = record_review-IsOutcome codec occupied review

it_agrees : agrees stored (review_dict codec review) ≡ true
unfolding Json.get identity_dict key
it_agrees = refl

lookup-record_review_example :
    (found : CompletedReview) × (lookup codec filled identity ≡ ok (some found))
    × IsSame review found
lookup-record_review_example =
    lookup-record_review codec [] filled review place stored it_is_recorded refl it_agrees refl
