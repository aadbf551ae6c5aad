-- ===== src/Similarity/Target.antt =====
-- `detect_for_submission` of src/oj_checker/similarity.py: one target against the whole corpus.
pub mod Laws
use csoj_judger.Prelude.{
  ℕ, zero, suc, Bool, true, false, not, ◌&&◌, ◌||◌, Option, none, some, List, [], ◌∷◌, is_nil, keep,
  ◌==◌, if◌then◌else◌,
}
use csoj_judger.Prelude.Order.{Text, text, ◌===◌, nat_ord, list_ord, pair_ord}
use csoj_judger.Prelude.Sort.{sort_by}
use csoj_judger.Prelude.Result.{Result, ok, err}
use csoj_judger.Similarity.Data.{
  SimilarityDocument, SimilarityPolicy, SimilarityError, target_not_unique, SimilaritySignal,
  exact_submission, exact_delta, exhaustive_jaccard, SimilarityCandidate, SimilarityExclusion,
  CandidateSet, Fraction, at_least, candidate, corpus_order,
}
use csoj_judger.Similarity.Shingles.{Shingle, delta_shingles, jaccard}

abbrev pub Position : Type 0
Position = ℕ × SimilarityDocument

-- `enumerate(documents)`, from an index on.
abbrev pub enumerate : ℕ → List SimilarityDocument → List Position
enumerate n [] = []
enumerate n (d ∷ ds) = (n, d) ∷ enumerate (suc n) ds

abbrev pub has_files : SimilarityDocument → Bool
has_files d = not (is_nil d.delta.files)

-- `delta.files or delta.incomplete`.
abbrev pub has_change : SimilarityDocument → Bool
has_change d = has_files d || d.delta.incomplete

abbrev pub both_complete : SimilarityDocument → SimilarityDocument → Bool
both_complete target other = not target.delta.incomplete && not other.delta.incomplete

abbrev pub both_shingled : List Shingle → List Shingle → Bool
both_shingled a b = not (is_nil a) && not (is_nil b)

-- The chain of tests that gives the pair's signal.
unfoldable pub signal_of :
    SimilarityPolicy
    → SimilarityDocument
    → SimilarityDocument
    → List Shingle
    → List Shingle
    → Option SimilaritySignal
signal_of policy target other a b =
    if target.submission.input_digest === other.submission.input_digest
      && (has_change target && has_change other)
    then some exact_submission
    else if target.delta.digest === other.delta.digest
        && (has_files target
            && (has_files other && (both_complete target other && both_shingled a b)))
    then some exact_delta
    else if both_complete target other
        && (both_shingled a b && at_least (jaccard a b) policy.jaccard_threshold)
    then some exhaustive_jaccard
    else none

-- The test that skips a document.
abbrev pub is_skipped : Position → Position → Bool
is_skipped (i, target) (j, other) =
    j == i
    || (not (other.submission.lab_id === target.submission.lab_id)
        || other.submission.owner === target.submission.owner)

abbrev pub with_signal :
    SimilarityDocument
    → SimilarityDocument
    → Fraction
    → Option SimilaritySignal
    → Option SimilarityCandidate
with_signal target other score none = none
with_signal target other score (some signal) = some (candidate target other signal score)

unfoldable pub candidate_for :
    (Text → List Text)
    → SimilarityPolicy
    → SimilarityDocument
    → SimilarityDocument
    → Option SimilarityCandidate
candidate_for find_tokens policy target other =
    let a = delta_shingles find_tokens target.delta policy in
    let b = delta_shingles find_tokens other.delta policy in
    with_signal target other (jaccard a b) (signal_of policy target other a b)

abbrev pub add_some :
    Option SimilarityCandidate → List SimilarityCandidate → List SimilarityCandidate
add_some none cs = cs
add_some (some c) cs = c ∷ cs

unfoldable pub target_loop :
    (Text → List Text) → SimilarityPolicy → Position → List Position → List SimilarityCandidate
target_loop find_tokens policy target [] = []
target_loop find_tokens policy target (other ∷ others) =
    let rest = target_loop find_tokens policy target others in
    if is_skipped target other
    then rest
    else add_some (candidate_for find_tokens policy target.1 other.1) rest

-- The documents that the exact-delta and the approximate layers leave out.
abbrev pub exclude : List Text → SimilarityDocument → SimilarityExclusion
exclude layers d = record {
  submission_id = d.submission.id;
  lab_id = d.submission.lab_id;
  reason = text "incomplete_baseline_delta";
  skipped_layers = layers;
}

unfoldable pub exclusions_of : List Text → List SimilarityDocument → List SimilarityExclusion
exclusions_of layers [] = []
exclusions_of layers (d ∷ ds) =
    let rest = exclusions_of layers ds in
    if d.delta.incomplete then exclude layers d ∷ rest else rest

abbrev pub is_target : Text → Position → Bool
is_target id (i, d) = d.submission.id === id

abbrev pub candidate_ids : SimilarityCandidate → Text × Text
candidate_ids c = c.submission_ids

abbrev pub target_set :
    (Text → List Text) → SimilarityPolicy → List SimilarityDocument → Position → CandidateSet
target_set find_tokens policy ordered target = record {
  candidates = sort_by candidate_ids (target_loop find_tokens policy target (enumerate 0 ordered));
  exclusions = exclusions_of (text "exact_delta" ∷ text "exhaustive_jaccard" ∷ []) ordered;
}

abbrev pub detect_target :
    (Text → List Text)
    → SimilarityPolicy
    → List SimilarityDocument
    → List Position
    → Result SimilarityError CandidateSet
detect_target find_tokens policy ordered (target ∷ []) =
    ok (target_set find_tokens policy ordered target)
detect_target find_tokens policy ordered _ = err target_not_unique

unfoldable pub detect_for_submission :
    (Text → List Text)
    → Text
    → List SimilarityDocument
    → SimilarityPolicy
    → Result SimilarityError CandidateSet
detect_for_submission find_tokens target_submission_id documents policy =
    let ordered = sort_by corpus_order documents in
    detect_target find_tokens policy ordered
      (keep (is_target target_submission_id) (enumerate 0 ordered))
