-- ===== src/Similarity/Data.antt =====
-- The data of src/oj_checker/similarity.py. A Jaccard score is the exact fraction of the two counts
-- that the code divides, and the threshold is a fraction too; they are compared by cross products.
use csoj_judger.Prelude.{ℕ, ◌*◌, ◌%◌, Bool, not, ◌||◌, Option, List, leb, ltb, ◌==◌, if◌then◌else◌}
use csoj_judger.Prelude.Order.{Text, ◌<=◌, ◌===◌, nat_ord, list_ord, pair_ord}
use csoj_judger.Prelude.Result.{Result, ok, ◌>>◌, raise_if}
use csoj_judger.Domain.{Submission}

pub record BaselineDeltaHunk : Type 0 where
  pub old_start : ℕ
  pub old_count : ℕ
  pub new_start : ℕ
  pub new_count : ℕ
  pub lines : Text

pub record BaselineDeltaFile : Type 0 where
  pub path : Text
  pub added_text : Text
  pub removed_text : Text
  pub hunks : List BaselineDeltaHunk
  pub baseline_kind : Text
  pub baseline_revision : Option Text

pub record BaselineDelta : Type 0 where
  pub submission_id : Text
  pub files : List BaselineDeltaFile
  pub incomplete : Bool
  pub digest : Text

pub data SimilaritySignal : Type 0 where
  exact_submission exact_delta minhash exhaustive_jaccard : SimilaritySignal

pub record Fraction : Type 0 where
  pub num : ℕ
  pub den : ℕ

-- `a >= b`.
abbrev pub at_least : Fraction → Fraction → Bool
at_least a b = leb (b.num * a.den) (a.num * b.den)

pub record SimilarityPolicy : Type 0 where
  pub jaccard_threshold : Fraction
  pub shingle_size : ℕ
  pub num_permutations : ℕ
  pub band_size : ℕ

pub data SimilarityError : Type 0 where
  threshold_out_of_range shingle_size_not_positive dimensions_not_positive : SimilarityError
  not_divisible ids_do_not_match target_not_unique : SimilarityError

-- `SimilarityPolicy.__post_init__`.
unfoldable pub check_policy : SimilarityPolicy → Result SimilarityError (Unit {0})
check_policy p = do
  raise_if (ltb p.jaccard_threshold.den p.jaccard_threshold.num) threshold_out_of_range
  raise_if (p.shingle_size == 0) shingle_size_not_positive
  raise_if (p.num_permutations == 0 || p.band_size == 0) dimensions_not_positive
  raise_if (not (p.num_permutations % p.band_size == 0)) not_divisible
  ok tt

pub record SimilarityDocument : Type 0 where
  pub submission : Submission
  pub delta : BaselineDelta

-- `SimilarityDocument.__post_init__`.
unfoldable pub similarity_document :
    Submission → BaselineDelta → Result SimilarityError SimilarityDocument
similarity_document submission delta = do
  raise_if (not (submission.id === delta.submission_id)) ids_do_not_match
  ok (record { submission = submission; delta = delta })

pub record SimilarityCandidate : Type 0 where
  pub lab_id : Text
  pub submission_ids : Text × Text
  pub signal : SimilaritySignal
  pub jaccard : Fraction
  pub delta_digests : Text × Text

pub record SimilarityExclusion : Type 0 where
  pub submission_id : Text
  pub lab_id : Text
  pub reason : Text
  pub skipped_layers : List Text

pub record CandidateSet : Type 0 where
  pub candidates : List SimilarityCandidate
  pub exclusions : List SimilarityExclusion

-- `_pair_key`.
unfoldable pub pair_key : Submission → Submission → Text × Text
pair_key first second =
    if first.id <= second.id then (first.id, second.id) else (second.id, first.id)

abbrev pub seniority : SimilarityDocument → ℕ × Text
seniority d = (d.submission.submitted_at, d.submission.id)

abbrev pub candidate_of :
    SimilarityDocument
    → SimilarityDocument
    → Text
    → SimilaritySignal
    → Fraction
    → SimilarityCandidate
candidate_of a b lab signal score = record {
  lab_id = lab;
  submission_ids = (a.submission.id, b.submission.id);
  signal = signal;
  jaccard = score;
  delta_digests = (a.delta.digest, b.delta.digest);
}

-- `_candidate`: the earlier submission stands first.
unfoldable pub candidate :
    SimilarityDocument → SimilarityDocument → SimilaritySignal → Fraction → SimilarityCandidate
candidate first second signal score =
    if seniority first <= seniority second
    then candidate_of first second first.submission.lab_id signal score
    else candidate_of second first first.submission.lab_id signal score

abbrev pub corpus_order : SimilarityDocument → Text × (ℕ × Text)
corpus_order d = (d.submission.lab_id, (d.submission.submitted_at, d.submission.id))
