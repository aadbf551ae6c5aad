-- ===== src/Similarity/Corpus.antt =====
-- `detect` of src/oj_checker/similarity.py: the search among all documents. A document's index goes
-- with the document and its shingles. One process computes the signatures: with several, the
-- executor's `map` gives the same values in the same order.
use csoj_judger.Prelude.{
  ℕ, zero, suc, ◌*◌, ◌/◌, Bool, true, false, not, ◌&&◌, ◌||◌, Option, none, some, List, [], ◌∷◌,
  ◌++◌, map, is_nil, take, drop, if◌then◌else◌,
}
use csoj_judger.Prelude.Order.{Text, text, ◌===◌, nat_ord, list_ord, pair_ord}
use csoj_judger.Prelude.Sort.{sort_by}
use csoj_judger.Prelude.Dict.{Dict, get, put, values}
use csoj_judger.Similarity.Data.{
  SimilarityDocument, SimilarityPolicy, SimilaritySignal, exact_submission, exact_delta, minhash,
  SimilarityCandidate, CandidateSet, at_least, pair_key, candidate, corpus_order,
}
use csoj_judger.Similarity.Shingles.{Shingle, delta_shingles, jaccard, minhash_signature}
use csoj_judger.Similarity.Target.{has_files, has_change, exclusions_of}

pub record Indexed : Type 0 where
  pub index : ℕ
  pub document : SimilarityDocument
  pub shingles : List Shingle

abbrev pub index_from :
    (Text → List Text) → SimilarityPolicy → ℕ → List SimilarityDocument → List Indexed
index_from find_tokens policy n [] = []
index_from find_tokens policy n (d ∷ ds) =
    (record { index = n; document = d; shingles = delta_shingles find_tokens d.delta policy })
    ∷ index_from find_tokens policy (suc n) ds

-- A `defaultdict(list)`.
abbrev pub group_of : Option (List Indexed) → List Indexed
group_of none = []
group_of (some members) = members

abbrev pub Groups : Type 0
Groups = Dict (Text × Text) (List Indexed)

abbrev pub add_member : Groups → Text × Text → Indexed → Groups
add_member groups key x = put groups key (group_of (get groups key) ++ (x ∷ []))

-- `combinations(xs, 2)`.
abbrev pub combinations : List Indexed → List (Indexed × Indexed)
combinations [] = []
combinations (x ∷ xs) = map (λ y. (x, y)) xs ++ combinations xs

abbrev pub Selected : Type 0
Selected = Dict (Text × Text) SimilarityCandidate

abbrev pub select_pair :
    SimilaritySignal → Selected → Indexed → Indexed → Option SimilarityCandidate → Selected
select_pair signal selected a b (some old) = selected
select_pair signal selected a b none =
    put selected (pair_key a.document.submission b.document.submission)
      (candidate a.document b.document signal (jaccard a.shingles b.shingles))

abbrev pub add_pairs : SimilaritySignal → Selected → List (Indexed × Indexed) → Selected
add_pairs signal selected [] = selected
add_pairs signal selected ((a, b) ∷ pairs) =
    add_pairs signal
      (select_pair signal selected a b
        (get selected (pair_key a.document.submission b.document.submission)))
      pairs

-- The first member of each owner.
abbrev pub set_default : Dict Text Indexed → Text → Indexed → Option Indexed → Dict Text Indexed
set_default owners owner x none = put owners owner x
set_default owners owner x (some y) = owners

abbrev pub representatives : Dict Text Indexed → List Indexed → Dict Text Indexed
representatives owners [] = owners
representatives owners (x ∷ xs) =
    let owner = x.document.submission.owner in
    representatives (set_default owners owner x (get owners owner)) xs

abbrev pub add_groups : SimilaritySignal → Selected → List (List Indexed) → Selected
add_groups signal selected [] = selected
add_groups signal selected (members ∷ groups) =
    add_groups signal
      (add_pairs signal selected (combinations (values (representatives [] members)))) groups

-- The test and the grouping of `_add_exact_candidates`.
abbrev pub is_grouped :
    (SimilarityDocument → Text) → (SimilarityDocument → Bool) → Bool → Indexed → Bool
is_grouped key eligible require_shingles x =
    not (is_nil (key x.document))
    && (eligible x.document && (not (is_nil x.shingles) || not require_shingles))

abbrev pub exact_groups :
    (SimilarityDocument → Text)
    → (SimilarityDocument → Bool)
    → Bool
    → Groups
    → List Indexed
    → Groups
exact_groups key eligible require_shingles groups [] = groups
exact_groups key eligible require_shingles groups (x ∷ xs) =
    exact_groups key eligible require_shingles
      (if is_grouped key eligible require_shingles x
        then add_member groups (x.document.submission.lab_id, key x.document) x
        else groups)
      xs

-- `_add_exact_candidates`.
unfoldable pub add_exact_candidates :
    List Indexed
    → Selected
    → (SimilarityDocument → Text)
    → (SimilarityDocument → Bool)
    → Bool
    → SimilaritySignal
    → Selected
add_exact_candidates xs selected key eligible require_shingles signal =
    add_groups signal selected (values (exact_groups key eligible require_shingles [] xs))

-- `_signatures`, for one document.
unfoldable pub signature_of : (Text → ℕ) → ℕ → Indexed → List ℕ
signature_of blake2b num_permutations x =
    if is_nil x.shingles || x.document.delta.incomplete
    then []
    else minhash_signature blake2b x.shingles num_permutations

abbrev pub Buckets : Type 0
Buckets = Dict (Text × (ℕ × List ℕ)) (List Indexed)

abbrev pub add_to_bucket : Buckets → Text × (ℕ × List ℕ) → Indexed → Buckets
add_to_bucket buckets key x = put buckets key (group_of (get buckets key) ++ (x ∷ []))

-- The bands of one signature: `count` of them, from `band` on.
abbrev pub add_bands : ℕ → ℕ → ℕ → Buckets → Indexed → List ℕ → Buckets
add_bands size zero band buckets x signature = buckets
add_bands size (suc count) band buckets x signature =
    add_bands size count (suc band)
      (add_to_bucket buckets
        (x.document.submission.lab_id, (band, take size (drop (band * size) signature))) x)
      x signature

abbrev pub fill_buckets : (Text → ℕ) → SimilarityPolicy → Buckets → List Indexed → Buckets
fill_buckets blake2b policy buckets [] = buckets
fill_buckets blake2b policy buckets (x ∷ xs) =
    let signature = signature_of blake2b policy.num_permutations x in
    fill_buckets blake2b policy
      (if is_nil signature
        then buckets
        else add_bands policy.band_size (policy.num_permutations / policy.band_size) 0 buckets x
            signature)
      xs

abbrev pub all_pairs : List (List Indexed) → List (Indexed × Indexed)
all_pairs [] = []
all_pairs (members ∷ groups) = combinations members ++ all_pairs groups

abbrev pub pair_indices : Indexed × Indexed → ℕ × ℕ
pair_indices (a, b) = (a.index, b.index)

-- The pairs of one bucket at least, in order. A pair of several buckets stands here as often, and
-- its later tests change nothing.
unfoldable pub approximate_pairs :
    (Text → ℕ) → SimilarityPolicy → List Indexed → List (Indexed × Indexed)
approximate_pairs blake2b policy xs =
    sort_by pair_indices (all_pairs (values (fill_buckets blake2b policy [] xs)))

abbrev pub is_approximate : SimilarityPolicy → Indexed → Indexed → Bool
is_approximate policy a b =
    not (a.document.submission.owner === b.document.submission.owner)
    && at_least (jaccard a.shingles b.shingles) policy.jaccard_threshold

unfoldable pub add_approximate : SimilarityPolicy → Selected → List (Indexed × Indexed) → Selected
add_approximate policy selected [] = selected
add_approximate policy selected ((a, b) ∷ pairs) =
    let kept = add_approximate policy selected pairs in
    let added =
      add_approximate policy
        (select_pair minhash selected a b
          (get selected (pair_key a.document.submission b.document.submission)))
        pairs in
    if is_approximate policy a b then added else kept

abbrev pub lab_and_ids : SimilarityCandidate → Text × (Text × Text)
lab_and_ids c = (c.lab_id, c.submission_ids)

abbrev pub input_digest_of : SimilarityDocument → Text
input_digest_of d = d.submission.input_digest

abbrev pub delta_digest_of : SimilarityDocument → Text
delta_digest_of d = d.delta.digest

abbrev pub has_whole_change : SimilarityDocument → Bool
has_whole_change d = has_files d && not d.delta.incomplete

-- `detect`.
unfoldable pub detect :
    (Text → List Text) → (Text → ℕ) → List SimilarityDocument → SimilarityPolicy → CandidateSet
detect find_tokens blake2b documents policy =
    let ordered = sort_by corpus_order documents in
    let xs = index_from find_tokens policy 0 ordered in
    let same = add_exact_candidates xs [] input_digest_of has_change false exact_submission in
    let alike = add_exact_candidates xs same delta_digest_of has_whole_change true exact_delta in
    record {
      candidates =
          sort_by lab_and_ids
            (values (add_approximate policy alike (approximate_pairs blake2b policy xs)));
      exclusions = exclusions_of (text "exact_delta" ∷ text "minhash_lsh" ∷ []) ordered;
    }
