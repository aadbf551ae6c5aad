-- ===== src/Examples/Similarity.antt =====
-- Three documents of one lab, two of them alike.
use csoj_judger.Prelude.{ℕ, ◌≡◌, refl, ◌≢◌, ◌↔◌, true, false, none, List, [], ◌∷◌, Memᴰ, arith}
use csoj_judger.Prelude.Int.{pos}
use csoj_judger.Prelude.Order.{Text, text, nat_ord, list_ord, pair_ord, ===_iff}
use csoj_judger.Prelude.Sort.{sort_by}
use csoj_judger.Prelude.Result.{ok}
use csoj_judger.Json.{end}
use csoj_judger.Similarity.Data.{
  SimilarityDocument, SimilarityPolicy, SimilarityCandidate, CandidateSet, exhaustive_jaccard,
  candidate,
}
use csoj_judger.Similarity.Shingles.{delta_shingles, jaccard}
use csoj_judger.Similarity.Target.{
  candidate_for, target_loop, signal_of, exclusions_of, detect_for_submission,
}
use csoj_judger.Prelude.Dict
use csoj_judger.Similarity.Shingles.{minhash_signature}
use csoj_judger.Similarity.Data.{minhash, pair_key}
use csoj_judger.Similarity.Corpus.{
  detect, add_exact_candidates, approximate_pairs, add_approximate, signature_of,
}
use csoj_judger.Similarity.Target.Laws.{Reports, detect_for_submission_iff, candidate_for_comm}

abbrev document : Text → Text → ℕ → Text → SimilarityDocument
document id owner at code = record {
  submission = record {
    id = id;
    owner = owner;
    lab_id = text "lab2";
    score = pos 80;
    input_digest = id;
    submitted_at = at;
    input_manifest = end;
    lab_definition = end;
    active_run_id = none;
    run_state = none;
    run_result_info = end;
    run_failure_class = none;
    run_failure_reason = none;
    run_score = none;
    run_performance = none;
    run_finished_at = none;
    status = text "Success";
    is_valid = true;
  };
  delta = record {
    submission_id = id;
    files =
        (record {
          path = text "a";
          added_text = code;
          removed_text = [];
          hunks = [];
          baseline_kind = text "course";
          baseline_revision = none;
        })
        ∷ [];
    incomplete = false;
    digest = id;
  };
}

-- One token for each character.
abbrev characters : Text → List Text
characters [] = []
characters (c ∷ s) = (c ∷ []) ∷ characters s

abbrev policy : SimilarityPolicy
policy = record {
  jaccard_threshold = record { num = 1; den = 2 };
  shingle_size = 2;
  num_permutations = 4;
  band_size = 2;
}

abbrev ann : SimilarityDocument
ann = document (text "s1") (text "ann") 10 (text "xyzw")

abbrev bob : SimilarityDocument
bob = document (text "s2") (text "bob") 20 (text "xyzu")

abbrev found : CandidateSet
found = record {
  candidates =
      (record {
        lab_id = text "lab2";
        submission_ids = (text "s1", text "s2");
        signal = exhaustive_jaccard;
        jaccard = record { num = 4; den = 6 };
        delta_digests = (text "s1", text "s2");
      })
      ∷ [];
  exclusions = [];
}

bob_is_found : detect_for_submission characters (text "s2") (ann ∷ bob ∷ []) policy ≡ ok found
unfolding detect_for_submission target_loop candidate_for signal_of candidate jaccard delta_shingles
    exclusions_of sort_by
bob_is_found = refl

detect_for_submission_iff_example :
    (target : SimilarityDocument) × Memᴰ target (ann ∷ bob ∷ [])
    × (target.submission.id ≡ text "s2")
    × ((c : SimilarityCandidate)
        → Memᴰ c found.candidates ↔ (
            (other : SimilarityDocument) × Memᴰ other (ann ∷ bob ∷ [])
            × Reports characters policy target other c))
detect_for_submission_iff_example =
    detect_for_submission_iff characters (text "s2") (ann ∷ bob ∷ []) policy found bob_is_found

ids_differ : ◌≢◌ {A = Text} (text "s1") (text "s2")
ids_differ e = ground (arith, ===_iff (text "s1") (text "s2"), e)

candidate_for_comm_example :
    candidate_for characters policy ann bob ≡ candidate_for characters policy bob ann
candidate_for_comm_example = candidate_for_comm characters policy ann bob ids_differ refl

-- The search among all documents finds the pair once, by its signatures.
corpus_search : detect characters (λ t. 7) (bob ∷ ann ∷ []) policy ≡ record {
  candidates =
      (record {
        lab_id = text "lab2";
        submission_ids = (text "s1", text "s2");
        signal = minhash;
        jaccard = record { num = 4; den = 6 };
        delta_digests = (text "s1", text "s2");
      })
      ∷ [];
  exclusions = [];
}
unfolding detect add_exact_candidates approximate_pairs add_approximate signature_of
    minhash_signature candidate pair_key jaccard delta_shingles exclusions_of sort_by Dict.get
    Dict.put
corpus_search = refl
