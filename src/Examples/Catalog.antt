-- ===== src/Examples/Catalog.antt =====
-- Two students and three submissions, through the catalog's choices.
use csoj_judger.Prelude.{◌+◌, length, false, ◌≡◌, refl, true, none, List, [], ◌∷◌, Memᴰ}
use csoj_judger.Prelude.Int.{pos}
use csoj_judger.Prelude.Order.{text, nat_ord, list_ord, pair_ord}
use csoj_judger.Prelude.Sort.{IsSorted, sort_by}
use csoj_judger.Prelude.Dict
use csoj_judger.Json.{end}
use csoj_judger.Domain.{Submission, SnapshotRequest, best_per_owner_lab}
use csoj_judger.Catalog
use csoj_judger.Catalog.{is_eligible, owner_lab, snapshot, snapshot_key, best_step, best_loop}
use csoj_judger.Catalog.Best.{IsAtMost, best_per_owner_lab_correct}
use csoj_judger.Catalog.Snapshot.{IsRepresented, snapshot_sound, snapshot_complete}
use csoj_judger.Prelude.Result.{ok}
use csoj_judger.Nightly.{
  Client, answer, nightly_model, NightlyReviewSummary, nightly_candidates, treat, review_loop, run,
}
use csoj_judger.Nightly.Accounting.{CandidateTrace, run_accounts}

abbrev first : Submission
first = record {
  id = text "s1";
  owner = text "ann";
  lab_id = text "lab2";
  score = pos 80;
  input_digest = text "d1";
  submitted_at = 10;
  input_manifest = end;
  lab_definition = end;
  active_run_id = none;
  run_state = none;
  run_result_info = end;
  run_failure_class = none;
  run_failure_reason = none;
  run_score = none;
  run_performance = none;
  run_finished_at = none;
  status = text "Success";
  is_valid = true;
}

abbrev second : Submission
second = record first { id = text "s2"; score = pos 90; submitted_at = 20 }

abbrev third : Submission
third = record first { id = text "s3"; owner = text "bob"; submitted_at = 5 }

abbrev corpus : List Submission
corpus = first ∷ second ∷ third ∷ []

abbrev nightly : SnapshotRequest
nightly = record {
  policy = best_per_owner_lab;
  cutoff = 30;
  min_score = pos 60;
  labs = text "lab2" ∷ [];
  owners = [];
  limit = none;
  submission_ids = [];
}

best_of_corpus : Catalog.best_per_owner_lab corpus ≡ second ∷ third ∷ []
unfolding Catalog.best_per_owner_lab best_loop Dict.get Dict.put sort_by
best_of_corpus = refl

first-is_eligible : is_eligible first nightly ≡ true
unfolding is_eligible
first-is_eligible = refl

snapshot_complete_example :
    IsRepresented best_per_owner_lab first (snapshot corpus nightly).submissions
snapshot_complete_example =
    snapshot_complete corpus nightly first refl (Memᴰ.head refl) first-is_eligible

snapshot_sound_example :
    ((s : Submission)
      → Memᴰ s (snapshot corpus nightly).submissions
      → Memᴰ s corpus × (is_eligible s nightly ≡ true))
    × IsSorted snapshot_key (snapshot corpus nightly).submissions
snapshot_sound_example = snapshot_sound corpus nightly

best_per_owner_lab_correct_example :
    ((s : Submission) → Memᴰ s (Catalog.best_per_owner_lab corpus) → Memᴰ s corpus)
    × ((s t : Submission)
        → Memᴰ s (Catalog.best_per_owner_lab corpus)
        → Memᴰ t (Catalog.best_per_owner_lab corpus)
        → owner_lab s ≡ owner_lab t
        → s ≡ t)
    × ((x : Submission)
        → Memᴰ x corpus
        → (s : Submission) × Memᴰ s (Catalog.best_per_owner_lab corpus)
          × (owner_lab s ≡ owner_lab x)
          × IsAtMost x s)
best_per_owner_lab_correct_example = best_per_owner_lab_correct corpus

-- The nightly run of a client that has a report for nobody and whose reviews raise.
abbrev client : Client
client = record {
  allowed_models = nightly_model ∷ [];
  report = λ id. answer none;
  review = λ id model. false;
}

abbrev summary : NightlyReviewSummary
summary = record {
  cutoff = 50;
  candidate_count = 1;
  skipped_count = 0;
  reviewed_count = 0;
  failed_count = 1;
  failed_submission_ids = text "s1" ∷ [];
}

night_run : run (first ∷ []) client (text "c") 50 ≡ ok summary
unfolding run review_loop treat snapshot is_eligible best_step best_loop sort_by Dict.get
    Catalog.best_per_owner_lab Dict.put
night_run = refl

run_accounts_example :
    (summary.candidate_count ≡ length (nightly_candidates (first ∷ []) 50))
    × (summary.skipped_count + summary.reviewed_count + summary.failed_count
        ≡ summary.candidate_count)
    × (summary.failed_count ≡ length summary.failed_submission_ids)
    × CandidateTrace (text "c") client (nightly_candidates (first ∷ []) 50) 0 0 (text "s1" ∷ [])
run_accounts_example = run_accounts (first ∷ []) client (text "c") 50 summary night_run
