-- ===== src/Nightly.antt =====
-- src/oj_checker/nightly.py: the nightly runner over a catalog and the report API's client. The
-- client's answers are functions of the submission, read once for each call in a run.
pub mod Accounting
use csoj_judger.Prelude.{
  ℕ, suc, Bool, true, false, not, ◌&&◌, Option, none, some, List, [], ◌∷◌, length, map,
  if◌then◌else◌,
}
use csoj_judger.Prelude.Int.{pos}
use csoj_judger.Prelude.Order.{Text, text, ◌===◌, nat_ord, list_ord}
use csoj_judger.Prelude.Result.{Result, ok, err, ◌>>=◌, ◌>>◌, raise_if}
use csoj_judger.Json
use csoj_judger.Json.{Json, str, Fields, mapping?, str?}
use csoj_judger.Domain.{best_per_owner_lab, Submission, SnapshotRequest}
use csoj_judger.Catalog.{member, snapshot}

abbrev pub nightly_model : Text
nightly_model = text "glm-5.3"

abbrev pub review_labs : List Text
review_labs =
    map text
      ("lab2" ∷ "lab2-riscv" ∷ "lab3" ∷ "lab3p5" ∷ "lab4-cpu" ∷ "lab4-gpu" ∷ "lab4p5" ∷ "lab5" ∷ [])

-- The constants of the current rules.
abbrev pub rules_version : Text
rules_version = text "audit-rules-v2"

abbrev pub prompt_version : Text
prompt_version = text "compliance-v5"

abbrev pub schema_version : Text
schema_version = text "compliance-result-v2"

-- `client.report` raises, or returns a report or `None`.
pub data Answer : Type 0 where
  raises : Answer
  answer : Option Fields → Answer

-- `review` tells whether the call returns. `basis_commit` is the runner's.
pub record Client : Type 0 where
  pub allowed_models : List Text
  pub report : Text → Answer
  pub review : Text → Text → Bool

pub record NightlyReviewSummary : Type 0 where
  pub cutoff : ℕ
  pub candidate_count : ℕ
  pub skipped_count : ℕ
  pub reviewed_count : ℕ
  pub failed_count : ℕ
  pub failed_submission_ids : List Text

pub data NightlyError : Type 0 where
  model_not_allowed : NightlyError

-- `d.get(key) == value` for a text.
abbrev pub text_is : Option Text → Text → Bool
text_is none value = false
text_is (some s) value = s === value

abbrev pub entry_is : Option Fields → Text → Text → Bool
entry_is none key value = false
entry_is (some d) key value = text_is (str? (Json.get d key)) value

abbrev pub text_in : Option Text → List Text → Bool
text_in none values = false
text_in (some s) values = member s values

abbrev pub entry_in : Option Fields → Text → List Text → Bool
entry_in none key values = false
entry_in (some d) key values = text_in (str? (Json.get d key)) values

unfoldable pub can_skip : Text → Fields → Text → List Text → Bool
can_skip basis_commit report submission_id allowed_models =
    let submission = mapping? (Json.get report (text "submission")) in
    let provenance = mapping? (Json.get report (text "provenance")) in
    entry_is submission (text "id") submission_id
    && (text_is (str? (Json.get report (text "state"))) (text "completed")
        && (text_is (str? (Json.get report (text "decision"))) (text "compliant")
            && (entry_is provenance (text "basis_commit") basis_commit
                && (entry_is provenance (text "rules_version") rules_version
                    && (entry_is provenance (text "prompt_version") prompt_version
                        && (entry_is provenance (text "schema_version") schema_version
                            && entry_in provenance (text "model") allowed_models))))))

-- What the loop does with one candidate.
pub data Verdict : Type 0 where
  skip reviewed fail : Verdict

abbrev pub reviewed_if : Bool → Verdict
reviewed_if true = reviewed
reviewed_if false = fail

abbrev pub treat_report : Text → Client → Text → Option Fields → Verdict
treat_report basis_commit client id none = reviewed_if (client.review id nightly_model)
treat_report basis_commit client id (some report) =
    if can_skip basis_commit report id client.allowed_models
    then skip
    else reviewed_if (client.review id nightly_model)

abbrev pub treat_answer : Text → Client → Text → Answer → Verdict
treat_answer basis_commit client id raises = fail
treat_answer basis_commit client id (answer current) = treat_report basis_commit client id current

unfoldable pub treat : Text → Client → Submission → Verdict
treat basis_commit client submission =
    treat_answer basis_commit client submission.id (client.report submission.id)

pub record Tally : Type 0 where
  pub skipped : ℕ
  pub reviewed_so_far : ℕ
  pub failed : List Text

abbrev pub note : Text → Verdict → Tally → Tally
note id skip t = record t { skipped = suc t.skipped }
note id reviewed t = record t { reviewed_so_far = suc t.reviewed_so_far }
note id fail t = record t { failed = id ∷ t.failed }

-- The loop over the candidates; the failed ids come in their order.
unfoldable pub review_loop : Text → Client → List Submission → Tally
review_loop basis_commit client [] = record { skipped = 0; reviewed_so_far = 0; failed = [] }
review_loop basis_commit client (s ∷ ss) =
    note s.id (treat basis_commit client s) (review_loop basis_commit client ss)

abbrev pub nightly_request : ℕ → SnapshotRequest
nightly_request cutoff = record {
  policy = best_per_owner_lab;
  cutoff = cutoff;
  min_score = pos 0;
  labs = review_labs;
  owners = [];
  limit = none;
  submission_ids = [];
}

abbrev pub nightly_candidates : List Submission → ℕ → List Submission
nightly_candidates catalog cutoff = (snapshot catalog (nightly_request cutoff)).submissions

abbrev pub summary_of : ℕ → List Submission → Tally → NightlyReviewSummary
summary_of cutoff candidates t = record {
  cutoff = cutoff;
  candidate_count = length candidates;
  skipped_count = t.skipped;
  reviewed_count = t.reviewed_so_far;
  failed_count = length t.failed;
  failed_submission_ids = t.failed;
}

unfoldable pub run : List Submission → Client → Text → ℕ → Result NightlyError NightlyReviewSummary
run catalog client basis_commit cutoff = do
  raise_if (not (member nightly_model client.allowed_models)) model_not_allowed
  let candidates = nightly_candidates catalog cutoff
  ok (summary_of cutoff candidates (review_loop basis_commit client candidates))
