-- ===== src/Examples/Audit.antt =====
-- A run of two tasks, of which one fails, and its manifest. The texts that the libraries give are
-- constants.
use csoj_judger.Prelude.{ℕ, zero, suc, ◌≡◌, refl, true, none, some, List, [], ◌∷◌}
use csoj_judger.Prelude.Int.{pos}
use csoj_judger.Prelude.Order.{Text, text, nat_ord, list_ord}
use csoj_judger.Prelude.Dict
use csoj_judger.Prelude.Dict.{Dict}
use csoj_judger.Prelude.Result.{Result, ok, err}
use csoj_judger.Json
use csoj_judger.Json.{str, obj, end, fields, json_eq}
use csoj_judger.Domain.{AuditTask, single_review}
use csoj_judger.ReviewLedger.{
  CompletedReview, ReviewIdentity, compliance, is_safe_component, key, path, record_review,
  write_create_only, lookup,
}
use csoj_judger.ReportStore.{
  Printer, Manifest, write_immutable_json, write_task_result, write_task_attempt,
  write_owner_review, write_attempt_summary, write_summary, read_summary, write_manifest,
  manifest_path, manifest_dict, report_text,
}
use csoj_judger.ReportStore.Manifests.{Rewritten, write_manifest_again}
use csoj_judger.AuditRunner.Reviews.{
  run_summary, started, ReviewTask, compliance_task, ReviewFailure, Progress, Outcome, done,
  progress_of, write_derived, take_review, take_answer, task_loop, execute_reviews,
}
use csoj_judger.AuditRunner.Resume.{execute_run, execute_run_again}
use csoj_judger.ReviewLedger.RoundTrip.{agrees}
use csoj_judger.AuditRunner.Reviews.Accounting.{IsAccounted, execute_reviews_accounts}
use csoj_judger.AuditRunner.Reviews.Recorded.{Grows, execute_reviews-Grows}

abbrev zeros : ℕ → Text
zeros zero = []
zeros (suc n) = b'0' ∷ zeros n

abbrev identity : Text → ReviewIdentity
identity id = record {
  task_type = compliance;
  submission_ids = id ∷ [];
  input_digests = text "d1" ∷ [];
  source_delta_digests = text "e1" ∷ [];
  lab_id = text "lab2";
  basis_commit = text "c";
  basis_tree_digest = text "t";
  document_digest = text "d";
  lab_definition_digest = text "l";
  rules_version = text "r";
  prompt_version = text "p";
  schema_version = text "v1";
  model = text "glm";
  model_parameters = [];
  task_parameters = [];
}

abbrev review : CompletedReview
review = record {
  identity = identity (text "s1");
  completed_at = 30;
  verdict = fields ((text "decision", str (text "compliant")) ∷ []);
  model_response_digest = text "m";
  conclusive = true;
  evidence = end;
}

abbrev printer : Printer
printer = record {
  codec = record {
    dumps = λ v. text "json";
    loads = λ t. some (obj (fields ((text "generated_at", str (text "now")) ∷ [])));
    sha256 = λ t. zeros 64;
    isoformat = λ t. text "now";
    fromisoformat = λ t. some 30;
    show = λ o. [];
  };
  dumps_indented = λ v. text "report";
}

abbrev task : Text → Text → AuditTask
task key id = record {
  key = key;
  kind = single_review;
  lab_id = text "lab2";
  submission_ids = id ∷ [];
  input_digest = text "d1";
  input_digests = text "d1" ∷ [];
  source_delta_digests = text "e1" ∷ [];
  similarity_signal = none;
  jaccard = none;
}

abbrev first_key : Text
first_key = zeros 64

abbrev second_key : Text
second_key = b'1' ∷ zeros 63

abbrev review_tasks : Dict Text ReviewTask
review_tasks =
    (first_key, compliance_task (identity (text "s1")) (text "ann") (pos 90))
    ∷ (
      second_key,
      compliance_task (record (identity (text "s2")) { schema_version = text "v2" }) (text "bob")
          (pos 80),
    )
    ∷ []

-- The first call gives a review, every later one fails.
abbrev reviewer : ℕ → ReviewTask → Result ReviewFailure CompletedReview
reviewer zero t = ok review
reviewer (suc n) t = err (record { error_type = text "ReviewError"; message = text "timeout" })

abbrev tasks : List AuditTask
tasks = task first_key (text "s1") ∷ task second_key (text "s2") ∷ []

abbrev outcome : Outcome
outcome = execute_reviews printer (text "run1") reviewer review_tasks tasks 0 [] []

abbrev last : Progress
last = progress_of outcome

it_ends : outcome ≡ done last
unfolding execute_reviews task_loop take_answer take_review write_derived write_task_result
    write_task_attempt write_owner_review write_attempt_summary write_immutable_json
    is_safe_component record_review write_create_only path key lookup Dict.get Dict.put Json.get
it_ends = refl

execute_reviews_accounts_example :
    IsAccounted printer (text "run1") reviewer review_tasks tasks [] [] last
execute_reviews_accounts_example =
    execute_reviews_accounts printer (text "run1") reviewer review_tasks tasks 0 [] [] last it_ends

execute_reviews-Grows_example : Grows printer (text "run1") reviewer [] last.ledger
execute_reviews-Grows_example =
    execute_reviews-Grows printer (text "run1") reviewer review_tasks tasks 0 [] []

abbrev manifest : Manifest
manifest = record { run_id = text "run1"; generated_at = 30; entries = end }

it_is_written : write_manifest printer [] manifest ≡ (
  (manifest_path printer (text "run1"), report_text printer (manifest_dict printer manifest)) ∷ [],
  ok manifest,
)
unfolding write_manifest is_safe_component Dict.get Dict.put
it_is_written = refl

new_run : Dict.get {V = Text} [] (manifest_path printer (text "run1")) ≡ none
unfolding Dict.get
new_run = refl

time_found :
    Json.get (fields ((text "generated_at", str (text "now")) ∷ [])) (text "generated_at")
    ≡ some (str (text "now"))
unfolding Json.get
time_found = refl

write_manifest_again_example :
    Rewritten printer
      ((manifest_path printer (text "run1"), report_text printer (manifest_dict printer manifest))
        ∷ [])
      (record manifest { generated_at = 31 })
      30
      (fields ((text "generated_at", str (text "now")) ∷ []))
write_manifest_again_example =
    write_manifest_again printer []
      ((manifest_path printer (text "run1"), report_text printer (manifest_dict printer manifest))
        ∷ [])
      manifest (record manifest { generated_at = 31 })
      (fields ((text "generated_at", str (text "now")) ∷ [])) new_run it_is_written refl refl
      time_found refl

-- A run of one task, executed twice. Of its summary's text, `json.loads` gives the counts.
abbrev one_printer : Printer
one_printer = record printer {
  codec = record printer.codec {
    loads = λ t. some (
        obj (
          run_summary printer (text "run1") reviewer (started printer (text "run1") reviewer [] [])
            0 0));
  };
}

abbrev second : ℕ → ReviewTask → Result ReviewFailure CompletedReview
second n t = ok review

abbrev empty_run : Progress
empty_run = progress_of (execute_run one_printer (text "run1") reviewer [] [] 0 [] [])

no_summary : read_summary one_printer [] (text "run1") ≡ ok none
unfolding read_summary is_safe_component Dict.get
no_summary = refl

empty_run_ends : execute_run one_printer (text "run1") reviewer [] [] 0 [] [] ≡ done empty_run
unfolding execute_run execute_reviews task_loop read_summary write_summary write_immutable_json
    is_safe_component write_create_only Dict.get Dict.put
empty_run_ends = refl

run_counts :
    agrees
      (run_summary printer
        (text "run1")
        reviewer
        (started printer (text "run1") reviewer [] [])
        0
        0)
      (run_summary one_printer (text "run1") reviewer empty_run 0 0)
    ≡ true
unfolding Json.get execute_run execute_reviews task_loop read_summary write_summary
    write_immutable_json is_safe_component write_create_only Dict.get Dict.put
run_counts = refl

zero_failed : empty_run.failed ≡ 0
unfolding execute_run execute_reviews task_loop read_summary write_summary write_immutable_json
    is_safe_component write_create_only Dict.get Dict.put
zero_failed = refl

zero_inconclusive : empty_run.inconclusive ≡ 0
unfolding execute_run execute_reviews task_loop read_summary write_summary write_immutable_json
    is_safe_component write_create_only Dict.get Dict.put
zero_inconclusive = refl

summary_loaded :
    one_printer.codec.loads
      (report_text one_printer (run_summary one_printer (text "run1") reviewer empty_run 0 0))
    ≡ some (
        obj (
          run_summary printer
            (text "run1")
            reviewer
            (started printer (text "run1") reviewer [] [])
            0
            0))
summary_loaded = refl

execute_run_again_example :
    execute_run one_printer
      (text "run1")
      second
      review_tasks
      tasks
      3
      empty_run.ledger
      empty_run.reports
    ≡ done (record empty_run { result_paths = [] })
execute_run_again_example =
    execute_run_again one_printer (text "run1") reviewer second [] review_tasks [] tasks 0 3 [] []
      empty_run
      (run_summary printer (text "run1") reviewer (started printer (text "run1") reviewer [] []) 0
        0)
      no_summary empty_run_ends zero_failed zero_inconclusive summary_loaded run_counts
