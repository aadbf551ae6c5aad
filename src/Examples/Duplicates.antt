-- ===== src/Examples/Duplicates.antt =====
-- Three submissions with one input, two of them by one owner.
use csoj_judger.Prelude.{◌≡◌, refl, ◌≢◌, true, false, none, List, [], ◌∷◌, Memᴰ}
use csoj_judger.Prelude.Int.{pos}
use csoj_judger.Prelude.Order.{Text, text, ===_iff, nat_ord, list_ord}
use csoj_judger.Json.{Json, end}
use csoj_judger.Domain.{Submission, AuditRequest, AuditTask}
use csoj_judger.AuditRunner.Duplicates.{exact_duplicate_tasks}
use csoj_judger.AuditRunner.Duplicates.Pairs.{IsDuplicate, exact_duplicate_tasks-AreDuplicates}
use csoj_judger.AuditRunner.Duplicates.Pairs.Complete.{IsAbout, exact_duplicate_tasks_complete}

abbrev submission : Text → Text → Submission
submission id owner = record {
  id = id;
  owner = owner;
  lab_id = text "lab2";
  score = pos 90;
  input_digest = text "d";
  submitted_at = 7;
  input_manifest = end;
  lab_definition = end;
  active_run_id = none;
  run_state = none;
  run_result_info = end;
  run_failure_class = none;
  run_failure_reason = none;
  run_score = none;
  run_performance = none;
  run_finished_at = none;
  status = text "Success";
  is_valid = true;
}

abbrev ann : Submission
ann = submission (text "s1") (text "ann")

abbrev bob : Submission
bob = submission (text "s2") (text "bob")

abbrev handed_in : List Submission
handed_in = ann ∷ bob ∷ submission (text "s3") (text "ann") ∷ []

abbrev hashed : Json → Text
hashed v = text "key"

owners_differ : text "ann" ≢ text "bob"
owners_differ h = let e : false ≡ true = (===_iff (text "ann") (text "bob")).1 h in absurd (cc e)

abbrev task_found :
    (t : AuditTask) × Memᴰ t (exact_duplicate_tasks hashed handed_in)
    × IsAbout handed_in (text "lab2", text "d") (text "ann") (text "bob") t
task_found =
    exact_duplicate_tasks_complete hashed handed_in ann bob (Memᴰ.head refl)
      (Memᴰ.tail (Memᴰ.head refl)) refl refl owners_differ

exact_duplicate_tasks_complete_example :
    (t : AuditTask) × Memᴰ t (exact_duplicate_tasks hashed handed_in)
    × IsAbout handed_in (text "lab2", text "d") (text "ann") (text "bob") t
exact_duplicate_tasks_complete_example =
    exact_duplicate_tasks_complete hashed handed_in ann bob (Memᴰ.head refl)
      (Memᴰ.tail (Memᴰ.head refl)) refl refl owners_differ

exact_duplicate_tasks-AreDuplicates_example : IsDuplicate handed_in task_found.0
exact_duplicate_tasks-AreDuplicates_example =
    exact_duplicate_tasks-AreDuplicates hashed handed_in task_found.0 task_found.1

abbrev request : AuditRequest
request = record {
  run_id = text "run1";
  cutoff = 9;
  min_score = pos 60;
  labs = [];
  owners = [];
  limit = none;
  rules_version = text "r";
  prompt_version = none;
  model = none;
  similarity_threshold = none;
  completion_count = pos 1;
  submission_id = none;
  execute_reviews = false;
}
