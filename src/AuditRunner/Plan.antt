-- ===== src/AuditRunner/Plan.antt =====
-- `AuditRunner.run` of src/oj_checker/runner.py as far as the tasks of a run that executes no reviews.
pub mod Complete
use csoj_judger.Prelude.{
  ℕ, Bool, true, false, not, Option, none, some, List, [], ◌∷◌, ◌++◌, map, is_nil, if◌then◌else◌,
}
use csoj_judger.Prelude.Order.{Text, text, nat_ord, pair_ord, list_ord}
use csoj_judger.Prelude.Result.{Result, ok, err, ◌>>=◌}
use csoj_judger.Prelude.Sort.{sort_by}
use csoj_judger.Json.{Json}
use csoj_judger.Domain.{
  DomainError, aware, Submission, SnapshotRequest, all_qualifying, AuditRequest, AuditTask,
  snapshot_request,
}
use csoj_judger.Catalog.{best_per_owner_lab, limited, snapshot}
use csoj_judger.Domain.Entries.{kind_text}
use csoj_judger.AuditRunner.Duplicates.{exact_duplicate_tasks, single_review_task}

pub data PlanError : Type 0 where
  not_reviewable : PlanError
  bad_request : DomainError → PlanError

-- `(request.submission_id,) if request.submission_id else ()`.
abbrev pub selected_ids : Option Text → List Text
selected_ids none = []
selected_ids (some id) = if is_nil id then [] else id ∷ []

abbrev pub requested : Result DomainError SnapshotRequest → Result PlanError SnapshotRequest
requested (err e) = err (bad_request e)
requested (ok r) = ok r

abbrev pub task_order : AuditTask → Text × (Text × Text)
task_order t = (kind_text t.kind, (t.lab_id, t.key))

module _ (task_key : Json → Text) where
  abbrev pub single_tasks : List Submission → List AuditTask
  single_tasks submissions = map (single_review_task task_key) submissions

  -- The tasks for the selected submissions: of one submission, or of all.
  abbrev pub tasks_for : AuditRequest → List Submission → Result PlanError (List AuditTask)
  tasks_for request submissions =
      if not (is_nil (selected_ids request.submission_id))
      then (if is_nil submissions
          then err not_reviewable
          else ok (sort_by task_order (single_tasks (limited request.limit submissions))))
      else ok (
          sort_by task_order (
            single_tasks (limited request.limit (best_per_owner_lab submissions))
            ++ exact_duplicate_tasks task_key submissions))

  unfoldable pub plan_tasks : List Submission → AuditRequest → Result PlanError (List AuditTask)
  plan_tasks catalog request =
      requested (
        snapshot_request all_qualifying (aware request.cutoff) request.min_score request.labs
          request.owners none (selected_ids request.submission_id))
      >>= λ r. tasks_for request (snapshot catalog r).submissions
