-- ===== src/AuditRunner/Reviews.antt =====
-- `_execute_reviews` of src/oj_checker/runner.py: the tasks of a run one after the other, with the
-- ledger of completed reviews and the report store. Their files are kept apart, since no path of one
-- is a path of the other. The reviewer answers the n-th call.
pub mod Accounting
pub mod Recorded
use csoj_judger.Prelude.{
  ℕ, ◌+◌, Bool, true, false, ◌||◌, Option, none, some, List, [], ◌∷◌, ◌++◌, map, length, ltb,
  if◌then◌else◌,
}
use csoj_judger.Prelude.Int.{ℤ, pos}
use csoj_judger.Prelude.Order.{Text, text, ◌===◌, nat_ord, list_ord}
use csoj_judger.Prelude.Dict
use csoj_judger.Prelude.Dict.{Dict}
use csoj_judger.Prelude.Result.{Result, ok, err}
use csoj_judger.Json
use csoj_judger.Json.{Json, str, int, real, obj, arr, Fields, field, fields, items, str?}
use csoj_judger.Domain.{AuditTask}
use csoj_judger.Domain.Entries.{kind_text, texts}
use csoj_judger.ReviewLedger.{
  ReviewIdentity, CompletedReview, LedgerError, FilePath, Files, review_dict, lookup, record_review,
}
use csoj_judger.ReportStore.{
  ReportError, Printer, Written, write_task_result, write_task_attempt, write_owner_review,
  write_plagiarism_review, write_summary, write_attempt_summary,
}

-- `ComplianceReviewTask` and `PlagiarismReviewTask`, as far as the loop reads them. A float is its
-- text.
pub data ReviewTask : Type 0 where
  compliance_task : (identity : ReviewIdentity) (owner : Text) (score : ℤ) → ReviewTask
  plagiarism_task :
      (identity : ReviewIdentity) (owners : List Text) (submitted_at : List ℕ)
      (signal jaccard : Text)
      → ReviewTask

abbrev pub identity_of : ReviewTask → ReviewIdentity
identity_of (compliance_task i owner score) = i
identity_of (plagiarism_task i owners submitted_at signal jaccard) = i

-- A `ReviewError`: its class and its message.
pub record ReviewFailure : Type 0 where
  pub error_type : Text
  pub message : Text

-- Any other exception, which ends the run: `review_tasks[task.key]` of a missing key, one of the ledger
-- or of the report store.
pub data RunError : Type 0 where
  no_review_task no_submission malformed_count : RunError
  ledger_error : LedgerError → RunError
  report_error : ReportError → RunError

pub record Progress : Type 0 where
  pub cache_hits : ℕ
  pub llm_calls : ℕ
  pub completed : ℕ
  pub inconclusive : ℕ
  pub failed : ℕ
  pub ledger : Files
  pub reports : Files
  pub result_paths : List FilePath

-- What is on disk stays there when an exception ends the run.
pub data Outcome : Type 0 where
  done : Progress → Outcome
  stopped : RunError → Progress → Outcome

abbrev pub after : Outcome → (Progress → Outcome) → Outcome
after (done p) next = next p
after (stopped e p) next = stopped e p

abbrev pub progress_of : Outcome → Progress
progress_of (done p) = p
progress_of (stopped e p) = p

abbrev pub decision_is : Text → Fields → Bool
decision_is d verdict = elim (Json.get verdict (text "decision")) [
  | none ↦ false
  | some v ↦ elim v [ str s ↦ s === d | _ ↦ false ]
]

-- `not isinstance(task, ComplianceReviewTask) or verdict.get("decision") == "compliant"`: whether the
-- ledger keeps the review, and whether a kept one is used.
abbrev pub reusable : ReviewTask → CompletedReview → Bool
reusable (compliance_task i owner score) review = decision_is (text "compliant") review.verdict
reusable (plagiarism_task i owners submitted_at signal jaccard) review = true

abbrev pub usable : ReviewTask → Option CompletedReview → Option CompletedReview
usable t none = none
usable t (some review) = if reusable t review then some review else none

-- A file was written, or the exception of the store ends the run.
abbrev pub stored : Progress → Written → Outcome
stored p (files, ok target) =
    done (record p { reports = files; result_paths = p.result_paths ++ (target ∷ []) })
stored p (files, err e) = stopped (report_error e) (record p { reports = files })

abbrev pub recorded : Progress → Files × Result LedgerError FilePath → Outcome
recorded p (files, ok target) = done (record p { ledger = files })
recorded p (files, err e) = stopped (ledger_error e) (record p { ledger = files })

module _ (printer : Printer) where
  abbrev pub base_payload : AuditTask → List (Text × Json) → Fields
  base_payload task rest =
      fields ((text "task_key", str task.key) ∷ (text "kind", str (kind_text task.kind)) ∷ rest)

  abbrev pub review_payload : AuditTask → CompletedReview → List (Text × Json) → Fields
  review_payload task review rest =
      base_payload task ((text "review", obj (review_dict printer.codec review)) ∷ rest)

  abbrev pub failure_payload : AuditTask → ReviewFailure → Fields
  failure_payload task e = base_payload task (
      (text "status", str (text "failed"))
      ∷ (text "error_type", str e.error_type)
      ∷ (text "message", str e.message)
      ∷ [])

  abbrev pub inconclusive_payload : AuditTask → CompletedReview → Fields
  inconclusive_payload task review = base_payload task (
      (text "status", str (text "inconclusive"))
      ∷ (text "review", obj (review_dict printer.codec review))
      ∷ [])

  -- The copy of a resolved review for its owner, or for the pair.
  abbrev pub owner_copy : Progress → AuditTask → Text → ℤ → CompletedReview → List Text → Outcome
  owner_copy p task owner score review [] = stopped no_submission p
  owner_copy p task owner score review (submission_id ∷ _) = stored p (
      write_owner_review printer p.reports owner task.lab_id task.key review.model_response_digest (
        review_payload task review
          ((text "submission_id", str submission_id) ∷ (text "score", int score) ∷ [])))

  unfoldable pub write_derived : Progress → AuditTask → ReviewTask → CompletedReview → Outcome
  write_derived p task (compliance_task i owner score) review =
      owner_copy p task owner score review task.submission_ids
  write_derived p task (plagiarism_task i owners submitted_at signal jaccard) review = stored p (
      write_plagiarism_review printer p.reports task.lab_id task.key review.model_response_digest (
        review_payload task review (
          (text "submission_ids", texts task.submission_ids)
          ∷ (text "owners", texts owners)
          ∷ (text "submitted_at", texts (map printer.codec.isoformat submitted_at))
          ∷ (text "similarity_signal", str signal)
          ∷ (text "jaccard", real jaccard)
          ∷ (text "human_review_status", str (text "pending"))
          ∷ [])))

  module _ (run_id : Text) where
    abbrev pub write_review_result : Progress → AuditTask → CompletedReview → Outcome
    write_review_result p task review =
        stored p
          (write_task_result printer p.reports run_id task.key (review_payload task review []))

    -- A review that the ledger had.
    unfoldable pub reuse : Progress → AuditTask → ReviewTask → CompletedReview → Outcome
    reuse p task t cached =
        after
          (write_review_result
            (record p { cache_hits = p.cache_hits + 1; completed = p.completed + 1 }) task cached)
          (λ q. write_derived q task t cached)

    abbrev pub keep_review : Progress → ReviewTask → CompletedReview → Outcome
    keep_review p t review =
        if reusable t review
        then recorded p (record_review printer.codec p.ledger review)
        else done p

    -- A conclusive review that the reviewer gave.
    abbrev pub take_conclusive : Progress → AuditTask → ReviewTask → CompletedReview → Outcome
    take_conclusive p task t review = after (keep_review p t review) (λ q.
        after (write_review_result (record q { completed = q.completed + 1 }) task review)
          (λ r. write_derived r task t review))

    abbrev pub take_inconclusive : Progress → AuditTask → ReviewTask → CompletedReview → Outcome
    take_inconclusive p task t review =
        after
          (stored (record p { inconclusive = p.inconclusive + 1 })
            (write_task_attempt printer p.reports run_id task.key
              (inconclusive_payload task review)))
          (λ q. write_derived q task t review)

    unfoldable pub take_review : Progress → AuditTask → ReviewTask → CompletedReview → Outcome
    take_review p task t review =
        if review.conclusive
        then take_conclusive p task t review
        else take_inconclusive p task t review

    unfoldable pub take_answer :
        Progress → AuditTask → ReviewTask → Result ReviewFailure CompletedReview → Outcome
    take_answer p task t (ok review) = take_review p task t review
    take_answer p task t (err e) =
        stored (record p { failed = p.failed + 1 })
          (write_task_attempt printer p.reports run_id task.key (failure_payload task e))

    module _ (reviewer : ℕ → ReviewTask → Result ReviewFailure CompletedReview) where
      abbrev pub resolve_task : Progress → AuditTask → ReviewTask → Option CompletedReview → Outcome
      resolve_task p task t (some cached) = reuse p task t cached
      resolve_task p task t none =
          take_answer (record p { llm_calls = p.llm_calls + 1 }) task t (reviewer p.llm_calls t)

      abbrev pub looked_up :
          Progress → AuditTask → ReviewTask → Result LedgerError (Option CompletedReview) → Outcome
      looked_up p task t (err e) = stopped (ledger_error e) p
      looked_up p task t (ok cached) = resolve_task p task t (usable t cached)

      -- One round of the loop.
      abbrev pub one_task : Progress → AuditTask → Option ReviewTask → Outcome
      one_task p task none = stopped no_review_task p
      one_task p task (some t) = looked_up p task t (lookup printer.codec p.ledger (identity_of t))

      unfoldable pub task_loop : Dict Text ReviewTask → Progress → List AuditTask → Outcome
      task_loop review_tasks p [] = done p
      task_loop review_tasks p (task ∷ tasks) =
          after (one_task p task (Dict.get review_tasks task.key))
            (λ q. task_loop review_tasks q tasks)

      abbrev pub run_summary : Progress → ℕ → ℕ → Fields
      run_summary p task_count exclusions = fields (
          (text "run_id", str run_id)
          ∷ (text "task_count", int (pos task_count))
          ∷ (text "cache_hit_count", int (pos p.cache_hits))
          ∷ (text "llm_call_count", int (pos p.llm_calls))
          ∷ (text "completed_review_count", int (pos p.completed))
          ∷ (text "inconclusive_review_count", int (pos p.inconclusive))
          ∷ (text "failed_review_count", int (pos p.failed))
          ∷ (text "similarity_exclusion_count", int (pos exclusions))
          ∷ [])

      abbrev pub summarised : Progress → Written → Outcome
      summarised p (files, ok target) = done (record p { reports = files })
      summarised p (files, err e) = stopped (report_error e) (record p { reports = files })

      abbrev pub finish_run : ℕ → ℕ → Progress → Outcome
      finish_run task_count exclusions p =
          if ltb 0 p.failed || ltb 0 p.inconclusive
          then summarised p
              (write_attempt_summary printer p.reports run_id (run_summary p task_count exclusions))
          else summarised p
              (write_summary printer p.reports run_id (run_summary p task_count exclusions))

      abbrev pub started : Files → Files → Progress
      started ledger reports = record {
        cache_hits = 0;
        llm_calls = 0;
        completed = 0;
        inconclusive = 0;
        failed = 0;
        ledger = ledger;
        reports = reports;
        result_paths = [];
      }

      -- `_execute_reviews` of a run that has no summary yet; `exclusions` is the number of the
      -- manifest's similarity exclusions.
      unfoldable pub execute_reviews :
          Dict Text ReviewTask → List AuditTask → ℕ → Files → Files → Outcome
      execute_reviews review_tasks tasks exclusions ledger reports =
          after (task_loop review_tasks (started ledger reports) tasks)
            (finish_run (length tasks) exclusions)
