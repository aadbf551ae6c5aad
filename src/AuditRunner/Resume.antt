-- ===== src/AuditRunner/Resume.antt =====
-- A run that is executed again, in src/oj_checker/runner.py: a run with a summary is not repeated.
use csoj_judger.Prelude.{
  ℕ, ◌≡◌, refl, ap, subst, Bool, true, false, ◌||◌, Option, none, some, List, [], length, ltb,
  arith, if◌then◌else◌,
}
use csoj_judger.Prelude.Int.{pos, int_ord}
use csoj_judger.Prelude.Order.{Text, text, ===_iff, nat_ord, list_ord}
use csoj_judger.Prelude.Dict
use csoj_judger.Prelude.Dict.{Dict}
use csoj_judger.Prelude.Result.{Result, ok, err, ◌>>=◌}
use csoj_judger.Json
use csoj_judger.Json.{Json, null, bool, int, real, str, arr, obj, Fields}
use csoj_judger.Domain.{AuditTask}
use csoj_judger.ReviewLedger.{
  CompletedReview, LedgerError, FilePath, Files, is_safe_component, write_create_only, equals,
}
use csoj_judger.ReviewLedger.RoundTrip.{agrees, write_create_only-HasRecorded}
use csoj_judger.ReportStore.{
  ReportError, Printer, Written, written, report_text, summary_path, write_immutable_json,
  write_summary, write_attempt_summary, read_summary,
}
use csoj_judger.AuditRunner.Reviews.{
  ReviewTask, ReviewFailure, RunError, malformed_count, report_error, Progress, Outcome, done,
  stopped, task_loop, run_summary, summarised, finish_run, started, execute_reviews,
}
use csoj_judger.AuditRunner.Reviews.Accounting.Counts.{
  after_done, done_injective, summarised_counts,
}

-- `_summary_count`.
abbrev pub count_of : Option Json → Result RunError ℕ
count_of (some (int (pos n))) = ok n
count_of _ = err malformed_count

abbrev pub resumed : Progress → Result RunError Progress → Outcome
resumed p (err e) = stopped e p
resumed p (ok q) = done q

-- The counts of a stored summary.
abbrev pub summary_progress : Progress → Fields → Result RunError Progress
summary_progress p summary = do
  cache_hits ← count_of (Json.get summary (text "cache_hit_count"))
  llm_calls ← count_of (Json.get summary (text "llm_call_count"))
  completed ← count_of (Json.get summary (text "completed_review_count"))
  inconclusive ← count_of (Json.get summary (text "inconclusive_review_count"))
  failed ← count_of (Json.get summary (text "failed_review_count"))
  exclusions ← count_of (Json.get summary (text "similarity_exclusion_count"))
  ok (record p {
    cache_hits = cache_hits;
    llm_calls = llm_calls;
    completed = completed;
    inconclusive = inconclusive;
    failed = failed;
  })

module _ (printer : Printer) (run_id : Text) where
  module _ (reviewer : ℕ → ReviewTask → Result ReviewFailure CompletedReview) where
    abbrev pub run_or_resume :
        Dict Text ReviewTask
        → List AuditTask
        → ℕ
        → Files
        → Files
        → Result ReportError (Option Fields)
        → Outcome
    run_or_resume review_tasks tasks exclusions ledger reports (err e) =
        stopped (report_error e) (started printer run_id reviewer ledger reports)
    run_or_resume review_tasks tasks exclusions ledger reports (ok none) =
        execute_reviews printer run_id reviewer review_tasks tasks exclusions ledger reports
    run_or_resume review_tasks tasks exclusions ledger reports (ok (some summary)) =
        let p = started printer run_id reviewer ledger reports in
        resumed p (summary_progress p summary)

    -- `_execute_reviews`.
    unfoldable pub execute_run : Dict Text ReviewTask → List AuditTask → ℕ → Files → Files → Outcome
    execute_run review_tasks tasks exclusions ledger reports =
        run_or_resume review_tasks tasks exclusions ledger reports
          (read_summary printer reports run_id)

  equals_int : (o : Option Json) (n : ℕ) → equals o (int (pos n)) ≡ true → o ≡ some (int (pos n))
  equals_int none n h = absurd (cc h)
  equals_int (some null) n h = absurd (cc h)
  equals_int (some (bool b)) n h = absurd (cc h)
  equals_int (some (real r)) n h = absurd (cc h)
  equals_int (some (arr xs)) n h = absurd (cc h)
  equals_int (some (obj d)) n h = absurd (cc h)
  equals_int (some (str t)) n h = absurd (cc h)
  equals_int (some (int i)) n h = let e : i ≡ pos n = (===_iff i (pos n)).0 h in cc e

  -- A summary that was written is on disk.
  summary_kept :
      (reports later : Files) (at : FilePath) (value : Fields)
      → write_summary printer reports run_id value ≡ (later, ok at)
      → (is_safe_component run_id ≡ true)
        × (Dict.get later (summary_path printer run_id) ≡ some (report_text printer value))
  unfolding write_summary write_immutable_json
  summary_kept reports later at value h = go (is_safe_component run_id) refl h
    where
      target : FilePath
      target = summary_path printer run_id

      kept :
          (w : Files × Result LedgerError FilePath)
          → write_create_only reports target (report_text printer value) ≡ w
          → written w ≡ (later, ok at)
          → Dict.get later target ≡ some (report_text printer value)
      kept (files, err e) q h = absurd (cc h)
      kept (files, ok t) q h =
          let (a, (b, c)) =
            write_create_only-HasRecorded reports files target t (report_text printer value) q in
          let e : files ≡ later = ap (λ x. x.0) h in cc (c, e)

      go :
          (b : Bool)
          → is_safe_component run_id ≡ b
          → (if b
              then written (write_create_only reports target (report_text printer value))
              else (reports, err ReportError.unsafe_run_id))
            ≡ (later, ok at)
          → (is_safe_component run_id ≡ true)
            × (Dict.get later target ≡ some (report_text printer value))
      go true s h = (s, kept (write_create_only reports target (report_text printer value)) refl h)
      go false s h = absurd (cc h)

  module _ (reviewer : ℕ → ReviewTask → Result ReviewFailure CompletedReview) where
    -- A run that nothing failed in, and nothing was inconclusive in, ends by writing its summary.
    summary_written :
        (n exclusions : ℕ) (r q : Progress)
        → finish_run printer run_id reviewer n exclusions r ≡ done q
        → q.failed ≡ 0
        → q.inconclusive ≡ 0
        → (is_safe_component run_id ≡ true)
          × (Dict.get q.reports (summary_path printer run_id)
              ≡ some (report_text printer (run_summary printer run_id reviewer q n exclusions)))
    summary_written n exclusions r q h f i = go (ltb 0 r.failed || ltb 0 r.inconclusive) refl h
      where
        value : Fields
        value = run_summary printer run_id reviewer r n exclusions

        kept :
            (w : Written)
            → write_summary printer r.reports run_id value ≡ w
            → summarised printer run_id reviewer r w ≡ done q
            → (is_safe_component run_id ≡ true)
              × (Dict.get q.reports (summary_path printer run_id)
                  ≡ some (report_text printer (run_summary printer run_id reviewer q n exclusions)))
        kept (files, err e) p h = absurd (cc h)
        kept (files, ok at) p h =
            subst
              (λ (x : Progress).
                (is_safe_component run_id ≡ true)
                × (Dict.get x.reports (summary_path printer run_id)
                    ≡ some
                        (report_text printer (run_summary printer run_id reviewer x n exclusions))))
              (done_injective _ refl h) (summary_kept r.reports files at value p)

        go :
            (b : Bool)
            → (ltb 0 r.failed || ltb 0 r.inconclusive) ≡ b
            → (if b
                then summarised printer run_id reviewer r
                    (write_attempt_summary printer r.reports run_id value)
                else summarised printer run_id reviewer r
                    (write_summary printer r.reports run_id value))
              ≡ done q
            → (is_safe_component run_id ≡ true)
              × (Dict.get q.reports (summary_path printer run_id)
                  ≡ some (report_text printer (run_summary printer run_id reviewer q n exclusions)))
        go true e h =
            let (_, _, _, a, b) =
              summarised_counts printer run_id reviewer r q
                (write_attempt_summary printer r.reports run_id value) h in
            absurd (ground (arith, e, a, b, f, i))
        go false e h = kept (write_summary printer r.reports run_id value) refl h

  -- After a new run in which nothing failed and nothing was inconclusive, to execute a run of its id
  -- again, whatever its tasks and its reviewer, changes no file, calls the reviewer for nothing and
  -- returns the counts of the first run; `json.loads` is to give, for the text of the summary, a
  -- dictionary with equal entries.
  pub execute_run_again :
      (reviewer second : ℕ → ReviewTask → Result ReviewFailure CompletedReview)
      (review_tasks others : Dict Text ReviewTask) (tasks more : List AuditTask)
      (exclusions excluded : ℕ) (ledger reports : Files) (q : Progress) (stored : Fields)
      → read_summary printer reports run_id ≡ ok none
      → execute_run reviewer review_tasks tasks exclusions ledger reports ≡ done q
      → q.failed ≡ 0
      → q.inconclusive ≡ 0
      → printer.codec.loads
          (report_text printer (run_summary printer run_id reviewer q (length tasks) exclusions))
        ≡ some (obj stored)
      → agrees stored (run_summary printer run_id reviewer q (length tasks) exclusions) ≡ true
      → execute_run second others more excluded q.ledger q.reports
        ≡ done (record q { result_paths = [] })
  unfolding execute_run read_summary execute_reviews
  execute_run_again reviewer second review_tasks others tasks more exclusions excluded ledger
        reports q stored new h f i loaded same =
      let h' : execute_reviews printer run_id reviewer review_tasks tasks exclusions ledger reports
          ≡ done q =
        rw new at h in
      let (r, a, b) =
        after_done
          (task_loop printer run_id reviewer review_tasks
            (started printer run_id reviewer ledger reports) tasks)
          (finish_run printer run_id reviewer (length tasks) exclusions) h' in
      let (safe, kept) = summary_written reviewer (length tasks) exclusions r q b f i in
      let e1 =
        equals_int (Json.get stored (text "cache_hit_count")) q.cache_hits (ground (arith, same)) in
      let e2 =
        equals_int (Json.get stored (text "llm_call_count")) q.llm_calls (ground (arith, same)) in
      let e3 =
        equals_int (Json.get stored (text "completed_review_count")) q.completed
          (ground (arith, same)) in
      let e4 =
        equals_int (Json.get stored (text "inconclusive_review_count")) q.inconclusive
          (ground (arith, same)) in
      let e5 =
        equals_int (Json.get stored (text "failed_review_count")) q.failed (ground (arith, same)) in
      let e6 =
        equals_int (Json.get stored (text "similarity_exclusion_count")) exclusions
          (ground (arith, same)) in
      rw (safe, kept, loaded, e1, e2, e3, e4, e5, e6) refl
