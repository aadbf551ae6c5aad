-- ===== src/AuditRunner/Reviews/Accounting.antt =====
-- A run accounts for each of its tasks.
pub mod Counts
use csoj_judger.Prelude.{
  ℕ, suc, ◌+◌, ◌≡◌, refl, subst, Bool, true, false, ◌||◌, Option, none, some, List, [], ◌∷◌, length,
  ltb, arith, Bool-cases, inl, inr, if◌then◌else◌,
}
use csoj_judger.Prelude.Order.{Text, nat_ord, list_ord}
use csoj_judger.Prelude.Dict
use csoj_judger.Prelude.Dict.{Dict}
use csoj_judger.Prelude.Result.{Result, ok, err}
use csoj_judger.Json
use csoj_judger.Domain.{AuditTask}
use csoj_judger.ReviewLedger.{CompletedReview, LedgerError, Files, lookup}
use csoj_judger.ReportStore.{Printer}
use csoj_judger.AuditRunner.Reviews.{
  ReviewTask, identity_of, ReviewFailure, Progress, done, reusable, usable, take_conclusive,
  take_inconclusive, take_review, take_answer, resolve_task, looked_up, one_task, task_loop,
  finish_run, started, execute_reviews,
}
use csoj_judger.AuditRunner.Reviews.Accounting.Counts.{
  SameCounts, Adds, MayServe, after_done, done_injective, stored_counts, summarised_counts,
  reusable_iff, reuse_counts, conclusive_counts, inconclusive_counts,
}

module _ (printer : Printer) where
  module _ (run_id : Text) where
    module _ (reviewer : ℕ → ReviewTask → Result ReviewFailure CompletedReview) where
      -- The ledger has a review of the task's identity that may stand for it.
      abbrev pub HasCached : Progress → ReviewTask → Type 0
      HasCached p t =
          (review : CompletedReview) × (lookup printer.codec p.ledger (identity_of t)
            ≡ ok (some review))
          × MayServe t review

      -- The ledger was read and has none; so the reviewer answers the next call.
      abbrev pub Asks : Progress → ReviewTask → Result ReviewFailure CompletedReview → Type 0
      Asks p t answer =
          ((cached : Option CompletedReview) × (lookup printer.codec p.ledger (identity_of t)
              ≡ ok cached)
            × ((review : CompletedReview) → cached ≡ some review → ¬ MayServe t review))
          × (reviewer p.llm_calls t ≡ answer)

      -- How a task ends.
      data IsEnd (p q : Progress) (t : ReviewTask) : Type 0 where
        hit_end : HasCached p t → Adds 1 0 1 0 0 p q → IsEnd p q t
        conclusive_end :
            (review : CompletedReview)
            → Asks p t (ok review)
            → review.conclusive ≡ true
            → Adds 0 1 1 0 0 p q
            → IsEnd p q t
        inconclusive_end :
            (review : CompletedReview)
            → Asks p t (ok review)
            → review.conclusive ≡ false
            → Adds 0 1 0 1 0 p q
            → IsEnd p q t
        failed_end : (e : ReviewFailure) → Asks p t (err e) → Adds 0 1 0 0 1 p q → IsEnd p q t

      -- The tasks that were treated, from one progress to another, and the numbers of those that were
      -- hits, conclusive, inconclusive and failed.
      pub data Treated (review_tasks : Dict Text ReviewTask) (q : Progress)
          : Progress → List AuditTask → ℕ → ℕ → ℕ → ℕ → Type 0 where
        all_treated : Treated review_tasks q q [] 0 0 0 0
        hit :
            {tasks : List AuditTask} {h c i f : ℕ} (p r : Progress) (task : AuditTask)
            (t : ReviewTask)
            → Dict.get review_tasks task.key ≡ some t
            → HasCached p t
            → one_task printer run_id reviewer p task (some t) ≡ done r
            → Treated review_tasks q r tasks h c i f
            → Treated review_tasks q p (task ∷ tasks) (suc h) c i f
        conclusive_call :
            {tasks : List AuditTask} {h c i f : ℕ} (p r : Progress) (task : AuditTask)
            (t : ReviewTask) (review : CompletedReview)
            → Dict.get review_tasks task.key ≡ some t
            → Asks p t (ok review)
            → review.conclusive ≡ true
            → one_task printer run_id reviewer p task (some t) ≡ done r
            → Treated review_tasks q r tasks h c i f
            → Treated review_tasks q p (task ∷ tasks) h (suc c) i f
        inconclusive_call :
            {tasks : List AuditTask} {h c i f : ℕ} (p r : Progress) (task : AuditTask)
            (t : ReviewTask) (review : CompletedReview)
            → Dict.get review_tasks task.key ≡ some t
            → Asks p t (ok review)
            → review.conclusive ≡ false
            → one_task printer run_id reviewer p task (some t) ≡ done r
            → Treated review_tasks q r tasks h c i f
            → Treated review_tasks q p (task ∷ tasks) h c (suc i) f
        failed_call :
            {tasks : List AuditTask} {h c i f : ℕ} (p r : Progress) (task : AuditTask)
            (t : ReviewTask) (e : ReviewFailure)
            → Dict.get review_tasks task.key ≡ some t
            → Asks p t (err e)
            → one_task printer run_id reviewer p task (some t) ≡ done r
            → Treated review_tasks q r tasks h c i f
            → Treated review_tasks q p (task ∷ tasks) h c i (suc f)

      answer-IsEnd :
          (p q : Progress) (task : AuditTask) (t : ReviewTask)
          (answer : Result ReviewFailure CompletedReview)
          → Asks p t answer
          → take_answer printer run_id (record p { llm_calls = p.llm_calls + 1 }) task t answer
            ≡ done q
          → IsEnd p q t
      unfolding take_answer take_review
      answer-IsEnd p q task t (err e) a h =
          let l =
            stored_counts (record p { llm_calls = p.llm_calls + 1; failed = p.failed + 1 }) q _ h in
          failed_end e a (grind (arith, l))
      answer-IsEnd p q task t (ok review) a h = go review.conclusive refl h
        where
          called : Progress
          called = record p { llm_calls = p.llm_calls + 1 }

          go :
              (b : Bool)
              → review.conclusive ≡ b
              → (if b
                  then take_conclusive printer run_id called task t review
                  else take_inconclusive printer run_id called task t review)
                ≡ done q
              → IsEnd p q t
          go true e h =
              let l = conclusive_counts printer run_id called q task t review h in
              conclusive_end review a e (grind (arith, l))
          go false e h =
              let l = inconclusive_counts printer run_id called q task t review h in
              inconclusive_end review a e (grind (arith, l))

      resolved-IsEnd :
          (p q : Progress) (task : AuditTask) (t : ReviewTask) (cached : Option CompletedReview)
          → lookup printer.codec p.ledger (identity_of t) ≡ ok cached
          → resolve_task printer run_id reviewer p task t (usable t cached) ≡ done q
          → IsEnd p q t
      resolved-IsEnd p q task t none l h =
          answer-IsEnd p q task t (reviewer p.llm_calls t)
            ((none, l, λ review same. absurd (cc same)), refl) h
      resolved-IsEnd p q task t (some cached) l h = elim (Bool-cases (reusable t cached)) [
        | inl y ↦
            hit_end (cached, l, (reusable_iff t cached).0 y)
              (reuse_counts printer run_id p q task t cached (rw y at h))
        | inr n ↦
            answer-IsEnd p q task t (reviewer p.llm_calls t)
              (
                (
                  some cached,
                  l,
                  λ review same serves.
                      let equal : cached ≡ review = cc same in
                      let no : reusable t review ≡ false =
                        subst (λ x. reusable t x ≡ false) equal n in
                      absurd (cc (no, (reusable_iff t review).1 serves)),
                ),
                refl,
              )
              (rw n at h)
      ]

      one_task-IsEnd :
          (p q : Progress) (task : AuditTask) (t : ReviewTask)
          → one_task printer run_id reviewer p task (some t) ≡ done q
          → IsEnd p q t
      one_task-IsEnd p q task t h = go (lookup printer.codec p.ledger (identity_of t)) refl h
        where
          go :
              (o : Result LedgerError (Option CompletedReview))
              → lookup printer.codec p.ledger (identity_of t) ≡ o
              → looked_up printer run_id reviewer p task t o ≡ done q
              → IsEnd p q t
          go (err e) l h = absurd (cc h)
          go (ok cached) l h = resolved-IsEnd p q task t cached l h

      -- The tasks were treated, and the counts grew by their ends.
      data IsTally (review_tasks : Dict Text ReviewTask) (p q : Progress) (tasks : List AuditTask)
          : Type 0 where
        is_tally :
            (h c i f : ℕ)
            → Treated review_tasks q p tasks h c i f
            → Adds h (c + i + f) (h + c) i f p q
            → h + (c + i + f) ≡ length tasks
            → IsTally review_tasks p q tasks

      one_more-IsTally :
          (review_tasks : Dict Text ReviewTask) (p r q : Progress) (task : AuditTask)
          (tasks : List AuditTask) (t : ReviewTask)
          → Dict.get review_tasks task.key ≡ some t
          → one_task printer run_id reviewer p task (some t) ≡ done r
          → IsEnd p r t
          → IsTally review_tasks r q tasks
          → IsTally review_tasks p q (task ∷ tasks)
      one_more-IsTally review_tasks p r q task tasks t g o (hit_end x a) (is_tally h c i f m b n) =
          is_tally (suc h) c i f (hit p r task t g x o m) (grind (arith, a, b)) (omega (arith, n))
      one_more-IsTally review_tasks p r q task tasks t g o (conclusive_end v x y a)
            (is_tally h c i f m b n) =
          is_tally h (suc c) i f (conclusive_call p r task t v g x y o m) (grind (arith, a, b))
            (omega (arith, n))
      one_more-IsTally review_tasks p r q task tasks t g o (inconclusive_end v x y a)
            (is_tally h c i f m b n) =
          is_tally h c (suc i) f (inconclusive_call p r task t v g x y o m) (grind (arith, a, b))
            (omega (arith, n))
      one_more-IsTally review_tasks p r q task tasks t g o (failed_end e x a)
            (is_tally h c i f m b n) =
          is_tally h c i (suc f) (failed_call p r task t e g x o m) (grind (arith, a, b))
            (omega (arith, n))

      loop-IsTally :
          (review_tasks : Dict Text ReviewTask) (p q : Progress) (tasks : List AuditTask)
          → task_loop printer run_id reviewer review_tasks p tasks ≡ done q
          → IsTally review_tasks p q tasks
      unfolding task_loop
      loop-IsTally review_tasks p q [] h =
          let e = done_injective _ refl h in
          subst (λ x. IsTally review_tasks p x []) e
            (is_tally 0 0 0 0 all_treated (grind arith) refl)
      loop-IsTally review_tasks p q (task ∷ tasks) h =
          let (r, a, b) =
            after_done (one_task printer run_id reviewer p task (Dict.get review_tasks task.key))
              (λ x. task_loop printer run_id reviewer review_tasks x tasks) h in
          go (Dict.get review_tasks task.key) refl r a (loop-IsTally review_tasks r q tasks b)
        where
          go :
              (o : Option ReviewTask)
              → Dict.get review_tasks task.key ≡ o
              → (r : Progress) → one_task printer run_id reviewer p task o ≡ done r
              → IsTally review_tasks r q tasks
              → IsTally review_tasks p q (task ∷ tasks)
          go none g r a rest = absurd (cc a)
          go (some t) g r a rest =
              one_more-IsTally review_tasks p r q task tasks t g a (one_task-IsEnd p r task t a)
                rest

      -- The counts of a run are those of its tasks.
      pub data IsAccounted (review_tasks : Dict Text ReviewTask) (tasks : List AuditTask)
          (ledger reports : Files) (q : Progress) : Type 0 where
        is_accounted :
            (last : Progress) (hits conclusive inconclusive failed : ℕ)
            → Treated review_tasks last
                (started printer run_id reviewer ledger reports)
                tasks
                hits
                conclusive
                inconclusive
                failed
            → hits + (conclusive + inconclusive + failed) ≡ length tasks
            → q.cache_hits ≡ hits
            → q.llm_calls ≡ conclusive + inconclusive + failed
            → q.completed ≡ hits + conclusive
            → q.inconclusive ≡ inconclusive
            → q.failed ≡ failed
            → IsAccounted review_tasks tasks ledger reports q

      -- A run that is not ended by an exception has treated each of its tasks, in order. Each is a hit,
      -- where the ledger has a review that may stand for it, or else one call of the reviewer, which gives
      -- a conclusive review, an inconclusive one or a failure. The run's counts of hits, inconclusive and
      -- failed tasks are the numbers of such tasks, its count of calls that of all that are no hits, and
      -- its count of completed tasks that of the hits and the conclusive reviews.
      pub execute_reviews_accounts :
          (review_tasks : Dict Text ReviewTask) (tasks : List AuditTask) (exclusions : ℕ)
          (ledger reports : Files) (q : Progress)
          → execute_reviews printer run_id reviewer review_tasks tasks exclusions ledger reports
            ≡ done q
          → IsAccounted review_tasks tasks ledger reports q
      unfolding execute_reviews
      execute_reviews_accounts review_tasks tasks exclusions ledger reports q h =
          let (r, a, b) =
            after_done
              (task_loop printer run_id reviewer review_tasks
                (started printer run_id reviewer ledger reports) tasks)
              (finish_run printer run_id reviewer (length tasks) exclusions) h in
          summed r
            (loop-IsTally review_tasks (started printer run_id reviewer ledger reports) r tasks a)
            (finished r b)
        where
          summed :
              (r : Progress)
              → IsTally review_tasks (started printer run_id reviewer ledger reports) r tasks
              → SameCounts r q
              → IsAccounted review_tasks tasks ledger reports q
          summed r (is_tally x c i f m (b1, b2, b3, b4, b5) n) (d1, d2, d3, d4, d5) =
              is_accounted r x c i f m n (omega (arith, d1, b1)) (omega (arith, d2, b2))
                (omega (arith, d3, b3)) (omega (arith, d4, b4)) (omega (arith, d5, b5))

          finished :
              (r : Progress)
              → finish_run printer run_id reviewer (length tasks) exclusions r ≡ done q
              → SameCounts r q
          finished r h = elim (Bool-cases (ltb 0 r.failed || ltb 0 r.inconclusive)) [
            | inl y ↦ summarised_counts printer run_id reviewer r q _ (rw y at h)
            | inr n ↦ summarised_counts printer run_id reviewer r q _ (rw n at h)
          ]
