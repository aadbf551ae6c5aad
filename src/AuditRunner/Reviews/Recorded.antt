-- ===== src/AuditRunner/Reviews/Recorded.antt =====
-- What a run leaves in the ledger, whether or not an exception ends it.
use csoj_judger.Prelude.{
  ℕ, ◌+◌, ◌≡◌, refl, ◌⊎◌, Bool, true, false, ◌||◌, Option, none, some, List, [], ◌∷◌, length, ltb,
  Bool-cases, inl, inr, if◌then◌else◌,
}
use csoj_judger.Prelude.Order.{Text, ◌===◌, ===_iff, nat_ord, list_ord}
use csoj_judger.Prelude.Dict
use csoj_judger.Prelude.Dict.{Dict, put, get-put}
use csoj_judger.Prelude.Result.{Result, ok, err}
use csoj_judger.Domain.{AuditTask}
use csoj_judger.ReviewLedger.{
  CompletedReview, LedgerError, FilePath, Files, record_review, record_at, write_over,
  write_create_only, payload_of, path, lookup, not_conclusive,
}
use csoj_judger.ReportStore.{Printer, Written, write_task_attempt}
use csoj_judger.AuditRunner.Reviews.{
  ReviewTask, compliance_task, plagiarism_task, identity_of, ReviewFailure, Progress, Outcome, done,
  stopped, after, progress_of, reusable, usable, stored, recorded, owner_copy, write_derived, reuse,
  keep_review, write_review_result, take_conclusive, take_inconclusive, take_review, take_answer,
  resolve_task, looked_up, one_task, task_loop, inconclusive_payload, summarised, finish_run,
  started, execute_reviews,
}

module _ (printer : Printer) (run_id : Text)
    (reviewer : ℕ → ReviewTask → Result ReviewFailure CompletedReview) where
  -- The text of a conclusive review that the reviewer gave for a task, compliant if the task is one of
  -- compliance, at the path of its identity.
  pub data IsGiven (p : FilePath) (content : Text) : Type 0 where
    is_given :
        (n : ℕ) (t : ReviewTask) (review : CompletedReview)
        → reviewer n t ≡ ok review
        → review.conclusive ≡ true
        → reusable t review ≡ true
        → path printer.codec review.identity ≡ ok p
        → content ≡ payload_of printer.codec review
        → IsGiven p content

  abbrev pub Keeps : Files → Files → Type 0
  Keeps ledger later =
      (p : FilePath) (content : Text)
      → Dict.get ledger p ≡ some content
      → Dict.get later p ≡ some content

  abbrev pub AddsGiven : Files → Files → Type 0
  AddsGiven ledger later =
      (p : FilePath) (content : Text)
      → Dict.get later p ≡ some content
      → (Dict.get ledger p ≡ some content) ⊎ IsGiven p content

  pub data Grows (ledger later : Files) : Type 0 where
    grows : Keeps ledger later → AddsGiven ledger later → Grows ledger later

  unchanged : (ledger : Files) → Grows ledger ledger
  unchanged ledger = grows (λ p content h. h) (λ p content h. inl h)

  Grows-trans : (a b c : Files) → Grows a b → Grows b c → Grows a c
  Grows-trans a b c (grows k1 a1) (grows k2 a2) =
      grows (λ p content h. k2 p content (k1 p content h))
        (λ p content h. back p content (a2 p content h))
    where
      back :
          (p : FilePath) (content : Text)
          → (Dict.get b p ≡ some content) ⊎ IsGiven p content
          → (Dict.get a p ≡ some content) ⊎ IsGiven p content
      back p content (inl h) = a1 p content h
      back p content (inr g) = inr g

  put-Grows :
      (ledger : Files) (target : FilePath) (payload : Text)
      → Dict.get ledger target ≡ none
      → IsGiven target payload
      → Grows ledger (put ledger target payload)
  put-Grows ledger target payload new given =
      grows (λ p content h. kept p content (Bool-cases (target === p)) h)
        (λ p content h. added p content (Bool-cases (target === p)) h)
    where
      kept :
          (p : FilePath) (content : Text)
          → ((target === p) ≡ true) ⊎ ((target === p) ≡ false)
          → Dict.get ledger p ≡ some content
          → Dict.get (put ledger target payload) p ≡ some content
      kept p content (inl y) h = absurd (cc ((===_iff target p).0 y, new, h))
      kept p content (inr n) h = rw (get-put ledger target p payload, n) h

      added :
          (p : FilePath) (content : Text)
          → ((target === p) ≡ true) ⊎ ((target === p) ≡ false)
          → Dict.get (put ledger target payload) p ≡ some content
          → (Dict.get ledger p ≡ some content) ⊎ IsGiven p content
      added p content (inl y) h =
          let e : some payload ≡ some content = rw (get-put ledger target p payload, y) at h in
          inr (moved p content ((===_iff target p).0 y) (same e))
        where
          same : {a b : Text} → some a ≡ some b → a ≡ b
          same h = cc h

          moved :
              (p : FilePath) (content : Text) → target ≡ p → payload ≡ content → IsGiven p content
          moved p content e f = rw (← e, ← f) given
      added p content (inr n) h = inl (rw (get-put ledger target p payload, n) at h)

  record_review-Grows :
      (ledger : Files) (n : ℕ) (t : ReviewTask) (review : CompletedReview)
      → reviewer n t ≡ ok review
      → reusable t review ≡ true
      → Grows ledger (record_review printer.codec ledger review).0
  unfolding record_review write_create_only
  record_review-Grows ledger n t review r u =
      go review.conclusive refl (path printer.codec review.identity) refl
    where
      at :
          (target : FilePath) (o : Option Text)
          → Dict.get ledger target ≡ o
          → IsGiven target (payload_of printer.codec review)
          → Grows ledger (write_over ledger target (payload_of printer.codec review) o).0
      at target none e g = put-Grows ledger target (payload_of printer.codec review) e g
      at target (some old) e g = elim (Bool-cases (old === payload_of printer.codec review)) [
        | inl y ↦ rw y (unchanged ledger)
        | inr y ↦ rw y (unchanged ledger)
      ]

      go :
          (b : Bool)
          → review.conclusive ≡ b
          → (o : Result LedgerError FilePath) → path printer.codec review.identity ≡ o
          → Grows ledger
              (if b
                then record_at printer.codec ledger review o
                else (ledger, err not_conclusive)).0
      go false e o p = unchanged ledger
      go true e (err x) p = unchanged ledger
      go true e (ok target) p =
          at target (Dict.get ledger target) refl (is_given n t review r e u p refl)

  abbrev pub GrowsTo : Progress → Outcome → Type 0
  GrowsTo p o = Grows p.ledger (progress_of o).ledger

  after_grows :
      (p : Progress) (o : Outcome) (next : Progress → Outcome)
      → GrowsTo p o
      → ((q : Progress) → GrowsTo q (next q))
      → GrowsTo p (after o next)
  after_grows p (done q) next h f =
      Grows-trans p.ledger q.ledger (progress_of (next q)).ledger h (f q)
  after_grows p (stopped e q) next h f = h

  stored_grows : (p : Progress) (w : Written) → GrowsTo p (stored p w)
  stored_grows p (files, ok target) = unchanged p.ledger
  stored_grows p (files, err e) = unchanged p.ledger

  derived_grows :
      (p : Progress) (task : AuditTask) (t : ReviewTask) (review : CompletedReview)
      → GrowsTo p (write_derived printer p task t review)
  unfolding write_derived
  derived_grows p task (compliance_task i owner score) review = go task.submission_ids
    where
      go : (ids : List Text) → GrowsTo p (owner_copy printer p task owner score review ids)
      go [] = unchanged p.ledger
      go (id ∷ ids) = stored_grows p _
  derived_grows p task (plagiarism_task i owners submitted_at signal jaccard) review =
      stored_grows p _

  keep_grows :
      (p : Progress) (n : ℕ) (t : ReviewTask) (review : CompletedReview)
      → reviewer n t ≡ ok review
      → GrowsTo p (keep_review printer run_id p t review)
  keep_grows p n t review r = go (reusable t review) refl
    where
      at : (w : Files × Result LedgerError FilePath) → Grows p.ledger w.0 → GrowsTo p (recorded p w)
      at (files, ok target) h = h
      at (files, err e) h = h

      go :
          (b : Bool)
          → reusable t review ≡ b
          → GrowsTo p
              (if b then recorded p (record_review printer.codec p.ledger review) else done p)
      go true u =
          at (record_review printer.codec p.ledger review)
            (record_review-Grows p.ledger n t review r u)
      go false u = unchanged p.ledger

  result_grows :
      (p : Progress) (task : AuditTask) (review : CompletedReview)
      → GrowsTo p (write_review_result printer run_id p task review)
  result_grows p task review = stored_grows p _

  conclusive_grows :
      (p : Progress) (task : AuditTask) (n : ℕ) (t : ReviewTask) (review : CompletedReview)
      → reviewer n t ≡ ok review
      → GrowsTo p (take_conclusive printer run_id p task t review)
  conclusive_grows p task n t review r =
      after_grows p (keep_review printer run_id p t review) _ (keep_grows p n t review r) (λ q.
        after_grows q
          (write_review_result printer run_id (record q { completed = q.completed + 1 }) task
            review)
          (λ s. write_derived printer s task t review)
          (result_grows (record q { completed = q.completed + 1 }) task review)
          (λ s. derived_grows s task t review))

  inconclusive_grows :
      (p : Progress) (task : AuditTask) (t : ReviewTask) (review : CompletedReview)
      → GrowsTo p (take_inconclusive printer run_id p task t review)
  inconclusive_grows p task t review =
      let w =
        write_task_attempt printer p.reports run_id task.key
          (inconclusive_payload printer task review) in
      after_grows p (stored (record p { inconclusive = p.inconclusive + 1 }) w)
        (λ s. write_derived printer s task t review)
        (stored_grows (record p { inconclusive = p.inconclusive + 1 }) w)
        (λ q. derived_grows q task t review)

  reuse_grows :
      (p : Progress) (task : AuditTask) (t : ReviewTask) (cached : CompletedReview)
      → GrowsTo p (reuse printer run_id p task t cached)
  unfolding reuse
  reuse_grows p task t cached =
      after_grows p
        (write_review_result printer run_id
          (record p { cache_hits = p.cache_hits + 1; completed = p.completed + 1 }) task cached)
        (λ q. write_derived printer q task t cached)
        (result_grows (record p { cache_hits = p.cache_hits + 1; completed = p.completed + 1 }) task
          cached)
        (λ q. derived_grows q task t cached)

  answer_grows :
      (p : Progress) (task : AuditTask) (n : ℕ) (t : ReviewTask)
      (answer : Result ReviewFailure CompletedReview)
      → reviewer n t ≡ answer
      → GrowsTo p (take_answer printer run_id p task t answer)
  unfolding take_answer take_review
  answer_grows p task n t (err e) r = stored_grows (record p { failed = p.failed + 1 }) _
  answer_grows p task n t (ok review) r = go review.conclusive
    where
      go :
          (b : Bool)
          → GrowsTo p (
              if b
              then take_conclusive printer run_id p task t review
              else take_inconclusive printer run_id p task t review)
      go true = conclusive_grows p task n t review r
      go false = inconclusive_grows p task t review

  one_grows :
      (p : Progress) (task : AuditTask) (t : Option ReviewTask)
      → GrowsTo p (one_task printer run_id reviewer p task t)
  one_grows p task none = unchanged p.ledger
  one_grows p task (some t) = at (lookup printer.codec p.ledger (identity_of t))
    where
      resolved :
          (o : Option CompletedReview) → GrowsTo p (resolve_task printer run_id reviewer p task t o)
      resolved none =
          answer_grows (record p { llm_calls = p.llm_calls + 1 }) task p.llm_calls t
            (reviewer p.llm_calls t) refl
      resolved (some cached) = reuse_grows p task t cached

      at :
          (found : Result LedgerError (Option CompletedReview))
          → GrowsTo p (looked_up printer run_id reviewer p task t found)
      at (err e) = unchanged p.ledger
      at (ok cached) = resolved (usable t cached)

  loop_grows :
      (review_tasks : Dict Text ReviewTask) (p : Progress) (tasks : List AuditTask)
      → GrowsTo p (task_loop printer run_id reviewer review_tasks p tasks)
  unfolding task_loop
  loop_grows review_tasks p [] = unchanged p.ledger
  loop_grows review_tasks p (task ∷ tasks) =
      after_grows p (one_task printer run_id reviewer p task (Dict.get review_tasks task.key)) _
        (one_grows p task (Dict.get review_tasks task.key)) (λ q. loop_grows review_tasks q tasks)

  -- However a run ends, every file that the ledger had is unchanged, and every file that it has more
  -- holds, at the path of its identity, a conclusive review that the reviewer gave; for a task of
  -- compliance, one that found the submission compliant.
  pub execute_reviews-Grows :
      (review_tasks : Dict Text ReviewTask) (tasks : List AuditTask) (exclusions : ℕ)
      (ledger reports : Files)
      → Grows ledger
          (progress_of (
            execute_reviews printer run_id reviewer review_tasks tasks exclusions ledger
              reports)).ledger
  unfolding execute_reviews
  execute_reviews-Grows review_tasks tasks exclusions ledger reports =
      after_grows (started printer run_id reviewer ledger reports)
        (task_loop printer run_id reviewer review_tasks
          (started printer run_id reviewer ledger reports) tasks)
        (finish_run printer run_id reviewer (length tasks) exclusions)
        (loop_grows review_tasks (started printer run_id reviewer ledger reports) tasks) finished
    where
      summary_written :
          (q : Progress) (w : Written) → GrowsTo q (summarised printer run_id reviewer q w)
      summary_written q (files, ok target) = unchanged q.ledger
      summary_written q (files, err e) = unchanged q.ledger

      finished :
          (q : Progress)
          → GrowsTo q (finish_run printer run_id reviewer (length tasks) exclusions q)
      finished q = elim (Bool-cases (ltb 0 q.failed || ltb 0 q.inconclusive)) [
        | inl y ↦ rw y (summary_written q _)
        | inr y ↦ rw y (summary_written q _)
      ]
