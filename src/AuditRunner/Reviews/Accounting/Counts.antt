-- ===== src/AuditRunner/Reviews/Accounting/Counts.antt =====
-- How each step of a run changes its five counts.
use csoj_judger.Prelude.{
  ℕ, ◌+◌, ◌≡◌, ◌↔◌, refl, ap, sym, Bool, true, false, Option, none, some, List, [], ◌∷◌, arith,
  Bool-cases, inl, inr,
}
use csoj_judger.Prelude.Order.{Text, text, ◌===◌, ===_iff, nat_ord, list_ord}
use csoj_judger.Prelude.Result.{Result, ok, err}
use csoj_judger.Json
use csoj_judger.Json.{Json, Fields, null, bool, int, real, str, arr, obj}
use csoj_judger.Domain.{AuditTask}
use csoj_judger.ReviewLedger.{CompletedReview, LedgerError, FilePath, Files}
use csoj_judger.ReportStore.{Printer, Written}
use csoj_judger.AuditRunner.Reviews.{
  ReviewTask, compliance_task, plagiarism_task, ReviewFailure, Progress, Outcome, done, stopped,
  after, decision_is, reusable, stored, recorded, owner_copy, write_derived, reuse, keep_review,
  write_review_result, take_conclusive, take_inconclusive, summarised,
}

-- The five counts are the same.
abbrev pub SameCounts : Progress → Progress → Type 0
SameCounts p q =
    (q.cache_hits ≡ p.cache_hits)
    × (q.llm_calls ≡ p.llm_calls)
    × (q.completed ≡ p.completed)
    × (q.inconclusive ≡ p.inconclusive)
    × (q.failed ≡ p.failed)

-- What the five counts grow by: hits, calls, completed, inconclusive and failed.
abbrev pub Adds : ℕ → ℕ → ℕ → ℕ → ℕ → Progress → Progress → Type 0
Adds hits calls completed inconclusive failed p q =
    (q.cache_hits ≡ p.cache_hits + hits)
    × (q.llm_calls ≡ p.llm_calls + calls)
    × (q.completed ≡ p.completed + completed)
    × (q.inconclusive ≡ p.inconclusive + inconclusive)
    × (q.failed ≡ p.failed + failed)

-- A review may stand for a task of its identity: a compliance review only if it found the submission
-- compliant.
abbrev pub MayServe : ReviewTask → CompletedReview → Type 0
MayServe (compliance_task i owner score) review =
    Json.get review.verdict (text "decision") ≡ some (str (text "compliant"))
MayServe (plagiarism_task i owners submitted_at signal jaccard) review = Unit

decision_is_iff :
    (d : Text) (verdict : Fields)
    → (decision_is d verdict ≡ true) ↔ (Json.get verdict (text "decision") ≡ some (str d))
decision_is_iff d verdict = go (Json.get verdict (text "decision"))
  where
    test : Option Json → Bool
    test o = elim o [ none ↦ false | some v ↦ elim v [ str s ↦ s === d | _ ↦ false ] ]

    go : (o : Option Json) → (test o ≡ true) ↔ (o ≡ some (str d))
    go none = (λ h. absurd (cc h), λ h. absurd (cc h))
    go (some null) = (λ h. absurd (cc h), λ h. absurd (cc h))
    go (some (bool x)) = (λ h. absurd (cc h), λ h. absurd (cc h))
    go (some (int x)) = (λ h. absurd (cc h), λ h. absurd (cc h))
    go (some (real x)) = (λ h. absurd (cc h), λ h. absurd (cc h))
    go (some (arr x)) = (λ h. absurd (cc h), λ h. absurd (cc h))
    go (some (obj x)) = (λ h. absurd (cc h), λ h. absurd (cc h))
    go (some (str s)) =
        (λ h. ap (λ t. some (str t)) ((===_iff s d).0 h), λ h. (===_iff s d).1 (cc h))

pub reusable_iff :
    (t : ReviewTask) (review : CompletedReview) → (reusable t review ≡ true) ↔ MayServe t review
reusable_iff (compliance_task i owner score) review =
    decision_is_iff (text "compliant") review.verdict
reusable_iff (plagiarism_task i owners submitted_at signal jaccard) review = (λ h. tt, λ h. refl)

pub after_done :
    (o : Outcome) (next : Progress → Outcome) {q : Progress}
    → after o next ≡ done q
    → (p : Progress) × (o ≡ done p) × (next p ≡ done q)
after_done (done p) next h = (p, refl, h)
after_done (stopped e p) next h = absurd (cc h)

pub done_injective : (o : Outcome) {p q : Progress} → o ≡ done p → o ≡ done q → p ≡ q
done_injective o h k = cc (h, k)

equal_counts : {p q : Progress} → p ≡ q → SameCounts p q
equal_counts e = (
  ap (λ (x : Progress). x.cache_hits) (sym e),
  ap (λ (x : Progress). x.llm_calls) (sym e),
  ap (λ (x : Progress). x.completed) (sym e),
  ap (λ (x : Progress). x.inconclusive) (sym e),
  ap (λ (x : Progress). x.failed) (sym e),
)

pub stored_counts : (p q : Progress) (w : Written) → stored p w ≡ done q → SameCounts p q
stored_counts p q (files, ok target) h = equal_counts (done_injective _ refl h)
stored_counts p q (files, err e) h = absurd (cc h)

recorded_counts :
    (p q : Progress) (w : Files × Result LedgerError FilePath)
    → recorded p w ≡ done q
    → SameCounts p q
recorded_counts p q (files, ok target) h = equal_counts (done_injective _ refl h)
recorded_counts p q (files, err e) h = absurd (cc h)

pub summarised_counts :
    (printer : Printer) (run_id : Text)
    (reviewer : ℕ → ReviewTask → Result ReviewFailure CompletedReview) (p q : Progress)
    (w : Written)
    → summarised printer run_id reviewer p w ≡ done q
    → SameCounts p q
summarised_counts printer run_id reviewer p q (files, ok target) h =
    equal_counts (done_injective _ refl h)
summarised_counts printer run_id reviewer p q (files, err e) h = absurd (cc h)

module _ (printer : Printer) where
  derived_counts :
      (p q : Progress) (task : AuditTask) (t : ReviewTask) (review : CompletedReview)
      → write_derived printer p task t review ≡ done q
      → SameCounts p q
  unfolding write_derived
  derived_counts p q task (compliance_task i owner score) review h = go task.submission_ids h
    where
      go :
          (ids : List Text)
          → owner_copy printer p task owner score review ids ≡ done q
          → SameCounts p q
      go [] h = absurd (cc h)
      go (id ∷ ids) h = stored_counts p q _ h
  derived_counts p q task (plagiarism_task i owners submitted_at signal jaccard) review h =
      stored_counts p q _ h

  module _ (run_id : Text) where
    pub reuse_counts :
        (p q : Progress) (task : AuditTask) (t : ReviewTask) (cached : CompletedReview)
        → reuse printer run_id p task t cached ≡ done q
        → Adds 1 0 1 0 0 p q
    unfolding reuse
    reuse_counts p q task t cached h =
        let (r, a, b) =
          after_done
            (write_review_result printer run_id
              (record p { cache_hits = p.cache_hits + 1; completed = p.completed + 1 }) task cached)
            (λ x. write_derived printer x task t cached) h in
        let s =
          stored_counts (record p { cache_hits = p.cache_hits + 1; completed = p.completed + 1 }) r
            _ a in
        let d = derived_counts r q task t cached b in grind (arith, s, d)

    kept_counts :
        (p q : Progress) (t : ReviewTask) (review : CompletedReview)
        → keep_review printer run_id p t review ≡ done q
        → SameCounts p q
    kept_counts p q t review h = elim (Bool-cases (reusable t review)) [
      | inl y ↦ recorded_counts p q _ (rw y at h)
      | inr n ↦ equal_counts (done_injective _ refl (rw n at h))
    ]

    pub conclusive_counts :
        (p q : Progress) (task : AuditTask) (t : ReviewTask) (review : CompletedReview)
        → take_conclusive printer run_id p task t review ≡ done q
        → Adds 0 0 1 0 0 p q
    conclusive_counts p q task t review h =
        let (r, a, b) =
          after_done (keep_review printer run_id p t review)
            (λ x.
              after
                (write_review_result printer run_id (record x { completed = x.completed + 1 }) task
                  review)
                (λ y. write_derived printer y task t review))
            h in
        let (s, c, d) =
          after_done
            (write_review_result printer run_id (record r { completed = r.completed + 1 }) task
              review)
            (λ y. write_derived printer y task t review) b in
        let k = kept_counts p r t review a in
        let l = stored_counts (record r { completed = r.completed + 1 }) s _ c in
        let m = derived_counts s q task t review d in grind (arith, k, l, m)

    pub inconclusive_counts :
        (p q : Progress) (task : AuditTask) (t : ReviewTask) (review : CompletedReview)
        → take_inconclusive printer run_id p task t review ≡ done q
        → Adds 0 0 0 1 0 p q
    inconclusive_counts p q task t review h =
        let (r, a, b) = after_done _ (λ y. write_derived printer y task t review) h in
        let l = stored_counts (record p { inconclusive = p.inconclusive + 1 }) r _ a in
        let m = derived_counts r q task t review b in grind (arith, l, m)
