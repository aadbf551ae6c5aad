-- ===== src/Nightly/Accounting.antt =====
-- The nightly run accounts for every candidate.
use csoj_judger.Prelude.{
  Bool, true, ◌&&◌, Option, ap, sym, ◌↔◌, if◌then◌else◌, ℕ, suc, ◌+◌, ◌≡◌, refl, subst, false, none,
  some, List, [], ◌∷◌, length, Memᴰ, arith, Bool-cases, inl, inr,
}
use csoj_judger.Prelude.Order.{Text, text, ◌===◌, ===_iff, nat_ord, list_ord}
use csoj_judger.Prelude.Result.{ok}
use csoj_judger.Json
use csoj_judger.Json.{Fields, str?, mapping?}
use csoj_judger.Catalog.{member}
use csoj_judger.Domain.{Submission}
use csoj_judger.Nightly.{
  Client, Answer, answer, raises, Verdict, skip, NightlyReviewSummary, Tally, note, treat,
  treat_answer, reviewed_if, text_is, entry_is, text_in, entry_in, rules_version, prompt_version,
  schema_version, can_skip, nightly_model, nightly_candidates, review_loop, run, summary_of,
}

note_total :
    (id : Text) (v : Verdict) (t : Tally) (n : ℕ)
    → t.skipped + t.reviewed_so_far + length t.failed ≡ n
    → (note id v t).skipped + (note id v t).reviewed_so_far + length (note id v t).failed ≡ suc n
note_total id v t n h = ground arith

loop_total :
    (basis : Text) (client : Client) (ss : List Submission)
    → (review_loop basis client ss).skipped
        + (review_loop basis client ss).reviewed_so_far
        + length (review_loop basis client ss).failed
      ≡ length ss
unfolding review_loop
loop_total basis client [] = refl
loop_total basis client (s ∷ ss) =
    note_total s.id (treat basis client s) (review_loop basis client ss) (length ss)
      (loop_total basis client ss)

both : (a : Bool) {b : Bool} → (a && b) ≡ true → (a ≡ true) × (b ≡ true)
both true h = (refl, h)
both false h = absurd (cc h)

-- The entry of a dictionary is the text.
abbrev pub HasText : Option Fields → Text → Text → Type 0
HasText o key value = (d : Fields) × (o ≡ some d) × (str? (Json.get d key) ≡ some value)

text_is_iff : (o : Option Text) (value : Text) → (text_is o value ≡ true) ↔ (o ≡ some value)
text_is_iff none value = (λ h. absurd (cc h), λ h. absurd (cc h))
text_is_iff (some s) value =
    (λ h. ap (λ x. some x) ((===_iff s value).0 h), λ h. (===_iff s value).1 (cc h))

entry_is_iff :
    (o : Option Fields) (key value : Text) → (entry_is o key value ≡ true) ↔ HasText o key value
entry_is_iff none key value = (λ h. absurd (cc h), λ (d, e, q). absurd (cc e))
entry_is_iff (some d) key value = (
  λ h. (d, refl, (text_is_iff (str? (Json.get d key)) value).0 h),
  λ (d', e, q).
      let same : d ≡ d' = cc e in (text_is_iff (str? (Json.get d key)) value).1 (cc (same, q)),
)

member_iff : (t : Text) (ts : List Text) → (member t ts ≡ true) ↔ Memᴰ t ts
member_iff t [] = (λ h. absurd (cc h), λ m. elim m [ ])
member_iff t (u ∷ ts) = elim (Bool-cases (t === u)) [
  | inl y ↦ (λ h. Memᴰ.head ((===_iff t u).0 y), λ m. rw y refl)
  | inr n ↦ (λ h. Memᴰ.tail ((member_iff t ts).0 (rw n at h)), later n (member_iff t ts).1)
]
  where
    later :
        (t === u) ≡ false
        → (Memᴰ t ts → member t ts ≡ true)
        → Memᴰ t (u ∷ ts)
        → member t (u ∷ ts) ≡ true
    later n ih (Memᴰ.head e) = absurd (cc (n, (===_iff t u).1 e))
    later n ih (Memᴰ.tail m) = rw n (ih m)

abbrev pub HasTextIn : Option Fields → Text → List Text → Type 0
HasTextIn o key values = (value : Text) × HasText o key value × Memᴰ value values

entry_in_iff :
    (o : Option Fields) (key : Text) (values : List Text)
    → (entry_in o key values ≡ true) ↔ HasTextIn o key values
entry_in_iff none key values = (λ h. absurd (cc h), λ (v, (d, e, q), m). absurd (cc e))
entry_in_iff (some d) key values = go (str? (Json.get d key)) refl
  where
    go :
        (t : Option Text)
        → str? (Json.get d key) ≡ t
        → (text_in t values ≡ true) ↔ HasTextIn (some d) key values
    go none e = (
      λ h. absurd (cc h),
      λ (v, (d', f, q), m). let same : d ≡ d' = cc f in absurd (cc (e, same, q)),
    )
    go (some t) e = (
      λ h. (t, (d, refl, e), (member_iff t values).0 h),
      λ (v, (d', f, q), m).
          let same : d ≡ d' = cc f in
          let equal : t ≡ v = cc (e, same, q) in
          (member_iff t values).1 (subst (λ x. Memᴰ x values) (sym equal) m),
    )

-- The report answers for the candidate: it is a completed, compliant one of the submission, made on the
-- basis and with the current rules, prompt and schema by a model that is allowed.
pub data IsCurrent (basis : Text) (report : Fields) (id : Text) (models : List Text) : Type 0 where
  is_current :
      HasText (mapping? (Json.get report (text "submission"))) (text "id") id
      → str? (Json.get report (text "state")) ≡ some (text "completed")
      → str? (Json.get report (text "decision")) ≡ some (text "compliant")
      → HasText (mapping? (Json.get report (text "provenance"))) (text "basis_commit") basis
      → HasText
          (mapping? (Json.get report (text "provenance")))
          (text "rules_version")
          (text "audit-rules-v2")
      → HasText
          (mapping? (Json.get report (text "provenance")))
          (text "prompt_version")
          (text "compliance-v5")
      → HasText
          (mapping? (Json.get report (text "provenance")))
          (text "schema_version")
          (text "compliance-result-v2")
      → HasTextIn (mapping? (Json.get report (text "provenance"))) (text "model") models
      → IsCurrent basis report id models

IsCurrent-can_skip :
    (basis : Text) (report : Fields) (id : Text) (models : List Text)
    → can_skip basis report id models ≡ true
    → IsCurrent basis report id models
unfolding can_skip
IsCurrent-can_skip basis report id models h =
    let submission = mapping? (Json.get report (text "submission")) in
    let provenance = mapping? (Json.get report (text "provenance")) in
    let (a, h1) = both (entry_is submission (text "id") id) h in
    let (b, h2) = both (text_is (str? (Json.get report (text "state"))) (text "completed")) h1 in
    let (c, h3) = both (text_is (str? (Json.get report (text "decision"))) (text "compliant")) h2 in
    let (d, h4) = both (entry_is provenance (text "basis_commit") basis) h3 in
    let (e, h5) = both (entry_is provenance (text "rules_version") rules_version) h4 in
    let (f, h6) = both (entry_is provenance (text "prompt_version") prompt_version) h5 in
    let (g, i) = both (entry_is provenance (text "schema_version") schema_version) h6 in
    is_current ((entry_is_iff submission (text "id") id).0 a)
      ((text_is_iff (str? (Json.get report (text "state"))) (text "completed")).0 b)
      ((text_is_iff (str? (Json.get report (text "decision"))) (text "compliant")).0 c)
      ((entry_is_iff provenance (text "basis_commit") basis).0 d)
      ((entry_is_iff provenance (text "rules_version") rules_version).0 e)
      ((entry_is_iff provenance (text "prompt_version") prompt_version).0 f)
      ((entry_is_iff provenance (text "schema_version") schema_version).0 g)
      ((entry_in_iff provenance (text "model") models).0 i)

can_skip-IsCurrent :
    (basis : Text) (report : Fields) (id : Text) (models : List Text)
    → IsCurrent basis report id models
    → can_skip basis report id models ≡ true
unfolding can_skip
can_skip-IsCurrent basis report id models (is_current a b c d e f g i) =
    let submission = mapping? (Json.get report (text "submission")) in
    let provenance = mapping? (Json.get report (text "provenance")) in
    let a' = (entry_is_iff submission (text "id") id).1 a in
    let b' = (text_is_iff (str? (Json.get report (text "state"))) (text "completed")).1 b in
    let c' = (text_is_iff (str? (Json.get report (text "decision"))) (text "compliant")).1 c in
    let d' = (entry_is_iff provenance (text "basis_commit") basis).1 d in
    let e' = (entry_is_iff provenance (text "rules_version") rules_version).1 e in
    let f' = (entry_is_iff provenance (text "prompt_version") prompt_version).1 f in
    let g' = (entry_is_iff provenance (text "schema_version") schema_version).1 g in
    let i' = (entry_in_iff provenance (text "model") models).1 i in
    rw (a', b', c', d', e', f', g', i') refl

-- The report was read and is none that answers for the candidate.
abbrev pub NeedsReview : Text → Client → Text → Type 0
NeedsReview basis client id =
    (current : Option Fields) × (client.report id ≡ answer current)
    × ((report : Fields)
        → current ≡ some report
        → ¬ IsCurrent basis report id client.allowed_models)

-- What happens to the candidates, in their order: the numbers of skipped and of reviewed ones, and the
-- ids of the failed ones. A candidate is skipped when its report answers for it. Otherwise its review is
-- called for: it is reviewed when that returns, and fails when that raises. It also fails when its report
-- cannot be read.
pub data CandidateTrace (basis : Text) (client : Client)
    : List Submission → ℕ → ℕ → List Text → Type 0 where
  no_more : CandidateTrace basis client [] 0 0 []
  skips :
      {ss : List Submission} {n m : ℕ} {ids : List Text} (s : Submission) (report : Fields)
      → client.report s.id ≡ answer (some report)
      → IsCurrent basis report s.id client.allowed_models
      → CandidateTrace basis client ss n m ids
      → CandidateTrace basis client (s ∷ ss) (suc n) m ids
  reviews :
      {ss : List Submission} {n m : ℕ} {ids : List Text} (s : Submission)
      → NeedsReview basis client s.id
      → client.review s.id nightly_model ≡ true
      → CandidateTrace basis client ss n m ids
      → CandidateTrace basis client (s ∷ ss) n (suc m) ids
  refused :
      {ss : List Submission} {n m : ℕ} {ids : List Text} (s : Submission)
      → NeedsReview basis client s.id
      → client.review s.id nightly_model ≡ false
      → CandidateTrace basis client ss n m ids
      → CandidateTrace basis client (s ∷ ss) n m (s.id ∷ ids)
  unreadable :
      {ss : List Submission} {n m : ℕ} {ids : List Text} (s : Submission)
      → client.report s.id ≡ raises
      → CandidateTrace basis client ss n m ids
      → CandidateTrace basis client (s ∷ ss) n m (s.id ∷ ids)

-- The tally of the candidates in a verdict's wake.
abbrev Tallied : Text → Client → List Submission → Tally → Type 0
Tallied basis client ss t = CandidateTrace basis client ss t.skipped t.reviewed_so_far t.failed

loop-Tallied :
    (basis : Text) (client : Client) (ss : List Submission)
    → Tallied basis client ss (review_loop basis client ss)
unfolding review_loop treat
loop-Tallied basis client [] = no_more
loop-Tallied basis client (s ∷ ss) =
    go (client.report s.id) refl (review_loop basis client ss) (loop-Tallied basis client ss)
  where
    called :
        (t : Tally) (b : Bool)
        → client.review s.id nightly_model ≡ b
        → NeedsReview basis client s.id
        → Tallied basis client ss t
        → Tallied basis client (s ∷ ss) (note s.id (reviewed_if b) t)
    called t true e n h = reviews s n e h
    called t false e n h = refused s n e h

    decided :
        (t : Tally) (report : Fields) (b : Bool)
        → can_skip basis report s.id client.allowed_models ≡ b
        → client.report s.id ≡ answer (some report)
        → Tallied basis client ss t
        → Tallied basis client
            (s ∷ ss)
            (note s.id (if b then skip else reviewed_if (client.review s.id nightly_model)) t)
    decided t report true c e h =
        skips s report e (IsCurrent-can_skip basis report s.id client.allowed_models c) h
    decided t report false c e h =
        called t (client.review s.id nightly_model) refl
          (
            some report,
            e,
            λ r same current.
                let equal : report ≡ r = cc same in
                let yes = can_skip-IsCurrent basis r s.id client.allowed_models current in
                let no : can_skip basis r s.id client.allowed_models ≡ false =
                  subst (λ x. can_skip basis x s.id client.allowed_models ≡ false) equal c in
                absurd (cc (yes, no)),
          )
          h

    go :
        (a : Answer)
        → client.report s.id ≡ a
        → (t : Tally) → Tallied basis client ss t
        → Tallied basis client (s ∷ ss) (note s.id (treat_answer basis client s.id a) t)
    go raises e t h = unreadable s e h
    go (answer none) e t h =
        called t (client.review s.id nightly_model) refl (none, e, λ r same. absurd (cc same)) h
    go (answer (some report)) e t h =
        decided t report (can_skip basis report s.id client.allowed_models) refl e h

-- A run that returns treats each candidate of the snapshot once, in order. It counts as skipped exactly
-- those with a completed, compliant report of theirs, of the current basis and versions and by an allowed
-- model, as reviewed exactly those
-- whose review is called for and returns, and lists as failed exactly the ids of those whose report
-- cannot be read or whose review raises. The three numbers add up to the number of candidates.
pub run_accounts :
    (catalog : List Submission) (client : Client) (basis : Text) (cutoff : ℕ)
    (summary : NightlyReviewSummary)
    → run catalog client basis cutoff ≡ ok summary
    → (summary.candidate_count ≡ length (nightly_candidates catalog cutoff))
      × (summary.skipped_count + summary.reviewed_count + summary.failed_count
          ≡ summary.candidate_count)
      × (summary.failed_count ≡ length summary.failed_submission_ids)
      × CandidateTrace basis client
          (nightly_candidates catalog cutoff)
          summary.skipped_count
          summary.reviewed_count
          summary.failed_submission_ids
unfolding run
run_accounts catalog client basis cutoff summary h =
    let ss = nightly_candidates catalog cutoff in
    let e : summary_of cutoff ss (review_loop basis client ss) ≡ summary = ground arith in
    subst Accounted e (refl, loop_total basis client ss, refl, loop-Tallied basis client ss)
  where
    Accounted : NightlyReviewSummary → Type 0
    Accounted r =
        (r.candidate_count ≡ length (nightly_candidates catalog cutoff))
        × (r.skipped_count + r.reviewed_count + r.failed_count ≡ r.candidate_count)
        × (r.failed_count ≡ length r.failed_submission_ids)
        × CandidateTrace basis client (nightly_candidates catalog cutoff) r.skipped_count
            r.reviewed_count r.failed_submission_ids
