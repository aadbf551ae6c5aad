-- ===== src/AgentExecution/Outcomes.antt =====
-- What a report of `LocalAgentRunExecutor.execute` stands for, and what escapes it.
use csoj_judger.Prelude.{
  ◌≡◌, refl, ap, subst, if◌then◌else◌, Bool-cases, inl, inr, Bool, true, false, Option, none, some,
  List, arith,
}
use csoj_judger.Prelude.Order.{Text, text, ◌===◌, nat_ord, list_ord, ===_iff}
use csoj_judger.Json
use csoj_judger.Json.{Json, obj, str, bool, Fields, json_eq, mapping?, list?, str?}
use csoj_judger.AgentExecution.{
  Raised, os_error, runtime_error, other, Attempt, returns, raises, Basis, Reference, Reviewed,
  VerifiedReviewBundle, Ports, reported, load_references, expected_basis, Decision, compliant,
  violation, inconclusive, decision_text, decision_of, is_hashable, decide, report_fields,
  report_with, normalized_report, policy_for, finish_review, with_references, with_basis,
  with_request, with_mappings, execute, review_failure, basis_failure,
}

-- A review of the basis that the bundle names, which is the basis that was loaded, gave the report.
pub data IsReview (ports : Ports) (bundle : VerifiedReviewBundle) (r : Fields) : Type 0 where
  is_review :
      (submission raw : Fields) (revision : Text) (requested : List Json) (basis : Basis)
      (references : List Reference) (reviewed : Reviewed) (d : Decision)
      → mapping? (Json.get bundle.payload (text "submission")) ≡ some submission
      → mapping? (Json.get bundle.payload (text "basis")) ≡ some raw
      → str? (Json.get raw (text "commit")) ≡ some revision
      → list? (Json.get raw (text "public_references")) ≡ some requested
      → ports.load_basis revision bundle.lab_id ≡ returns basis
      → load_references ports bundle.lab_id requested ≡ returns references
      → json_eq (obj raw) (expected_basis ports basis references) ≡ true
      → ports.review (policy_for ports bundle.lab_id basis) ≡ returns reviewed
      → str? (Json.get reviewed.report (text "decision")) ≡ some (decision_text d)
      → r ≡ report_fields ports bundle reviewed submission raw d
      → IsReview ports bundle r

basis_failure_reports : (e : Raised) (r : Fields) → basis_failure e ≡ reported r → ⊥
basis_failure_reports Raised.file_not_found r h = ground arith
basis_failure_reports runtime_error r h = ground arith
basis_failure_reports Raised.unsupported_lab r h = ground arith
basis_failure_reports Raised.value_error r h = ground arith
basis_failure_reports os_error r h = ground arith
basis_failure_reports Raised.submission_file_error r h = ground arith
basis_failure_reports Raised.unsafe_submission_path r h = ground arith
basis_failure_reports Raised.model_configuration r h = ground arith
basis_failure_reports Raised.transient r h = ground arith
basis_failure_reports Raised.review_error r h = ground arith
basis_failure_reports (Raised.limit c) r h = ground arith
basis_failure_reports other r h = ground arith

review_failure_reports : (e : Raised) (r : Fields) → review_failure e ≡ reported r → ⊥
review_failure_reports Raised.file_not_found r h = ground arith
review_failure_reports runtime_error r h = ground arith
review_failure_reports Raised.unsupported_lab r h = ground arith
review_failure_reports Raised.value_error r h = ground arith
review_failure_reports os_error r h = ground arith
review_failure_reports Raised.submission_file_error r h = ground arith
review_failure_reports Raised.unsafe_submission_path r h = ground arith
review_failure_reports Raised.model_configuration r h = ground arith
review_failure_reports Raised.transient r h = ground arith
review_failure_reports Raised.review_error r h = ground arith
review_failure_reports (Raised.limit c) r h = ground arith
review_failure_reports other r h = ground arith

pick :
    (s : Text) (b : Bool) (c d : Decision) (rest : Option Decision)
    → (b ≡ true → s ≡ decision_text c)
    → (rest ≡ some d → s ≡ decision_text d)
    → (if b then some c else rest) ≡ some d
    → s ≡ decision_text d
pick s true c d rest same other_case h =
    let e : c ≡ d = ground arith in subst (λ x. s ≡ decision_text x) e (same refl)
pick s false c d rest same other_case h = other_case h

decide_text : (s : Text) (d : Decision) → decide s ≡ some d → s ≡ decision_text d
decide_text s d h =
    pick s (s === text "compliant") compliant d
      (if s === text "violation"
        then some violation
        else if s === text "inconclusive"
        then some inconclusive
        else none)
      (===_iff s (text "compliant")).0
      (pick s (s === text "violation") violation d
        (if s === text "inconclusive" then some inconclusive else none)
        (===_iff s (text "violation")).0
        (pick s (s === text "inconclusive") inconclusive d none (===_iff s (text "inconclusive")).0
          (λ q. ground arith)))
      h

decision_of_text :
    (o : Option Text) (d : Decision) → decision_of o ≡ some d → o ≡ some (decision_text d)
decision_of_text none d h = ground arith
decision_of_text (some s) d h = ap some (decide_text s d h)

pub data IsFinished (ports : Ports) (bundle : VerifiedReviewBundle) (submission raw : Fields)
    (a : Attempt Reviewed) (r : Fields) : Type 0 where
  is_finished :
      (reviewed : Reviewed) (d : Decision)
      → a ≡ returns reviewed
      → str? (Json.get reviewed.report (text "decision")) ≡ some (decision_text d)
      → r ≡ report_fields ports bundle reviewed submission raw d
      → IsFinished ports bundle submission raw a r

module _ (ports : Ports) (bundle : VerifiedReviewBundle) (r : Fields) where
  finished :
      (submission raw : Fields) (a : Attempt Reviewed)
      → finish_review ports bundle submission raw a ≡ reported r
      → IsFinished ports bundle submission raw a r
  unfolding normalized_report
  finished submission raw (raises e) h = elim (review_failure_reports e r h) [ ]
  finished submission raw (returns reviewed) h =
      elim (Bool-cases (is_hashable (Json.get reviewed.report (text "decision")))) [
        | inl y ↦
            go (decision_of (str? (Json.get reviewed.report (text "decision")))) refl (rw y at h)
        | inr n ↦ absurd (cc (rw n at h))
      ]
    where
      go :
          (o : Option Decision)
          → decision_of (str? (Json.get reviewed.report (text "decision"))) ≡ o
          → report_with ports bundle reviewed submission raw o ≡ reported r
          → IsFinished ports bundle submission raw (returns reviewed) r
      go none e q = ground arith
      go (some d) e q =
          is_finished reviewed d refl
            (decision_of_text (str? (Json.get reviewed.report (text "decision"))) d e)
            (ground arith)

  -- A returned report is the normalised answer of a review under the policy of the loaded basis, with
  -- one of the three decisions; the loaded basis and references are those the signed bundle names.
  pub execute_reports-IsReview : execute ports bundle ≡ reported r → IsReview ports bundle r
  unfolding execute
  execute_reports-IsReview h =
      maps (mapping? (Json.get bundle.payload (text "submission")))
        (mapping? (Json.get bundle.payload (text "basis"))) refl refl h
    where
      with_refs :
          (submission raw : Fields) (revision : Text) (requested : List Json) (basis : Basis)
          (a : Attempt (List Reference))
          → mapping? (Json.get bundle.payload (text "submission")) ≡ some submission
          → mapping? (Json.get bundle.payload (text "basis")) ≡ some raw
          → str? (Json.get raw (text "commit")) ≡ some revision
          → list? (Json.get raw (text "public_references")) ≡ some requested
          → ports.load_basis revision bundle.lab_id ≡ returns basis
          → load_references ports bundle.lab_id requested ≡ a
          → with_references ports bundle submission raw basis a ≡ reported r
          → IsReview ports bundle r
      with_refs submission raw revision requested basis (raises e) p q s t u v h =
          elim (basis_failure_reports e r h) [ ]
      with_refs submission raw revision requested basis (returns references) p q s t u v h =
          let w : json_eq (obj raw) (expected_basis ports basis references) ≡ true = ground arith in
          let f : finish_review ports bundle submission raw
                (ports.review (policy_for ports bundle.lab_id basis))
              ≡ reported r =
            cc (w, h) in
          elim (finished submission raw (ports.review (policy_for ports bundle.lab_id basis)) f) [
            | is_finished reviewed d x y z ↦
                is_review submission raw revision requested basis references reviewed d p q s t u v
                  w x y z
          ]

      with_loaded :
          (submission raw : Fields) (revision : Text) (requested : List Json) (a : Attempt Basis)
          → mapping? (Json.get bundle.payload (text "submission")) ≡ some submission
          → mapping? (Json.get bundle.payload (text "basis")) ≡ some raw
          → str? (Json.get raw (text "commit")) ≡ some revision
          → list? (Json.get raw (text "public_references")) ≡ some requested
          → ports.load_basis revision bundle.lab_id ≡ a
          → with_basis ports bundle submission raw requested a ≡ reported r
          → IsReview ports bundle r
      with_loaded submission raw revision requested (raises e) p q s t u h =
          elim (basis_failure_reports e r h) [ ]
      with_loaded submission raw revision requested (returns basis) p q s t u h =
          with_refs submission raw revision requested basis
            (load_references ports bundle.lab_id requested) p q s t u refl h

      requests :
          (submission raw : Fields) (rev : Option Text) (refs : Option (List Json))
          → mapping? (Json.get bundle.payload (text "submission")) ≡ some submission
          → mapping? (Json.get bundle.payload (text "basis")) ≡ some raw
          → str? (Json.get raw (text "commit")) ≡ rev
          → list? (Json.get raw (text "public_references")) ≡ refs
          → with_request ports bundle submission raw rev refs ≡ reported r
          → IsReview ports bundle r
      requests submission raw none refs p q s t h = ground arith
      requests submission raw (some revision) none p q s t h = ground arith
      requests submission raw (some revision) (some requested) p q s t h =
          with_loaded submission raw revision requested (ports.load_basis revision bundle.lab_id) p
            q s t refl h

      maps :
          (m n : Option Fields)
          → mapping? (Json.get bundle.payload (text "submission")) ≡ m
          → mapping? (Json.get bundle.payload (text "basis")) ≡ n
          → with_mappings ports bundle m n ≡ reported r
          → IsReview ports bundle r
      maps none n p q h = ground arith
      maps (some submission) none p q h = ground arith
      maps (some submission) (some raw) p q h =
          requests submission raw (str? (Json.get raw (text "commit")))
            (list? (Json.get raw (text "public_references"))) p q refl refl h
