-- ===== src/AgentReviewer/Report/Laws.antt =====
-- What a report that `_validate_report` accepts guarantees.
use csoj_judger.Prelude.{
  ℕ, subst, ◌≤◌, ◌<◌, ◌≡◌, refl, ◌↔◌, Bool, true, false, not, ◌&&◌, Option, none, some, List, [],
  ◌∷◌, any, is_nil, Memᴰ, arith,
}
use csoj_judger.Prelude.Int.{pos, negsuc}
use csoj_judger.Prelude.Order.{Text, text, one_of, ===_iff, nat_ord, list_ord}
use csoj_judger.Prelude.Result.{Result, ok, err}
use csoj_judger.Json
use csoj_judger.Json.{Json, null, bool, int, real, str, arr, obj, Fields, list?, str?}
use csoj_judger.AgentTools.Tree.{
  Failure, tool_error, runtime_error, os_error, AgentWorkspace, resolve_file,
}
use csoj_judger.AgentTools.Reading.{
  Evidence, accepted, refused_root_or_path, refused_range, refused_line, refused_path, raised,
  line_count, check_line, check_range, check_strings, validate_evidence,
}
use csoj_judger.AgentReviewer.Report.{
  Verdict, valid, invalid, is_true, is_confidence, is_limitations, crashes, ◌and_then◌, check,
  Refusal, decisions, categories, check_in, chinese_text, is_decision, is_submission_item,
  check_accepted, check_item, check_items, check_evidence, check_violation, check_each,
  check_violations, validate_report,
}

-- The evidence names a root, a path and a range of lines; the path is a file there, and the range
-- lies within its lines.
pub data IsEvidence (w : AgentWorkspace) (item : Fields) : Type 0 where
  is_evidence :
      (root_name path : Text) (start last : ℕ) (content : List ℕ)
      → str? (Json.get item (text "root")) ≡ some root_name
      → str? (Json.get item (text "path")) ≡ some path
      → Json.get item (text "start_line") ≡ some (int (pos start))
      → Json.get item (text "end_line") ≡ some (int (pos last))
      → 0 < start
      → start ≤ last
      → resolve_file w root_name path ≡ ok content
      → last ≤ line_count content
      → IsEvidence w item

module _ (w : AgentWorkspace) (item : Fields) where
  line_checked :
      (last : ℕ) (r : Result Failure (List ℕ))
      → check_line last r ≡ accepted
      → (content : List ℕ) × (r ≡ ok content) × (last ≤ line_count content)
  line_checked last (ok content) h = (content, refl, ground arith)
  line_checked last (err (tool_error reason)) h = ground arith
  line_checked last (err runtime_error) h = ground arith
  line_checked last (err os_error) h = ground arith

  range_checked :
      (root_name path : Text) (a b : Option Json)
      → check_range w root_name path a b ≡ accepted
      → (start : ℕ) × (last : ℕ) × (a ≡ some (int (pos start)))
        × (b ≡ some (int (pos last)))
        × (0 < start)
        × (start ≤ last)
        × (check_line last (resolve_file w root_name path) ≡ accepted)
  range_checked root_name path (some (int (pos start))) (some (int (pos last))) h =
      (start, last, refl, refl, ground arith, ground arith, ground arith)
  range_checked root_name path none b h = ground arith
  range_checked root_name path (some null) b h = ground arith
  range_checked root_name path (some (bool x)) b h = ground arith
  range_checked root_name path (some (real x)) b h = ground arith
  range_checked root_name path (some (str x)) b h = ground arith
  range_checked root_name path (some (arr x)) b h = ground arith
  range_checked root_name path (some (obj x)) b h = ground arith
  range_checked root_name path (some (int (negsuc n))) b h = ground arith
  range_checked root_name path (some (int (pos n))) none h = ground arith
  range_checked root_name path (some (int (pos n))) (some null) h = ground arith
  range_checked root_name path (some (int (pos n))) (some (bool x)) h = ground arith
  range_checked root_name path (some (int (pos n))) (some (real x)) h = ground arith
  range_checked root_name path (some (int (pos n))) (some (str x)) h = ground arith
  range_checked root_name path (some (int (pos n))) (some (arr x)) h = ground arith
  range_checked root_name path (some (int (pos n))) (some (obj x)) h = ground arith
  range_checked root_name path (some (int (pos n))) (some (int (negsuc m))) h = ground arith

  strings_checked :
      (a b : Option Text)
      → str? (Json.get item (text "root")) ≡ a
      → str? (Json.get item (text "path")) ≡ b
      → check_strings w item a b ≡ accepted
      → IsEvidence w item
  strings_checked none b p q h = ground arith
  strings_checked (some root_name) none p q h = ground arith
  strings_checked (some root_name) (some path) p q h =
      let (start, last, s, l, x, y, c) =
        range_checked root_name path (Json.get item (text "start_line"))
          (Json.get item (text "end_line")) h in
      let (content, r, z) = line_checked last (resolve_file w root_name path) c in
      is_evidence root_name path start last content p q s l x y r z

  forth-IsEvidence : validate_evidence w item ≡ accepted → IsEvidence w item
  unfolding validate_evidence
  forth-IsEvidence h =
      strings_checked (str? (Json.get item (text "root"))) (str? (Json.get item (text "path"))) refl
        refl h

  back_evidence : IsEvidence w item → validate_evidence w item ≡ accepted
  unfolding validate_evidence
  back_evidence (is_evidence root_name path start last content p q s l x y r z) =
      let a : check_line last (ok content) ≡ accepted = ground (arith, z) in
      let b : check_line last (resolve_file w root_name path) ≡ accepted = rw r a in
      let c : check_range w root_name path (some (int (pos start))) (some (int (pos last)))
          ≡ accepted =
        ground (arith, b, x, y) in
      let d : check_range w root_name path (Json.get item (text "start_line"))
            (Json.get item (text "end_line"))
          ≡ accepted =
        rw (s, l) c in
      rw (p, q) d

  -- Evidence is accepted exactly when it names a root, a path and a range of line numbers, the path
  -- leads to a regular file of that root, and the file has all lines of the range.
  pub validate_evidence_iff : (validate_evidence w item ≡ accepted) ↔ IsEvidence w item
  validate_evidence_iff = (forth-IsEvidence, back_evidence)

both : (a b : Verdict) → (a and_then b) ≡ valid → (a ≡ valid) × (b ≡ valid)
both valid b h = (refl, h)
both crashes b h = ground arith
both (invalid r) b h = ground arith

checked : (b : Bool) (r : Refusal) → check b r ≡ valid → b ≡ true
checked true r h = refl
checked false r h = ground arith

checked_in :
    (texts : List Text) (o : Option Json) (r : Refusal)
    → check_in texts o r ≡ valid
    → (s : Text) × (o ≡ some (str s)) × (one_of texts s ≡ true)
checked_in texts (some (str s)) r h = (s, refl, checked (one_of texts s) r h)
checked_in texts none r h = ground arith
checked_in texts (some null) r h = ground arith
checked_in texts (some (bool x)) r h = ground arith
checked_in texts (some (int x)) r h = ground arith
checked_in texts (some (real x)) r h = ground arith
checked_in texts (some (arr x)) r h = ground arith
checked_in texts (some (obj x)) r h = ground arith

-- A violation of an accepted report.
pub data IsViolation (w : AgentWorkspace) (v : Json) : Type 0 where
  is_violation :
      (d : Fields) (category : Text) (items : List Json)
      → v ≡ obj d
      → Json.get d (text "category") ≡ some (str category)
      → one_of categories category ≡ true
      → list? (Json.get d (text "evidence")) ≡ some items
      → any is_submission_item items ≡ true
      → ((x : Json) → Memᴰ x items → (item : Fields) × (x ≡ obj item) × IsEvidence w item)
      → IsViolation w v

evidence_accepted : (e : Evidence) → check_accepted e ≡ valid → e ≡ accepted
evidence_accepted accepted h = refl
evidence_accepted raised h = ground arith
evidence_accepted refused_root_or_path h = ground arith
evidence_accepted refused_range h = ground arith
evidence_accepted refused_line h = ground arith
evidence_accepted (refused_path r) h = ground arith

module _ (w : AgentWorkspace) where
  item_checked :
      (x : Json) → check_item w x ≡ valid → (item : Fields) × (x ≡ obj item) × IsEvidence w item
  item_checked (obj item) h =
      let (a, b) =
        both (check (chinese_text (Json.get item (text "description"))) Refusal.bad_description)
          (check_accepted (validate_evidence w item)) h in
      (
        item,
        refl,
        (validate_evidence_iff w item).0 (evidence_accepted (validate_evidence w item) b),
      )
  item_checked null h = ground arith
  item_checked (bool x) h = ground arith
  item_checked (int x) h = ground arith
  item_checked (real x) h = ground arith
  item_checked (str x) h = ground arith
  item_checked (arr x) h = ground arith

  items_checked :
      (xs : List Json)
      → check_items w xs ≡ valid
      → (x : Json) → Memᴰ x xs
      → (item : Fields) × (x ≡ obj item) × IsEvidence w item
  unfolding check_items
  items_checked [] h x m = elim m [ ]
  items_checked (y ∷ ys) h x (Memᴰ.head e) =
      let (a, b) = both (check_item w y) (check_items w ys) h in
      let (item, f, g) = item_checked y a in (item, cc (e, f), g)
  items_checked (y ∷ ys) h x (Memᴰ.tail m) =
      let (a, b) = both (check_item w y) (check_items w ys) h in items_checked ys b x m

  IsEvidence-checked :
      (o : Option (List Json))
      → check_evidence w o ≡ valid
      → (items : List Json) × (o ≡ some items)
        × (any is_submission_item items ≡ true)
        × ((x : Json) → Memᴰ x items → (item : Fields) × (x ≡ obj item) × IsEvidence w item)
  IsEvidence-checked none h = ground arith
  IsEvidence-checked (some []) h = ground arith
  IsEvidence-checked (some (x ∷ xs)) h =
      let (a, b) =
        both (check_items w (x ∷ xs))
          (check (any is_submission_item (x ∷ xs)) Refusal.no_submission_evidence) h in
      (
        x ∷ xs,
        refl,
        checked (any is_submission_item (x ∷ xs)) Refusal.no_submission_evidence b,
        items_checked (x ∷ xs) a,
      )

  IsViolation-checked : (v : Json) → check_violation w v ≡ valid → IsViolation w v
  unfolding check_violation
  IsViolation-checked (obj d) h =
      let (a, h') =
        both (check_in categories (Json.get d (text "category")) Refusal.bad_category)
          (check (chinese_text (Json.get d (text "summary"))) Refusal.bad_violation_summary
            and_then check_evidence w (list? (Json.get d (text "evidence"))))
          h in
      let (b, c) =
        both (check (chinese_text (Json.get d (text "summary"))) Refusal.bad_violation_summary)
          (check_evidence w (list? (Json.get d (text "evidence")))) h' in
      let (category, e, f) =
        checked_in categories (Json.get d (text "category")) Refusal.bad_category a in
      let (items, i, j, k) = IsEvidence-checked (list? (Json.get d (text "evidence"))) c in
      is_violation d category items refl e f i j k
  IsViolation-checked null h = ground arith
  IsViolation-checked (bool x) h = ground arith
  IsViolation-checked (int x) h = ground arith
  IsViolation-checked (real x) h = ground arith
  IsViolation-checked (str x) h = ground arith
  IsViolation-checked (arr x) h = ground arith

  each_checked :
      (vs : List Json) → check_each w vs ≡ valid → (v : Json) → Memᴰ v vs → IsViolation w v
  unfolding check_each
  each_checked [] h v m = elim m [ ]
  each_checked (y ∷ ys) h v (Memᴰ.head e) =
      let (a, b) = both (check_violation w y) (check_each w ys) h in
      let e' : y ≡ v = cc e in subst (IsViolation w) e' (IsViolation-checked y a)
  each_checked (y ∷ ys) h v (Memᴰ.tail m) =
      let (a, b) = both (check_violation w y) (check_each w ys) h in each_checked ys b v m

-- An accepted report: one of the three decisions, that goes with its list of violations, each of which
-- is backed by evidence.
pub data IsBacked (w : AgentWorkspace) (report : Fields) : Type 0 where
  is_backed :
      (decision : Text) (vs : List Json)
      → Json.get report (text "decision") ≡ some (str decision)
      → one_of decisions decision ≡ true
      → list? (Json.get report (text "violations")) ≡ some vs
      → (decision ≡ text "violation" → is_nil vs ≡ false)
      → (decision ≡ text "compliant" → is_nil vs ≡ true)
      → ((v : Json) → Memᴰ v vs → IsViolation w v)
      → IsBacked w report

violations_checked :
    (w : AgentWorkspace) (d : Option Text) (o : Option (List Json))
    → check_violations w d o ≡ valid
    → (vs : List Json) × (o ≡ some vs)
      × (not (is_decision d (text "violation") && is_nil vs) ≡ true)
      × (not (is_decision d (text "compliant") && not (is_nil vs)) ≡ true)
      × ((v : Json) → Memᴰ v vs → IsViolation w v)
violations_checked w d none h = ground arith
violations_checked w d (some vs) h =
    let (a, h') =
      both (check (not (is_decision d (text "violation") && is_nil vs)) Refusal.violation_required)
        (check (not (is_decision d (text "compliant") && not (is_nil vs)))
            Refusal.no_violations_allowed
          and_then check_each w vs)
        h in
    let (b, c) =
      both
        (check (not (is_decision d (text "compliant") && not (is_nil vs)))
          Refusal.no_violations_allowed)
        (check_each w vs) h' in
    (
      vs,
      refl,
      checked (not (is_decision d (text "violation") && is_nil vs)) Refusal.violation_required a,
      checked (not (is_decision d (text "compliant") && not (is_nil vs)))
          Refusal.no_violations_allowed b,
      each_checked w vs c,
    )

-- A report that is accepted has one of the three decisions; it has violations if it decides on a
-- violation, and none if it decides on compliance; each violation has a known category, and evidence
-- all of which names existing lines of files of the workspace, one at least of the submission.
pub validate_report-IsBacked :
    (in_unit : Text → Bool) (w : AgentWorkspace) (report : Fields)
    → validate_report in_unit w report ≡ valid
    → IsBacked w report
unfolding validate_report
validate_report-IsBacked in_unit w report h =
    let (a, h1) = both (check (is_true human) Refusal.no_human_review) rest1 h in
    let (b, h2) = both (check_in decisions decision Refusal.bad_decision) rest2 h1 in
    let (c, h3) = both (check (is_confidence in_unit confidence) Refusal.bad_confidence) rest3 h2 in
    let (d, h4) = both (check (chinese_text summary) Refusal.bad_summary) rest4 h3 in
    let (e, h5) = both (check (is_limitations limitations) Refusal.bad_limitations) rest5 h4 in
    let (s, f, g) = checked_in decisions decision Refusal.bad_decision b in
    let (vs, i, j, k, l) = violations_checked w (str? decision) violations h5 in
    let t : str? decision ≡ some s = cc f in
    is_backed s vs f g i (λ q. ground (arith, j, t, q, ===_iff s (text "violation")))
      (λ q. ground (arith, k, t, q, ===_iff s (text "compliant"))) l
  where
    human : Option Json
    human = Json.get report (text "requires_human_review")

    decision : Option Json
    decision = Json.get report (text "decision")

    confidence : Option Json
    confidence = Json.get report (text "confidence")

    summary : Option Json
    summary = Json.get report (text "summary")

    limitations : Option (List Json)
    limitations = list? (Json.get report (text "limitations"))

    violations : Option (List Json)
    violations = list? (Json.get report (text "violations"))

    rest5 : Verdict
    rest5 = check_violations w (str? decision) violations

    rest4 : Verdict
    rest4 = check (is_limitations limitations) Refusal.bad_limitations and_then rest5

    rest3 : Verdict
    rest3 = check (chinese_text summary) Refusal.bad_summary and_then rest4

    rest2 : Verdict
    rest2 = check (is_confidence in_unit confidence) Refusal.bad_confidence and_then rest3

    rest1 : Verdict
    rest1 = check_in decisions decision Refusal.bad_decision and_then rest2
