-- ===== src/AgentReviewer/Report.antt =====
-- `_validate_report` of src/oj_checker/agent_reviewer.py. `in_unit` tells of a float, given by its text,
-- whether it lies between zero and one.
pub mod Laws
use csoj_judger.Prelude.{
  ℕ, Bool, true, false, not, ◌&&◌, ◌||◌, Option, none, some, List, [], ◌∷◌, map, any, is_nil, leb,
  if◌then◌else◌,
}
use csoj_judger.Prelude.Int.{ℤ, pos, negsuc}
use csoj_judger.Prelude.Order.{Text, text, one_of, ◌===◌, nat_ord, list_ord}
use csoj_judger.Prelude.Text.{strip}
use csoj_judger.Json
use csoj_judger.Json.{Json, null, bool, int, real, str, arr, obj, Fields, elements, list?, str?}
use csoj_judger.AgentTools.Tree.{Reason, AgentWorkspace}
use csoj_judger.AgentTools.Reading.{
  Evidence, accepted, refused_root_or_path, refused_range, refused_line, refused_path, raised,
  validate_evidence,
}

abbrev pub decisions : List Text
decisions = map text ("compliant" ∷ "violation" ∷ "inconclusive" ∷ [])

abbrev pub categories : List Text
categories = map text (
    "hardcoded_or_checker_abuse" ∷ "required_computation_reduction"
    ∷ "fixed_problem_constraint_change" ∷ "fabricated_or_missing_output" ∷ [])

-- The messages of the refusals, by what they complain of. `crashes` stands for an exception that is not
-- handled.
pub data Refusal : Type 0 where
  no_human_review bad_decision bad_confidence bad_summary bad_limitations bad_violations : Refusal
  violation_required no_violations_allowed : Refusal
  bad_violation bad_category bad_violation_summary no_evidence bad_evidence bad_description :
      Refusal
  no_submission_evidence : Refusal
  evidence_refused : Evidence → Refusal

pub data Verdict : Type 0 where
  valid crashes : Verdict
  invalid : Refusal → Verdict

-- One check after the other.
infixr 4 ◌and_then◌
abbrev pub ◌and_then◌ : Verdict → Verdict → Verdict
valid and_then next = next
crashes and_then next = crashes
invalid r and_then next = invalid r

abbrev pub check : Bool → Refusal → Verdict
check true r = valid
check false r = invalid r

-- `_CJK.search`.
abbrev pub is_cjk : ℕ → Bool
is_cjk c = leb 13312 c && leb c 40959

-- `_chinese_text`.
unfoldable pub chinese_text : Option Json → Bool
chinese_text (some (str s)) = not (is_nil (strip s)) && any is_cjk s
chinese_text _ = false

-- `value in set_of_texts`: a list or a dictionary has no hash, and raises a `TypeError`.
abbrev pub check_in : List Text → Option Json → Refusal → Verdict
check_in texts (some (str s)) r = check (one_of texts s) r
check_in texts (some (arr xs)) r = crashes
check_in texts (some (obj d)) r = crashes
check_in texts _ r = invalid r

abbrev pub is_true : Option Json → Bool
is_true (some (bool b)) = b
is_true _ = false

abbrev pub is_confidence : (Text → Bool) → Option Json → Bool
is_confidence in_unit (some (int (pos n))) = leb n 1
is_confidence in_unit (some (real r)) = in_unit r
is_confidence in_unit _ = false

abbrev pub all_chinese : List Json → Bool
all_chinese [] = true
all_chinese (x ∷ xs) = chinese_text (some x) && all_chinese xs

abbrev pub is_limitations : Option (List Json) → Bool
is_limitations none = false
is_limitations (some xs) = all_chinese xs

abbrev pub is_decision : Option Text → Text → Bool
is_decision none d = false
is_decision (some s) d = s === d

abbrev pub check_accepted : Evidence → Verdict
check_accepted accepted = valid
check_accepted raised = crashes
check_accepted e = invalid (evidence_refused e)

-- One item of evidence.
abbrev pub check_item : AgentWorkspace → Json → Verdict
check_item w (obj item) =
    check (chinese_text (Json.get item (text "description"))) bad_description
    and_then check_accepted (validate_evidence w item)
check_item w _ = invalid bad_evidence

abbrev pub is_submission_item : Json → Bool
is_submission_item (obj item) = is_decision (str? (Json.get item (text "root"))) (text "submission")
is_submission_item _ = false

unfoldable pub check_items : AgentWorkspace → List Json → Verdict
check_items w [] = valid
check_items w (x ∷ xs) = check_item w x and_then check_items w xs

abbrev pub check_evidence : AgentWorkspace → Option (List Json) → Verdict
check_evidence w none = invalid no_evidence
check_evidence w (some []) = invalid no_evidence
check_evidence w (some (x ∷ xs)) =
    check_items w (x ∷ xs) and_then check (any is_submission_item (x ∷ xs)) no_submission_evidence

unfoldable pub check_violation : AgentWorkspace → Json → Verdict
check_violation w (obj v) =
    check_in categories (Json.get v (text "category")) bad_category
    and_then check (chinese_text (Json.get v (text "summary"))) bad_violation_summary
    and_then check_evidence w (list? (Json.get v (text "evidence")))
check_violation w _ = invalid bad_violation

unfoldable pub check_each : AgentWorkspace → List Json → Verdict
check_each w [] = valid
check_each w (x ∷ xs) = check_violation w x and_then check_each w xs

abbrev pub check_violations : AgentWorkspace → Option Text → Option (List Json) → Verdict
check_violations w decision none = invalid bad_violations
check_violations w decision (some xs) =
    check (not (is_decision decision (text "violation") && is_nil xs)) violation_required
    and_then check (not (is_decision decision (text "compliant") && not (is_nil xs)))
        no_violations_allowed
    and_then check_each w xs

unfoldable pub validate_report : (Text → Bool) → AgentWorkspace → Fields → Verdict
validate_report in_unit w value =
    check (is_true (Json.get value (text "requires_human_review"))) no_human_review
    and_then check_in decisions (Json.get value (text "decision")) bad_decision
    and_then check (is_confidence in_unit (Json.get value (text "confidence"))) bad_confidence
    and_then check (chinese_text (Json.get value (text "summary"))) bad_summary
    and_then check (is_limitations (list? (Json.get value (text "limitations")))) bad_limitations
    and_then check_violations w (str? (Json.get value (text "decision")))
        (list? (Json.get value (text "violations")))
