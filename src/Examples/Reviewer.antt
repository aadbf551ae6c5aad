-- ===== src/Examples/Reviewer.antt =====
-- A review whose model calls `finish_review` at once.
use csoj_judger.Prelude.{◌*◌, ◌≤◌, ◌≡◌, refl, true, false, some, [], ◌∷◌, is_nil}
use csoj_judger.Prelude.Int.{pos}
use csoj_judger.Prelude.Order.{text, nat_ord, list_ord}
use csoj_judger.Prelude.Text.{strip, is_space}
use csoj_judger.Prelude.Dict
use csoj_judger.Prelude.Result.{err}
use csoj_judger.Json
use csoj_judger.Json.{Json, str, int, bool, arr, obj, Fields, fields, items, end}
use csoj_judger.AgentTools.Tree.{tool_error, unknown_tool}
use csoj_judger.AgentReviewer.Report.{validate_report, valid, chinese_text, check_each}
use csoj_judger.AgentReviewer.Report.Laws.{IsBacked, validate_report-IsBacked}
use csoj_judger.AgentReviewer.Calls.{assistant_tool_calls, tool_calls, tool_call}
use csoj_judger.AgentReviewer.Loop.{
  Setting, Reviewer, Message, Trace, Review, reviewed, response, review, turns, one_turn,
  complete_with_retries, all_calls, one_call,
}
use csoj_judger.AgentReviewer.Loop.Bounds.{state_of, total, review_within_limits}
use csoj_judger.AgentReviewer.Loop.Reports.{review-IsBacked}
use csoj_judger.Examples.Tools.{workspace, library, limits}

abbrev report : Fields
report = fields (
    (text "requires_human_review", bool true)
    ∷ (text "decision", str (text "compliant"))
    ∷ (text "confidence", int (pos 1))
    ∷ (text "summary", str (20013 ∷ []))
    ∷ (text "limitations", arr (items []))
    ∷ (text "violations", arr (items []))
    ∷ [])

abbrev answer : Fields
answer = fields (
    (
      text "choices",
      arr (
          items (
            obj (
              fields (
                (
                  text "message",
                  obj (
                      fields (
                        (
                          text "tool_calls",
                          arr (
                              items (
                                obj (
                                  fields (
                                    (text "id", str (text "c1"))
                                    ∷ (
                                      text "function",
                                      obj (
                                          fields (
                                            (text "name", str (text "finish_review"))
                                            ∷ (text "arguments", str (text "r"))
                                            ∷ [])),
                                    )
                                    ∷ []))
                                ∷ [])),
                        )
                        ∷ [])),
                )
                ∷ []))
            ∷ [])),
    )
    ∷ [])

abbrev setting : Setting
setting = record {
  complete = λ n messages. response answer;
  decoder = record { loads = λ s. some (obj report); is_zero = λ s. false };
  in_unit = λ s. true;
  broker = record {
    workspace = workspace;
    limits = limits;
    lib = library;
    compare_file = λ arguments. err (tool_error unknown_tool);
  };
}

abbrev cfg : Reviewer
cfg = record { max_turns = 3; max_tool_calls_per_turn = 4; max_attempts = 2 }

it_is_valid : validate_report (λ s. true) workspace report ≡ valid
unfolding validate_report chinese_text check_each Json.get strip is_space
it_is_valid = refl

validate_report-IsBacked_example : IsBacked workspace report
validate_report-IsBacked_example = validate_report-IsBacked (λ s. true) workspace report it_is_valid

model_is_named : is_nil (strip (text "glm")) ≡ false
unfolding strip is_space
model_is_named = refl

review_within_limits_example :
    (r : Review) × (review setting cfg (text "glm") (text "glm") end ≡ some r)
    × ((state_of r).client_calls ≤ 3 * 2)
    × ((state_of r).model_call_count ≤ 3)
    × (total (state_of r).tool_counts ≤ 3 * 4)
review_within_limits_example =
    review_within_limits setting cfg (text "glm") (text "glm") end model_is_named model_is_named

abbrev final : Trace
final = record {
  turn_count = 1;
  state = record {
    messages = Message.policy_and_submission (text "glm") end ∷ Message.assistant answer ∷ [];
    tool_counts = (text "finish_review", 1) ∷ [];
    inspected_paths = [];
    tool_bytes = 0;
    correction_count = 0;
    model_call_count = 1;
    protocol_errors = [];
    client_calls = 1;
  };
}

it_reports : review setting cfg (text "glm") (text "glm") end ≡ some (reviewed report final)
unfolding review turns one_turn complete_with_retries all_calls one_call assistant_tool_calls
    tool_calls tool_call validate_report chinese_text check_each Json.get strip is_space Dict.get
    Dict.put
it_reports = refl

review-IsBacked_example : IsBacked workspace report
review-IsBacked_example =
    review-IsBacked setting cfg (text "glm") (text "glm") end report final it_reports
