-- ===== src/AgentReviewer/Loop.antt =====
-- `review` of src/oj_checker/agent_reviewer.py: the bounded loop of model calls and tool calls. A
-- message stands for its kind and its variable parts, its fixed text left out; the clock is left out.
pub mod Bounds
pub mod Reports
use csoj_judger.Prelude.{
  ℕ, zero, suc, ◌+◌, ◌-◌, Bool, true, false, not, ◌&&◌, Option, none, some, List, [], ◌∷◌, ◌++◌,
  length, any, is_nil, leb, ltb, ◌==◌, if◌then◌else◌,
}
use csoj_judger.Prelude.Order.{Text, text, ◌===◌, nat_ord, list_ord}
use csoj_judger.Prelude.Text.{strip}
use csoj_judger.Prelude.Result.{Result, ok, err}
use csoj_judger.Prelude.Dict.{Dict, get, put}
use csoj_judger.Json.{Json, Fields}
use csoj_judger.AgentTools.Tree.{Failure, tool_error, runtime_error, os_error}
use csoj_judger.AgentTools.Listing.{ToolObservation}
use csoj_judger.AgentTools.Broker.{ReadOnlyToolBroker, call}
use csoj_judger.AgentReviewer.Report.{Refusal, Verdict, valid, invalid, crashes, validate_report}
use csoj_judger.AgentReviewer.Calls.{ToolCall, Decoder, assistant_tool_calls}

-- What a tool call or a response is answered with.
pub data Complaint : Type 0 where
  malformed_response no_tool_call finish_not_alone : Complaint
  report_refused : Refusal → Complaint
  tool_failed : Failure → Complaint

pub data Message : Type 0 where
  policy_and_submission : Text → Fields → Message
  assistant : Fields → Message
  tool_result : Text → Fields → Message
  tool_error_message : Text → Complaint → Message
  correction no_plain_text : Message
  turns_left : ℕ → Message

-- What a call of the client does.
pub data Completion : Type 0 where
  response : Fields → Completion
  transient_error configuration_error other_error : Completion

-- The client answers each of its calls, which are counted; `in_unit` tells of a float whether it lies
-- between zero and one.
pub record Setting : Type 0 where
  pub complete : ℕ → List Message → Completion
  pub decoder : Decoder
  pub in_unit : Text → Bool
  pub broker : ReadOnlyToolBroker

pub record Reviewer : Type 0 where
  pub max_turns : ℕ
  pub max_tool_calls_per_turn : ℕ
  pub max_attempts : ℕ

pub record State : Type 0 where
  pub messages : List Message
  pub tool_counts : Dict Text ℕ
  pub inspected_paths : List Text
  pub tool_bytes : ℕ
  pub correction_count : ℕ
  pub model_call_count : ℕ
  pub protocol_errors : List (Text × Complaint)
  pub client_calls : ℕ

-- The trace, with the paths as they were met.
pub record Trace : Type 0 where
  pub turn_count : ℕ
  pub state : State

pub data Review : Type 0 where
  reviewed : Fields → Trace → Review
  tool_call_limit_reached turn_limit_reached : Trace → Review
  transient configuration failed crashed : State → Review

abbrev pub count_of : Option ℕ → ℕ
count_of none = 0
count_of (some n) = n

-- `Counter[name] += 1`.
abbrev pub count_tool : Text → State → State
count_tool name s = record s {
  tool_counts = put s.tool_counts name (count_of (get s.tool_counts name) + 1);
}

abbrev pub complain : Text → Complaint → List Message → State → State
complain name c new s = record s {
  correction_count = s.correction_count + 1;
  protocol_errors = s.protocol_errors ++ ((name, c) ∷ []);
  messages = s.messages ++ new;
}

abbrev pub observe : Text → ToolObservation → State → State
observe id o s = record s {
  inspected_paths = s.inspected_paths ++ o.paths;
  tool_bytes = s.tool_bytes + o.bytes_returned;
  messages = s.messages ++ (tool_result id o.payload ∷ []);
}

-- The state after a call, or the end of the review.
pub data Turn : Type 0 where
  goes_on : State → Turn
  stops : Review → Turn

-- A `finish_review` call.
abbrev pub finish : ToolCall → ℕ → State → Verdict → Turn
finish c turn s valid = stops (reviewed c.arguments (record { turn_count = turn; state = s }))
finish c turn s crashes = stops (crashed s)
finish c turn s (invalid r) =
    goes_on (complain c.name (report_refused r) (tool_error_message c.id (report_refused r) ∷ []) s)

abbrev pub finish_call : Setting → Bool → ToolCall → ℕ → State → Turn
finish_call env mixed c turn s =
    let judged = finish c turn s (validate_report env.in_unit env.broker.workspace c.arguments) in
    if mixed
    then goes_on
        (complain c.name finish_not_alone (tool_error_message c.id finish_not_alone ∷ []) s)
    else judged

-- Any other call. `except (ToolError, RuntimeError)` does not catch an `OSError`.
abbrev pub tool_outcome : ToolCall → State → Result Failure ToolObservation → Turn
tool_outcome c s (ok o) = goes_on (observe c.id o s)
tool_outcome c s (err os_error) = stops (crashed s)
tool_outcome c s (err f) =
    goes_on (complain c.name (tool_failed f) (tool_error_message c.id (tool_failed f) ∷ []) s)

abbrev pub is_finish : ToolCall → Bool
is_finish c = c.name === text "finish_review"

unfoldable pub one_call : Setting → Bool → ℕ → ToolCall → State → Turn
one_call env mixed turn c s =
    let counted = count_tool c.name s in
    let finished = finish_call env mixed c turn counted in
    let called = tool_outcome c counted (call env.broker c.name c.arguments) in
    if is_finish c then finished else called

unfoldable pub all_calls : Setting → Bool → ℕ → List ToolCall → State → Turn
all_calls env mixed turn [] s = goes_on s
all_calls env mixed turn (c ∷ cs) s = elim (one_call env mixed turn c s) [
  | stops r ↦ stops r
  | goes_on t ↦ all_calls env mixed turn cs t
]

-- The note on the last turns.
abbrev pub remind : ℕ → Bool → State → State
remind left finishing s =
    if (not (left == 0) && leb left 4) && not finishing
    then record s { messages = s.messages ++ (turns_left left ∷ []) }
    else s

abbrev pub after_calls : ℕ → Bool → Turn → Turn
after_calls left finishing (stops r) = stops r
after_calls left finishing (goes_on s) = goes_on (remind left finishing s)

-- What one turn does with the calls of a response.
abbrev pub with_calls : Setting → Reviewer → ℕ → ℕ → Fields → State → Option (List ToolCall) → Turn
with_calls env cfg turn left answer s none =
    goes_on (complain (text "<assistant>") malformed_response (correction ∷ []) s)
with_calls env cfg turn left answer s (some []) =
    goes_on (complain (text "<assistant>") no_tool_call (assistant answer ∷ no_plain_text ∷ []) s)
with_calls env cfg turn left answer s (some (c ∷ cs)) =
    let calls = c ∷ cs in
    let finishing = any is_finish calls in
    let mixed = finishing && not (length calls == 1) in
    let kept : State = record s { messages = s.messages ++ (assistant answer ∷ []) } in
    let done = after_calls left finishing (all_calls env mixed turn calls kept) in
    if ltb cfg.max_tool_calls_per_turn (length calls)
    then stops (tool_call_limit_reached (record { turn_count = turn; state = s }))
    else done

-- `_complete_with_retries`: the loop over the attempts that are left. The constructor gives it one or
-- two attempts, so that none is left after a transient error only.
pub data Completed : Type 0 where
  completed : Fields → State → Completed
  broken : Review → Completed

unfoldable pub complete_with_retries : Setting → ℕ → State → Completed
complete_with_retries env zero s = broken (transient s)
complete_with_retries env (suc left) s =
    let called : State = record s { client_calls = suc s.client_calls } in
    let again = complete_with_retries env left called in
    elim (env.complete s.client_calls s.messages) [
      | response r ↦ completed r called
      | transient_error ↦ again
      | configuration_error ↦ broken (configuration called)
      | other_error ↦ broken (failed called)
    ]

abbrev pub turn_with : Setting → Reviewer → ℕ → ℕ → Completed → Turn
turn_with env cfg turn left (broken r) = stops r
turn_with env cfg turn left (completed r s) =
    with_calls env cfg turn left r (record s { model_call_count = s.model_call_count + 1 })
      (assistant_tool_calls env.decoder r)

-- One turn, with the number of turns that are left after it.
unfoldable pub one_turn : Setting → Reviewer → ℕ → ℕ → State → Turn
one_turn env cfg turn left s =
    turn_with env cfg turn left (complete_with_retries env cfg.max_attempts s)

-- The loop: the turns that are left, and the number of the next one.
unfoldable pub turns : Setting → Reviewer → ℕ → ℕ → State → Review
turns env cfg zero turn s = turn_limit_reached (record { turn_count = cfg.max_turns; state = s })
turns env cfg (suc left) turn s = elim (one_turn env cfg turn left s) [
  | stops r ↦ r
  | goes_on t ↦ turns env cfg left (suc turn) t
]

abbrev pub initial : Text → Fields → State
initial policy submission = record {
  messages = policy_and_submission policy submission ∷ [];
  tool_counts = [];
  inspected_paths = [];
  tool_bytes = 0;
  correction_count = 0;
  model_call_count = 0;
  protocol_errors = [];
  client_calls = 0;
}

-- `review`; `none` stands for the `ValueError` of a blank model or policy. The inventory of the
-- workspace is part of the first message.
unfoldable pub review : Setting → Reviewer → Text → Text → Fields → Option Review
review env cfg model policy submission =
    if is_nil (strip model)
    then none
    else if is_nil (strip policy)
    then none
    else some (turns env cfg cfg.max_turns 1 (initial policy submission))
