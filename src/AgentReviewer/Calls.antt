-- ===== src/AgentReviewer/Calls.antt =====
-- `_assistant_tool_calls` of src/oj_checker/agent_reviewer.py. `loads` is `json.loads`.
use csoj_judger.Prelude.{Bool, true, false, Option, none, some, List, [], ◌∷◌, is_nil, ◌==◌}
use csoj_judger.Prelude.Int.{pos}
use csoj_judger.Prelude.Order.{Text, text}
use csoj_judger.Json
use csoj_judger.Json.{
  Json, null, bool, int, real, str, arr, obj, Fields, end, field, Items, nil, cons, elements,
  mapping?, list?, str?,
}

pub record ToolCall : Type 0 where
  pub id : Text
  pub name : Text
  pub arguments : Fields

-- `value or []` of a missing or false value; a float is false if it is zero.
abbrev pub is_falsy : (Text → Bool) → Option Json → Bool
is_falsy is_zero none = true
is_falsy is_zero (some null) = true
is_falsy is_zero (some (bool b)) = elim b [ true ↦ false | false ↦ true ]
is_falsy is_zero (some (int (pos n))) = n == 0
is_falsy is_zero (some (int i)) = false
is_falsy is_zero (some (real r)) = is_zero r
is_falsy is_zero (some (str s)) = is_nil s
is_falsy is_zero (some (arr nil)) = true
is_falsy is_zero (some (arr xs)) = false
is_falsy is_zero (some (obj end)) = true
is_falsy is_zero (some (obj d)) = false

pub record Decoder : Type 0 where
  pub loads : Text → Option Json
  pub is_zero : Text → Bool

-- Each `none` is an `AgentReviewError` about the response.
abbrev pub decoded : Option Text → (Text → Option Json) → Option Fields
decoded none loads = none
decoded (some raw) loads = mapping? (loads raw)

abbrev pub call_with : Option Text → Option Text → Option Fields → Option ToolCall
call_with (some id) (some name) (some arguments) =
    some (record { id = id; name = name; arguments = arguments })
call_with _ _ _ = none

abbrev pub tool_call_in : Decoder → Fields → Option Fields → Option ToolCall
tool_call_in d call none = none
tool_call_in d call (some f) =
    call_with (str? (Json.get call (text "id"))) (str? (Json.get f (text "name")))
      (decoded (str? (Json.get f (text "arguments"))) d.loads)

unfoldable pub tool_call : Decoder → Json → Option ToolCall
tool_call d (obj call) = tool_call_in d call (mapping? (Json.get call (text "function")))
tool_call d _ = none

abbrev pub add_call : Option ToolCall → Option (List ToolCall) → Option (List ToolCall)
add_call (some c) (some cs) = some (c ∷ cs)
add_call none cs = none
add_call (some c) none = none

unfoldable pub tool_calls : Decoder → List Json → Option (List ToolCall)
tool_calls d [] = some []
tool_calls d (x ∷ xs) = add_call (tool_call d x) (tool_calls d xs)

abbrev pub raw_calls : Decoder → Option Json → Option (List Json)
raw_calls d o = elim (is_falsy d.is_zero o) [ true ↦ some [] | false ↦ list? o ]

abbrev pub calls_of : Decoder → Option (List Json) → Option (List ToolCall)
calls_of d none = none
calls_of d (some xs) = tool_calls d xs

abbrev pub only_choice : Option (List Json) → Option Fields
only_choice (some (obj choice ∷ [])) = some choice
only_choice _ = none

abbrev pub message_of : Option Fields → Option Fields
message_of none = none
message_of (some choice) = mapping? (Json.get choice (text "message"))

abbrev pub calls_in : Decoder → Option Fields → Option (List ToolCall)
calls_in d none = none
calls_in d (some message) = calls_of d (raw_calls d (Json.get message (text "tool_calls")))

-- The calls of a response; the assistant message that is kept is a part of the response.
unfoldable pub assistant_tool_calls : Decoder → Fields → Option (List ToolCall)
assistant_tool_calls d response =
    calls_in d (message_of (only_choice (list? (Json.get response (text "choices")))))
