-- ===== src/AgentReviewer/Stream.antt =====
-- `_read_streaming_response`, `_merge_streaming_tool_call` and `_finalize_streaming_tool_call` of
-- src/oj_checker/agent_reviewer.py: an answer that arrives as server-sent events. The stream is its
-- list of lines, of which none is empty; a line that `readline` would cut exceeds the limit anyway.
pub mod Fragments
pub mod Reading
use csoj_judger.Prelude.{
  ℕ, zero, suc, ◌+◌, ◌^◌, Bool, true, false, not, ◌&&◌, ◌||◌, Option, none, some, List, [], ◌∷◌,
  ◌++◌, map, is_nil, length, ltb, ◌==◌, if◌then◌else◌,
}
use csoj_judger.Prelude.Int.{pos}
use csoj_judger.Prelude.Order.{Text, text, ◌===◌, nat_ord, list_ord}
use csoj_judger.Prelude.Dict
use csoj_judger.Prelude.Dict.{Dict, put}
use csoj_judger.Prelude.Result.{Result, ok, err, ◌>>=◌, ◌>>◌, raise_if}
use csoj_judger.Prelude.Sort.{sort_by}
use csoj_judger.Prelude.Text.{join}
use csoj_judger.Json
use csoj_judger.Json.{Json, null, bool, int, real, str, arr, obj, Fields, fields, items, elements}
use csoj_judger.ReviewBundle.Envelope.{starts_with}

-- An `AgentReviewError` about the response, or the transient one of a stream that ends early.
pub data StreamError : Type 0 where
  malformed interrupted : StreamError

-- A tool call as its fragments have built it.
pub record PartialCall : Type 0 where
  pub id : Text
  pub kind : Option Text
  pub name : Text
  pub arguments : Text

abbrev pub new_call : PartialCall
new_call = record { id = []; kind = none; name = []; arguments = [] }

abbrev pub Calls : Type 0
Calls = Dict ℕ PartialCall

-- A text, if the value is there and is not `None`.
abbrev pub optional_text : Option Json → Result StreamError (Option Text)
optional_text none = ok none
optional_text (some null) = ok none
optional_text (some (str s)) = ok (some s)
optional_text (some _) = err malformed

abbrev pub stream_index : Option Json → Result StreamError ℕ
stream_index (some (int (pos n))) = ok n
stream_index _ = err malformed

abbrev pub bounded_id : Text → Result StreamError Text
bounded_id merged = if ltb 64 (length merged) then err malformed else ok merged

abbrev pub merge_id : Text → Option Text → Result StreamError Text
merge_id current none = ok current
merge_id current (some raw) =
    if raw === current
    then ok current
    else bounded_id (if starts_with current raw then raw else current ++ raw)

abbrev pub merge_kind : Option Text → Option Text → Result StreamError (Option Text)
merge_kind current none = ok current
merge_kind none (some raw) = ok (some raw)
merge_kind (some current) (some raw) = if current === raw then ok (some raw) else err malformed

abbrev pub extend : Text → Option Text → Text
extend current none = current
extend current (some fragment) = current ++ fragment

abbrev pub merge_function : PartialCall → Option Json → Result StreamError PartialCall
merge_function call none = ok call
merge_function call (some null) = ok call
merge_function call (some (obj f)) = do
  name ← optional_text (Json.get f (text "name"))
  arguments ← optional_text (Json.get f (text "arguments"))
  ok (record call { name = extend call.name name; arguments = extend call.arguments arguments })
merge_function call (some _) = err malformed

unfoldable pub merge_fields : PartialCall → Fields → Result StreamError PartialCall
merge_fields call raw = do
  raw_id ← optional_text (Json.get raw (text "id"))
  id ← merge_id call.id raw_id
  raw_kind ← optional_text (Json.get raw (text "type"))
  kind ← merge_kind call.kind raw_kind
  merge_function (record call { id = id; kind = kind }) (Json.get raw (text "function"))

-- `tool_calls.setdefault(index, ...)`.
abbrev pub call_at : Option PartialCall → PartialCall
call_at none = new_call
call_at (some call) = call

-- `_merge_streaming_tool_call`.
unfoldable pub merge_call : Calls → Json → Result StreamError Calls
merge_call calls (obj raw) = stream_index (Json.get raw (text "index")) >>= λ index.
    merge_fields (call_at (Dict.get calls index)) raw >>= λ call. ok (put calls index call)
merge_call calls _ = err malformed

unfoldable pub merge_calls : Calls → List Json → Result StreamError Calls
merge_calls calls [] = ok calls
merge_calls calls (raw ∷ rest) = merge_call calls raw >>= λ more. merge_calls more rest

abbrev pub is_function : Option Text → Bool
is_function none = false
is_function (some kind) = kind === text "function"

-- `_finalize_streaming_tool_call`.
unfoldable pub finalize : PartialCall → Result StreamError Json
finalize call =
    if is_nil call.id || (not (is_function call.kind) || is_nil call.name)
    then err malformed
    else ok (
        obj (
          fields (
            (text "id", str call.id)
            ∷ (text "type", str (text "function"))
            ∷ (
              text "function",
              obj (
                  fields
                    ((text "name", str call.name) ∷ (text "arguments", str call.arguments) ∷ [])),
            )
            ∷ [])))

pub record Stream : Type 0 where
  pub content : List Text
  pub calls : Calls
  pub finish_reason : Option Text
  pub usage : Option Fields
  pub saw_choice : Bool

abbrev pub choice_fields : Json → Result StreamError Fields
choice_fields (obj d) = ok d
choice_fields _ = err malformed

abbrev pub some_fields : Option Json → Result StreamError Fields
some_fields (some (obj d)) = ok d
some_fields _ = err malformed

abbrev pub optional_list : Option Json → Result StreamError (List Json)
optional_list none = ok []
optional_list (some null) = ok []
optional_list (some (arr xs)) = ok (elements xs)
optional_list (some _) = err malformed

abbrev pub required_list : Option Json → Result StreamError (List Json)
required_list (some (arr xs)) = ok (elements xs)
required_list _ = err malformed

abbrev pub optional_usage : Option Fields → Option Json → Result StreamError (Option Fields)
optional_usage old none = ok old
optional_usage old (some null) = ok old
optional_usage old (some (obj d)) = ok (some d)
optional_usage old (some _) = err malformed

abbrev pub add_content : List Text → Option Text → List Text
add_content parts none = parts
add_content parts (some s) = parts ++ (s ∷ [])

-- `index != 0`: Python equates `False` and a zero float with 0.
abbrev pub is_zero_index : (Text → Bool) → Option Json → Bool
is_zero_index is_zero (some (int (pos n))) = n == 0
is_zero_index is_zero (some (bool b)) = not b
is_zero_index is_zero (some (real r)) = is_zero r
is_zero_index is_zero _ = false

module _ (is_zero : Text → Bool) where
  unfoldable pub consume_choice : Stream → Json → Result StreamError Stream
  consume_choice s raw = do
    choice ← choice_fields raw
    raise_if (not (is_zero_index is_zero (Json.get choice (text "index")))) malformed
    raw_reason ← optional_text (Json.get choice (text "finish_reason"))
    reason ← merge_kind s.finish_reason raw_reason
    delta ← some_fields (Json.get choice (text "delta"))
    content ← optional_text (Json.get delta (text "content"))
    raw_calls ← optional_list (Json.get delta (text "tool_calls"))
    calls ← merge_calls s.calls raw_calls
    ok (record s {
      content = add_content s.content content;
      calls = calls;
      finish_reason = reason;
      saw_choice = true;
    })

  unfoldable pub consume_choices : Stream → List Json → Result StreamError Stream
  consume_choices s [] = ok s
  consume_choices s (raw ∷ rest) = consume_choice s raw >>= λ t. consume_choices t rest

  unfoldable pub consume_json : Stream → Option Json → Result StreamError Stream
  consume_json s raw = do
    event ← some_fields raw
    usage ← optional_usage s.usage (Json.get event (text "usage"))
    choices ← required_list (Json.get event (text "choices"))
    consume_choices (record s { usage = usage }) choices

  module _ (loads : Text → Option Json) where
    -- `consume_event`: whether the event was the last one.
    unfoldable pub consume_event : Stream → List Text → Result StreamError (Bool × Stream)
    consume_event s event_data =
        let raw = join 10 event_data in
        if is_nil event_data
        then ok (false, s)
        else if raw === text "[DONE]"
        then ok (true, s)
        else consume_json s (loads raw) >>= λ t. ok (false, t)
