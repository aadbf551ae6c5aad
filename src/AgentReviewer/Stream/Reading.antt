-- ===== src/AgentReviewer/Stream/Reading.antt =====
-- The lines of an event stream, and the answer that they make.
pub mod Interrupted
use csoj_judger.Prelude.{
  ℕ, zero, suc, ◌+◌, Bool, true, false, not, ◌&&◌, ◌||◌, Option, none, some, List, [], ◌∷◌, ◌++◌,
  map, is_nil, length, ltb, ◌==◌, reverse, if◌then◌else◌,
}
use csoj_judger.Prelude.Int.{pos}
use csoj_judger.Prelude.Order.{Text, text, ◌===◌, nat_ord, list_ord}
use csoj_judger.Prelude.Dict
use csoj_judger.Prelude.Result.{Result, ok, err, ◌>>=◌, ◌>>◌, raise_if}
use csoj_judger.Prelude.Sort.{sort_by}
use csoj_judger.Prelude.Text.{starts_with_char}
use csoj_judger.Json.{Json, null, int, str, arr, obj, Fields, fields, items}
use csoj_judger.AgentTools.Listing.{rstrip_newlines}
use csoj_judger.AgentReviewer.Stream.{
  StreamError, malformed, interrupted, PartialCall, Calls, call_at, finalize, Stream, consume_event,
}

-- `bytes.decode`, `json.loads`, and whether a float is zero.
pub record Wire : Type 0 where
  pub decode : List ℕ → Option Text
  pub loads : Text → Option Json
  pub is_zero : Text → Bool

-- `_MAX_HTTP_RESPONSE_BYTES`.
abbrev pub max_response_bytes : ℕ
max_response_bytes = 2097152

-- `line.partition(":")`, with one space after the colon taken off.
abbrev pub field_name : Text → Text
field_name [] = []
field_name (c ∷ s) = let rest = field_name s in if c == b':' then [] else c ∷ rest

abbrev pub drop_space : Text → Text
drop_space [] = []
drop_space (c ∷ s) = if c == b' ' then s else c ∷ s

abbrev pub field_value : Text → Text
field_value [] = []
field_value (c ∷ s) = let rest = field_value s in if c == b':' then drop_space s else rest

-- A comment and a field other than `data` add nothing to the event.
unfoldable pub add_line : List Text → Text → List Text
add_line event_data line =
    if starts_with_char b':' line
    then event_data
    else if field_name line === text "data"
    then event_data ++ (field_value line ∷ [])
    else event_data

abbrev pub Read : Type 0
Read = Bool × (List Text × Stream)

module _ (w : Wire) where
  -- Whether the last event has come, the data of an event that has not ended, and what was gathered.
  unfoldable pub read_events : ℕ → List Text → Stream → List (List ℕ) → Result StreamError Read
  read_events total event_data s [] = ok (false, (event_data, s))
  read_events total event_data s (raw ∷ rest) =
      if ltb max_response_bytes (total + length raw) then err malformed else elim (w.decode raw) [
        | none ↦ err malformed
        | some line ↦ elim (rstrip_newlines line) [
          | [] ↦ consume_event w.is_zero w.loads s event_data >>= λ p. elim p.0 [
            | true ↦ ok (true, ([], p.1))
            | false ↦ read_events (total + length raw) [] p.1 rest
          ]
          | c ∷ l ↦ read_events (total + length raw) (add_line event_data (c ∷ l)) s rest
        ]
      ]

  -- An event that the end of the stream ends.
  abbrev pub last_event : Read → Result StreamError (Bool × Stream)
  last_event (true, (event_data, s)) = ok (true, s)
  last_event (false, (event_data, s)) = consume_event w.is_zero w.loads s event_data

  abbrev pub range_from : ℕ → ℕ → List ℕ
  range_from zero n = []
  range_from (suc count) n = n ∷ range_from count (suc n)

  abbrev pub indices : Calls → List ℕ
  indices [] = []
  indices ((i, call) ∷ calls) = i ∷ indices calls

  unfoldable pub finalize_all : Calls → List ℕ → Result StreamError (List Json)
  finalize_all calls [] = ok []
  finalize_all calls (i ∷ is) = finalize (call_at (Dict.get calls i)) >>= λ call.
      finalize_all calls is >>= λ rest. ok (call ∷ rest)

  abbrev pub joined : List Text → Text
  joined [] = []
  joined (t ∷ ts) = t ++ joined ts

  abbrev pub content_value : List Text → Json
  content_value [] = null
  content_value (t ∷ ts) = str (joined (t ∷ ts))

  abbrev pub usage_entry : Option Fields → List (Text × Json)
  usage_entry none = []
  usage_entry (some d) = (text "usage", obj d) ∷ []

  abbrev pub call_entry : List Json → List (Text × Json)
  call_entry [] = []
  call_entry (c ∷ cs) = (text "tool_calls", arr (items (c ∷ cs))) ∷ []

  abbrev pub stream_result : Stream → Text → List Json → Fields
  stream_result s reason calls = fields (
      (
        text "choices",
        arr (
            items (
              obj (
                fields (
                  (text "index", int (pos 0))
                  ∷ (text "finish_reason", str reason)
                  ∷ (
                    text "message",
                    obj (
                        fields (
                          (text "role", str (text "assistant"))
                          ∷ (text "content", content_value s.content)
                          ∷ call_entry calls)),
                  )
                  ∷ []))
              ∷ [])),
      )
      ∷ usage_entry s.usage)

  abbrev pub reason_of : Option Text → Result StreamError Text
  reason_of none = err malformed
  reason_of (some reason) = ok reason

  unfoldable pub stream_answer : Stream → Result StreamError Fields
  stream_answer s = do
    raise_if (not s.saw_choice) malformed
    reason ← reason_of s.finish_reason
    raise_if (not (sort_by (λ (i : ℕ). i) (indices s.calls) === range_from (length s.calls) 0))
        malformed
    calls ← finalize_all s.calls (range_from (length s.calls) 0)
    ok (stream_result s reason calls)

  abbrev pub new_stream : Stream
  new_stream = record {
    content = [];
    calls = [];
    finish_reason = none;
    usage = none;
    saw_choice = false;
  }

  -- `_read_streaming_response`.
  unfoldable pub read_stream : List (List ℕ) → Result StreamError Fields
  read_stream lines = read_events 0 [] new_stream lines >>= λ r.
      last_event r >>= λ p. raise_if (not p.0) interrupted >> stream_answer p.1
