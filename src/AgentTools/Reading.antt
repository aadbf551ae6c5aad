-- ===== src/AgentTools/Reading.antt =====
-- The tools of src/oj_checker/agent_tools.py that read one file: `file_info`, `read_lines` and the check
-- of a piece of evidence.
pub mod Laws
use csoj_judger.Prelude.{
  ℕ, zero, suc, ◌+◌, ◌-◌, ◌/◌, Bool, true, false, not, ◌&&◌, ◌||◌, Option, none, some, List, [],
  ◌∷◌, ◌++◌, length, map, take, any, is_nil, max, ltb, leb, ◌==◌, if◌then◌else◌,
}
use csoj_judger.Prelude.Int.{ℤ, pos, negsuc}
use csoj_judger.Prelude.Order.{Text, text, nat_ord, list_ord}
use csoj_judger.Prelude.Result.{Result, ok, err, ◌>>=◌, ◌>>◌, raise_if}
use csoj_judger.Json
use csoj_judger.Json.{Json, null, str, int, bool, arr, obj, Fields, fields, items, str?}
use csoj_judger.AgentTools.Tree.{
  Failure, tool_error, Reason, binary_file, AgentWorkspace, resolve_file,
}
use csoj_judger.AgentTools.Arguments.{string_argument, int_argument}
use csoj_judger.AgentTools.Listing.{
  Library, Limits, ToolObservation, observation, prefixed, is_binary, rstrip_newlines, cursor_json,
}

-- The number of newline bytes, and one more for a last line without one: `_line_count`, which reads the
-- file in chunks.
abbrev pub newlines : List ℕ → ℕ
newlines [] = 0
newlines (b ∷ bs) = let rest = newlines bs in if b == 10 then suc rest else rest

-- `_ends_with_newline`.
unfoldable pub ends_with_newline : List ℕ → Bool
ends_with_newline [] = false
ends_with_newline (b ∷ []) = b == 10
ends_with_newline (b ∷ c ∷ bs) = ends_with_newline (c ∷ bs)

unfoldable pub line_count : List ℕ → ℕ
line_count content =
    if not (is_nil content) && not (ends_with_newline content)
    then newlines content + 1
    else newlines content

-- `_file_info`.
abbrev pub file_info_of : Library → Text → Text → List ℕ → ToolObservation
file_info_of lib root_name path content =
    observation
      (fields (
        (text "root", str root_name)
        ∷ (text "path", str path)
        ∷ (text "bytes", int (pos (length content)))
        ∷ (text "sha256", str (lib.sha256 content))
        ∷ (text "binary", bool (any (λ b. b == 0) content))
        ∷ (text "line_count", int (pos (line_count content)))
        ∷ []))
      (prefixed root_name path ∷ [])

unfoldable pub file_info : Library → AgentWorkspace → Fields → Result Failure ToolObservation
file_info lib w arguments = do
  root_name ← string_argument arguments (text "root")
  path ← string_argument arguments (text "path")
  content ← resolve_file w root_name path
  ok (file_info_of lib root_name path content)

-- A line that is shown; `is_cut` is the key `line_truncated`.
pub record ShownLine : Type 0 where
  pub number : ℕ
  pub shown : Text
  pub is_cut : Bool

abbrev pub shown_json : ShownLine → Json
shown_json l = obj (
    fields (
      (text "line", int (pos l.number))
      ∷ (text "text", str l.shown)
      ∷ (if l.is_cut then (text "line_truncated", bool true) ∷ [] else [])))

abbrev pub lines_payload : Text → Text → List ShownLine → Bool → Option ℕ → Fields
lines_payload root_name path lines truncated next = fields (
    (text "root", str root_name)
    ∷ (text "path", str path)
    ∷ (text "lines", arr (items (map shown_json lines)))
    ∷ (text "truncated", bool truncated)
    ∷ (text "next_start_line", cursor_json next)
    ∷ [])

abbrev pub whole_line : ℕ → Text → ShownLine
whole_line number line = record { number = number; shown = rstrip_newlines line; is_cut = false }

abbrev pub cut_line : ℕ → ℕ → Text → ShownLine
cut_line max_bytes number line = record {
  number = number;
  shown = take (max 1 (max_bytes / 4)) (rstrip_newlines line);
  is_cut = true;
}

-- The loop over the lines of the file, the next of which has the number `number`. `fits` tests the
-- payload of the given lines, the last of which is that line.
unfoldable pub read_loop :
    (List ShownLine → ℕ → Bool) → ℕ → ℕ → ℕ → ℕ → List ShownLine → List Text → List ShownLine
read_loop fits max_bytes start last number lines [] = lines
read_loop fits max_bytes start last number lines (line ∷ rest) =
    let proposed = lines ++ (whole_line number line ∷ []) in
    let skipped = read_loop fits max_bytes start last (suc number) lines rest in
    let taken = read_loop fits max_bytes start last (suc number) proposed rest in
    if ltb number start
    then skipped
    else if ltb last number
    then lines
    else if fits proposed number
    then taken
    else if is_nil lines
    then cut_line max_bytes number line ∷ []
    else lines

-- The last requested line, at most `limit` lines from the first on.
abbrev pub clipped : ℕ → ℕ → ℕ → ℕ
clipped limit start last = if ltb limit ((last - start) + 1) then (start + limit) - 1 else last

abbrev pub last_number : List ShownLine → Option ℕ
last_number [] = none
last_number (l ∷ []) = some l.number
last_number (l ∷ m ∷ ls) = last_number (m ∷ ls)

abbrev pub next_line : ℕ → Option ℕ → Option ℕ
next_line last none = none
next_line last (some n) = if ltb n last then some (n + 1) else none

abbrev pub is_some : Option ℕ → Bool
is_some none = false
is_some (some n) = true

-- The lines of an answer, and where the next one starts.
pub record LinesRead : Type 0 where
  pub lines : List ShownLine
  pub next : Option ℕ

unfoldable pub lines_read : Library → Limits → Text → Text → ℕ → ℕ → List ℕ → LinesRead
lines_read lib limits root_name path start last content =
    let end_line = clipped limits.max_read_lines start last in
    let shown =
      read_loop
        (λ proposed number.
          leb (lib.json_size (obj (lines_payload root_name path proposed true (some (number + 1)))))
            limits.max_response_bytes)
        limits.max_response_bytes start end_line 1 [] (lib.lines content) in
    record { lines = shown; next = next_line end_line (last_number shown) }

abbrev pub lines_answer : Text → Text → LinesRead → ToolObservation
lines_answer root_name path r =
    observation (lines_payload root_name path r.lines (is_some r.next) r.next)
      (prefixed root_name path ∷ [])

-- `_read_lines`.
unfoldable pub read_lines :
    Library → Limits → AgentWorkspace → Fields → Result Failure ToolObservation
read_lines lib limits w arguments = do
  root_name ← string_argument arguments (text "root")
  path ← string_argument arguments (text "path")
  start ← int_argument arguments (text "start_line") 1 none
  last ← int_argument arguments (text "end_line") start none
  content ← resolve_file w root_name path
  raise_if (is_binary content) (tool_error binary_file)
  ok (lines_answer root_name path (lines_read lib limits root_name path start last content))

-- Why a piece of evidence is refused; another exception than a `ToolError` goes through.
pub data Evidence : Type 0 where
  accepted refused_root_or_path refused_range refused_line : Evidence
  refused_path : Reason → Evidence
  raised : Evidence

abbrev pub check_line : ℕ → Result Failure (List ℕ) → Evidence
check_line last (ok content) = if ltb (line_count content) last then refused_line else accepted
check_line last (err (tool_error reason)) = refused_path reason
check_line last (err _) = raised

abbrev pub check_range : AgentWorkspace → Text → Text → Option Json → Option Json → Evidence
check_range w root_name path (some (int (pos start))) (some (int (pos last))) =
    if start == 0 || ltb last start
    then refused_range
    else check_line last (resolve_file w root_name path)
check_range w root_name path _ _ = refused_range

abbrev pub check_strings : AgentWorkspace → Fields → Option Text → Option Text → Evidence
check_strings w value (some root_name) (some path) =
    check_range w root_name path (Json.get value (text "start_line"))
      (Json.get value (text "end_line"))
check_strings w value _ _ = refused_root_or_path

-- `validate_evidence`.
unfoldable pub validate_evidence : AgentWorkspace → Fields → Evidence
validate_evidence w value =
    check_strings w value (str? (Json.get value (text "root")))
      (str? (Json.get value (text "path")))
