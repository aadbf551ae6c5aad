-- ===== src/AgentTools/Listing.antt =====
-- The tools of src/oj_checker/agent_tools.py that walk the directories: `list_tree`, `search` and
-- `find_references`. Decoding a file into its lines and `casefold` are the library's.
use csoj_judger.Prelude.{
  ℕ, zero, suc, Bool, true, false, ◌&&◌, ◌||◌, Option, none, some, List, [], ◌∷◌, ◌++◌, length, map,
  reverse, take, any, is_nil, ltb, ◌==◌, if◌then◌else◌,
}
use csoj_judger.Prelude.Int.{pos}
use csoj_judger.Prelude.Order.{Text, text, ◌===◌, nat_ord, list_ord}
use csoj_judger.Prelude.Result.{Result, ok, err, ◌>>=◌, ◌>>◌, raise_if}
use csoj_judger.Prelude.Text.{join, is_space}
use csoj_judger.Json
use csoj_judger.Json.{Json, null, str, int, bool, arr, obj, Fields, fields, items}
use csoj_judger.AgentTools.Tree.{
  Node, file, directory, symlink, special, Entries, end, entry, Failure, tool_error, query_length,
  bad_symbol, not_directory, AgentWorkspace, pure_parts, resolve, resolve_directory,
}
use csoj_judger.AgentTools.Arguments.{
  string_argument, optional_string_argument, optional_int_argument, optional_bool_argument,
}
use csoj_judger.AgentTools.Paging.{Page, page_of, fitted_page}

-- `json_size` is `_json_size`, the number of bytes of `json.dumps`; `lines` gives the lines of an
-- open text file with their ends, `casefold` is the method of `str`.
pub record Limits : Type 0 where
  pub max_response_bytes : ℕ
  pub max_tree_entries : ℕ
  pub max_search_matches : ℕ
  pub max_read_lines : ℕ
  pub max_diff_lines : ℕ

pub record Library : Type 0 where
  pub json_size : Json → ℕ
  pub sorted_json_size : Json → ℕ
  pub lines : List ℕ → List Text
  pub casefold : Text → Text
  pub sha256 : List ℕ → Text

pub record ToolObservation : Type 0 where
  pub payload : Fields
  pub paths : List Text
  pub bytes_returned : ℕ

abbrev pub observation : Fields → List Text → ToolObservation
observation payload paths = record { payload = payload; paths = paths; bytes_returned = 0 }

-- `visit` of `list_tree`: a path is the list of its names.
pub data Listed : Type 0 where
  listed_symlink listed_directory : Listed
  listed_file : ℕ → Listed

pub record TreeEntry : Type 0 where
  pub path : List Text
  pub kind : Listed

unfoldable mutual
  pub visit : Entries → List Text → ℕ → List TreeEntry
  visit end relative remaining = []
  visit (entry name node rest) relative remaining =
      visit_node node (relative ++ (name ∷ [])) remaining ++ visit rest relative remaining

  pub visit_node : Node → List Text → ℕ → List TreeEntry
  visit_node (symlink target) path remaining = (record { path = path; kind = listed_symlink }) ∷ []
  visit_node (file c) path remaining = (record { path = path; kind = listed_file (length c) }) ∷ []
  visit_node (directory d) path zero = (record { path = path; kind = listed_directory }) ∷ []
  visit_node (directory d) path (suc remaining) =
      (record { path = path; kind = listed_directory }) ∷ visit d path remaining
  visit_node special path remaining = []

abbrev pub posix : List Text → Text
posix path = join b'/' path

abbrev pub prefixed : Text → Text → Text
prefixed root_name path = root_name ++ (b'/' ∷ path)

abbrev pub tree_entry_json : TreeEntry → Json
tree_entry_json e = elim e.kind [
  | listed_symlink ↦
      obj (
        fields
          ((text "path", str (posix e.path)) ∷ (text "type", str (text "symlink-denied")) ∷ []))
  | listed_directory ↦
      obj (fields ((text "path", str (posix e.path)) ∷ (text "type", str (text "directory")) ∷ []))
  | listed_file size ↦ obj (
      fields (
        (text "path", str (posix e.path))
        ∷ (text "type", str (text "file"))
        ∷ (text "bytes", int (pos size))
        ∷ []))
]

abbrev pub cursor_json : Option ℕ → Json
cursor_json none = null
cursor_json (some n) = int (pos n)

-- `_list_tree`.
abbrev pub tree_answer : Text → Text → Page TreeEntry → ToolObservation
tree_answer root_name path page =
    observation
      (fields (
        (text "root", str root_name)
        ∷ (text "path", str path)
        ∷ (text "entries", arr (items (map tree_entry_json page.items)))
        ∷ (text "truncated", bool page.truncated)
        ∷ (text "next_cursor", cursor_json page.next)
        ∷ []))
      (map (λ e. prefixed root_name (posix e.path)) page.items)

unfoldable pub list_tree : Limits → AgentWorkspace → Fields → Result Failure ToolObservation
list_tree limits w arguments = do
  root_name ← string_argument arguments (text "root")
  path ← optional_string_argument arguments (text "path") (text ".")
  depth ← optional_int_argument arguments (text "depth") 3 0 (some 16)
  cursor ← optional_int_argument arguments (text "cursor") 0 0 none
  listing ← resolve_directory w root_name path
  ok (
      tree_answer root_name path
        (page_of limits.max_tree_entries cursor (visit listing (pure_parts path) depth)))

pub record WalkedFile : Type 0 where
  pub path : List Text
  pub content : List ℕ

-- `visit` of `_walk_files`: the regular files, without following links.
unfoldable mutual
  pub walk : Entries → List Text → List WalkedFile
  walk end relative = []
  walk (entry name node rest) relative =
      walk_node node (relative ++ (name ∷ [])) ++ walk rest relative

  pub walk_node : Node → List Text → List WalkedFile
  walk_node (symlink target) path = []
  walk_node (file c) path = (record { path = path; content = c }) ∷ []
  walk_node (directory d) path = walk d path
  walk_node special path = []

abbrev pub walk_from : Node → List Text → Result Failure (List WalkedFile)
walk_from (file c) path = ok ((record { path = path; content = c }) ∷ [])
walk_from (directory d) path = ok (walk d path)
walk_from _ path = err (tool_error not_directory)

-- `_walk_files`.
unfoldable pub walk_files : AgentWorkspace → Text → Text → Result Failure (List WalkedFile)
walk_files w root_name path = do base ← resolve w root_name path; walk_from base (pure_parts path)

-- `_is_binary`.
unfoldable pub is_binary : List ℕ → Bool
is_binary content = any (λ b. b == 0) (take 8192 content)

abbrev pub drop_newlines : Text → Text
drop_newlines [] = []
drop_newlines (c ∷ s) = let rest = drop_newlines s in if c == 10 || c == 13 then rest else c ∷ s

-- `line.rstrip("\r\n")`.
unfoldable pub rstrip_newlines : Text → Text
rstrip_newlines s = reverse (drop_newlines (reverse s))

-- `needle in haystack`.
abbrev pub is_prefix : Text → Text → Bool
is_prefix [] s = true
is_prefix (c ∷ p) [] = false
is_prefix (c ∷ p) (d ∷ s) = c == d && is_prefix p s

abbrev pub occurs_in : Text → Text → Bool
occurs_in needle [] = is_nil needle
occurs_in needle (c ∷ s) = is_prefix needle (c ∷ s) || occurs_in needle s

pub record Match : Type 0 where
  pub path : Text
  pub line : ℕ
  pub matched : Text

unfoldable pub match_lines : (Text → Bool) → Text → ℕ → List Text → List Match
match_lines matches path number [] = []
match_lines matches path number (line ∷ lines) =
    let rest = match_lines matches path (suc number) lines in
    if matches line
    then record { path = path; line = number; matched = take 1000 (rstrip_newlines line) } ∷ rest
    else rest

unfoldable pub match_files : Library → (Text → Bool) → List WalkedFile → List Match
match_files lib matches [] = []
match_files lib matches (f ∷ files) =
    let rest = match_files lib matches files in
    if is_binary f.content
    then rest
    else match_lines matches (posix f.path) 1 (lib.lines f.content) ++ rest

abbrev pub match_json : Match → Json
match_json m = obj (
    fields (
      (text "path", str m.path)
      ∷ (text "line", int (pos m.line))
      ∷ (text "text", str m.matched)
      ∷ []))

abbrev pub search_payload : Text → Text → Text → Page Match → Fields
search_payload root_name path query page = fields (
    (text "root", str root_name)
    ∷ (text "path", str path)
    ∷ (text "query", str query)
    ∷ (text "matches", arr (items (map match_json page.items)))
    ∷ (text "truncated", bool page.truncated)
    ∷ (text "next_cursor", cursor_json page.next)
    ∷ [])

-- `dict.fromkeys`.
abbrev pub member : List Text → Text → Bool
member xs x = any (λ y. y === x) xs

abbrev pub unique_from : List Text → List Text → List Text
unique_from seen [] = []
unique_from seen (x ∷ xs) =
    let again = unique_from seen xs in
    let first = unique_from (x ∷ seen) xs in if member seen x then again else x ∷ first

abbrev pub found_in : Library → Bool → Text → Text → Bool
found_in lib case_sensitive query line =
    if case_sensitive
    then occurs_in query line
    else occurs_in (lib.casefold query) (lib.casefold line)

abbrev pub search_answer : Text → Text → Text → Page Match → ToolObservation
search_answer root_name path query page =
    observation (search_payload root_name path query page)
      (unique_from [] (map (λ m. prefixed root_name m.path) page.items))

-- `_search`, after the reading of the arguments.
unfoldable pub search_matches :
    Library → Limits → Text → Text → Text → Bool → ℕ → List WalkedFile → ToolObservation
search_matches lib limits root_name path query case_sensitive cursor files =
    search_answer root_name path query (
      fitted_page (λ page. lib.json_size (obj (search_payload root_name path query page)))
        limits.max_response_bytes limits.max_search_matches cursor
        (match_files lib (found_in lib case_sensitive query) files))

unfoldable pub search : Library → Limits → AgentWorkspace → Fields → Result Failure ToolObservation
search lib limits w arguments = do
  root_name ← string_argument arguments (text "root")
  path ← optional_string_argument arguments (text "path") (text ".")
  query ← string_argument arguments (text "query")
  raise_if (is_nil query || ltb 512 (length query)) (tool_error query_length)
  case_sensitive ← optional_bool_argument arguments (text "case_sensitive") true
  cursor ← optional_int_argument arguments (text "cursor") 0 0 none
  files ← walk_files w root_name path
  ok (search_matches lib limits root_name path query case_sensitive cursor files)

-- `arguments.get(key, default)`.
abbrev pub get_or : Fields → Text → Json → Json
get_or d key default = elim (Json.get d key) [ none ↦ default | some v ↦ v ]

-- `_find_references`.
unfoldable pub find_references :
    Library → Limits → AgentWorkspace → Fields → Result Failure ToolObservation
find_references lib limits w arguments = do
  symbol ← string_argument arguments (text "symbol")
  raise_if (is_nil symbol || (ltb 256 (length symbol) || any is_space symbol))
      (tool_error bad_symbol)
  search lib limits w (
      fields (
        (text "root", get_or arguments (text "root") (str (text "submission")))
        ∷ (text "path", get_or arguments (text "path") (str (text ".")))
        ∷ (text "query", str symbol)
        ∷ (text "case_sensitive", get_or arguments (text "case_sensitive") (bool true))
        ∷ (text "cursor", get_or arguments (text "cursor") (int (pos 0)))
        ∷ []))
