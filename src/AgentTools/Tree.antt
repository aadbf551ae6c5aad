-- ===== src/AgentTools/Tree.antt =====
-- The workspace of src/oj_checker/agent_tools.py and how a tool's path is resolved in it. The entries of
-- a directory are kept in the order of their names, in which the tools visit them. A symbolic link holds
-- what it leads to; one that leads nowhere, or into a circle of links, leads to a special node here.
pub mod Safety
use csoj_judger.Prelude.{
  ℕ, ◌+◌, ltb, Bool, true, false, not, ◌&&◌, ◌||◌, List, [], ◌∷◌, any, keep, is_nil, if◌then◌else◌,
}
use csoj_judger.Prelude.Order.{Text, text, ◌===◌, nat_ord, list_ord}
use csoj_judger.Prelude.Result.{Result, ok, err, ◌>>=◌}
use csoj_judger.Prelude.Text.{split, contains, starts_with_char}

mutual
  pub data Node : Type 0 where
    file : List ℕ → Node
    directory : Entries → Node
    symlink : Node → Node
    special : Node

  pub data Entries : Type 0 where
    end : Entries
    entry : Text → Node → Entries → Entries

-- The reasons of a `ToolError`.
pub data Reason : Type 0 where
  unknown_root unsafe_path missing_path symlink_denied not_regular not_directory : Reason
  not_a_string not_an_integer not_a_boolean out_of_range : Reason
  query_length bad_symbol binary_file unknown_tool : Reason

-- What a tool raises: a `ToolError`, a `RuntimeError`, or an `OSError` that it does not handle.
pub data Failure : Type 0 where
  tool_error : Reason → Failure
  runtime_error os_error : Failure

pub record AgentWorkspace : Type 0 where
  pub submission : Entries
  pub baseline : Entries
  pub context : Entries

-- `AgentWorkspace.root`.
unfoldable pub root : AgentWorkspace → Text → Result Failure Entries
root w name =
    if name === text "submission"
    then ok w.submission
    else if name === text "baseline"
    then ok w.baseline
    else if name === text "context"
    then ok w.context
    else err (tool_error unknown_root)

-- The `parts` of a relative `PurePosixPath`: empty and `.` components are left out.
abbrev pub is_kept : Text → Bool
is_kept part = not (is_nil part || part === text ".")

abbrev pub pure_parts : Text → List Text
pure_parts path = keep is_kept (split b'/' path)

abbrev pub is_parent : Text → Bool
is_parent part = part === text ".."

abbrev pub is_refused : Text → Bool
is_refused path = is_nil path || (contains b'\\' path || contains 0 path)

-- `_safe_parts`. The text `.` has no parts, as the early return gives.
unfoldable pub safe_parts : Text → Result Failure (List Text)
safe_parts path =
    if is_refused path
    then err (tool_error unsafe_path)
    else if starts_with_char b'/' path || any is_parent (pure_parts path)
    then err (tool_error unsafe_path)
    else ok (pure_parts path)

abbrev pub find_entry : Entries → Text → Result Failure Node
find_entry end name = err (tool_error missing_path)
find_entry (entry n node rest) name = if n === name then ok node else find_entry rest name

-- The length of a name in UTF-8.
abbrev pub utf8_size : ℕ → ℕ
utf8_size c = if ltb c 128 then 1 else if ltb c 2048 then 2 else if ltb c 65536 then 3 else 4

abbrev pub byte_length : Text → ℕ
byte_length [] = 0
byte_length (c ∷ s) = utf8_size c + byte_length s

-- `(current / part).stat(follow_symlinks=False)` of an entry of a directory. A name of more than 255
-- bytes is refused by the file system with another error than that of a missing file.
unfoldable pub stat : Entries → Text → Result Failure Node
stat d name = if ltb 255 (byte_length name) then err os_error else find_entry d name

abbrev pub enter : Node → Result Failure Node
enter (symlink target) = err (tool_error symlink_denied)
enter n = ok n

-- The directory in which the operating system looks up a name: it follows the links that lead there.
-- Below anything else the call of `stat` raises `NotADirectoryError`.
abbrev pub opened : Node → Result Failure Entries
opened (directory d) = ok d
opened (symlink target) = opened target
opened (file c) = err os_error
opened special = err os_error

-- The loop of `_resolve`.
unfoldable pub resolve_parts : Node → List Text → Result Failure Node
unfolding stat
resolve_parts n [] = ok n
resolve_parts n (name ∷ rest) = do
  d ← opened n
  found ← stat d name
  child ← enter found
  resolve_parts child rest

-- `_resolve`.
unfoldable pub resolve : AgentWorkspace → Text → Text → Result Failure Node
resolve w root_name path = do
  top ← root w root_name
  parts ← safe_parts path
  resolve_parts (directory top) parts

abbrev pub regular : Node → Result Failure (List ℕ)
regular (file content) = ok content
regular _ = err (tool_error not_regular)

-- `_resolve_file`, with the file's content.
unfoldable pub resolve_file : AgentWorkspace → Text → Text → Result Failure (List ℕ)
resolve_file w root_name path = do node ← resolve w root_name path; regular node

abbrev pub entries_of : Node → Result Failure Entries
entries_of (directory d) = ok d
entries_of _ = err (tool_error not_directory)

-- `_resolve_directory`.
unfoldable pub resolve_directory : AgentWorkspace → Text → Text → Result Failure Entries
resolve_directory w root_name path = do node ← resolve w root_name path; entries_of node
