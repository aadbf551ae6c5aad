-- ===== src/AgentTools/Arguments.antt =====
-- The reading of a tool's arguments in src/oj_checker/agent_tools.py.
use csoj_judger.Prelude.{ℕ, Bool, false, ◌||◌, Option, none, some, is_nil, ltb, if◌then◌else◌}
use csoj_judger.Prelude.Int.{ℤ, pos, negsuc}
use csoj_judger.Prelude.Order.{Text}
use csoj_judger.Prelude.Result.{Result, ok, err}
use csoj_judger.Json
use csoj_judger.Json.{Json, str, int, bool, Fields}
use csoj_judger.AgentTools.Tree.{
  Failure, tool_error, not_a_string, not_an_integer, not_a_boolean, out_of_range,
}

-- `_string_argument`.
abbrev pub as_string : Option Json → Result Failure Text
as_string (some (str s)) = ok s
as_string _ = err (tool_error not_a_string)

unfoldable pub string_argument : Fields → Text → Result Failure Text
string_argument arguments name = as_string (Json.get arguments name)

-- `_optional_string_argument`: a missing or empty text stands for the default.
abbrev pub as_optional_string : Option Json → Text → Result Failure Text
as_optional_string none default = ok default
as_optional_string (some (str s)) default = ok (if is_nil s then default else s)
as_optional_string (some _) default = err (tool_error not_a_string)

unfoldable pub optional_string_argument : Fields → Text → Text → Result Failure Text
optional_string_argument arguments name default =
    as_optional_string (Json.get arguments name) default

abbrev pub exceeds : ℕ → Option ℕ → Bool
exceeds n none = false
exceeds n (some maximum) = ltb maximum n

-- `_int_argument`; every minimum that the tools give is a natural number.
abbrev pub in_range : ℤ → ℕ → Option ℕ → Result Failure ℕ
in_range (negsuc n) minimum maximum = err (tool_error out_of_range)
in_range (pos n) minimum maximum =
    if ltb n minimum || exceeds n maximum then err (tool_error out_of_range) else ok n

abbrev pub as_int : Option Json → ℕ → Option ℕ → Result Failure ℕ
as_int (some (int i)) minimum maximum = in_range i minimum maximum
as_int _ minimum maximum = err (tool_error not_an_integer)

unfoldable pub int_argument : Fields → Text → ℕ → Option ℕ → Result Failure ℕ
int_argument arguments name minimum maximum = as_int (Json.get arguments name) minimum maximum

-- `_optional_int_argument`.
abbrev pub as_optional_int : Option Json → ℕ → ℕ → Option ℕ → Result Failure ℕ
as_optional_int none default minimum maximum = ok default
as_optional_int (some v) default minimum maximum = as_int (some v) minimum maximum

unfoldable pub optional_int_argument : Fields → Text → ℕ → ℕ → Option ℕ → Result Failure ℕ
optional_int_argument arguments name default minimum maximum =
    as_optional_int (Json.get arguments name) default minimum maximum

-- `_optional_bool_argument`.
abbrev pub as_optional_bool : Option Json → Bool → Result Failure Bool
as_optional_bool none default = ok default
as_optional_bool (some (bool b)) default = ok b
as_optional_bool (some _) default = err (tool_error not_a_boolean)

unfoldable pub optional_bool_argument : Fields → Text → Bool → Result Failure Bool
optional_bool_argument arguments name default = as_optional_bool (Json.get arguments name) default
