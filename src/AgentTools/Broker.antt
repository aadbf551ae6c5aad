-- ===== src/AgentTools/Broker.antt =====
-- `call` of src/oj_checker/agent_tools.py. `compare_file` runs `git diff`: it is a parameter.
pub mod Following
use csoj_judger.Prelude.{ltb, if◌then◌else◌}
use csoj_judger.Prelude.Order.{Text, text, ◌===◌, nat_ord, list_ord}
use csoj_judger.Prelude.Result.{Result, ok, err, ◌>>=◌}
use csoj_judger.Json.{obj, Fields}
use csoj_judger.AgentTools.Tree.{Failure, tool_error, runtime_error, unknown_tool, AgentWorkspace}
use csoj_judger.AgentTools.Listing.{
  Library, Limits, ToolObservation, list_tree, search, find_references,
}
use csoj_judger.AgentTools.Reading.{file_info, read_lines}

pub record ReadOnlyToolBroker : Type 0 where
  pub workspace : AgentWorkspace
  pub limits : Limits
  pub lib : Library
  pub compare_file : Fields → Result Failure ToolObservation

abbrev pub handle : ReadOnlyToolBroker → Text → Fields → Result Failure ToolObservation
handle b name arguments =
    if name === text "list_tree"
    then list_tree b.limits b.workspace arguments
    else if name === text "file_info"
    then file_info b.lib b.workspace arguments
    else if name === text "search"
    then search b.lib b.limits b.workspace arguments
    else if name === text "read_lines"
    then read_lines b.lib b.limits b.workspace arguments
    else if name === text "compare_file"
    then b.compare_file arguments
    else if name === text "find_references"
    then find_references b.lib b.limits b.workspace arguments
    else err (tool_error unknown_tool)

abbrev pub measured : ReadOnlyToolBroker → ToolObservation → Result Failure ToolObservation
measured b o =
    let size = b.lib.sorted_json_size (obj o.payload) in
    if ltb b.limits.max_response_bytes size
    then err runtime_error
    else ok (record { payload = o.payload; paths = o.paths; bytes_returned = size })

unfoldable pub call : ReadOnlyToolBroker → Text → Fields → Result Failure ToolObservation
call b name arguments = do o ← handle b name arguments; measured b o
