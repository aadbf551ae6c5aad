-- ===== src/AgentRuns/Worker.antt =====
-- The worker's `_execute` of src/oj_checker/agent_runs.py, one step for each event that it records, so
-- that other operations and a crash can fall between two steps.
use csoj_judger.Prelude.{ℕ, Bool, true, false, Option, none, some, if◌then◌else◌}
use csoj_judger.Prelude.Order.{Text, text, nat_ord, list_ord}
use csoj_judger.Prelude.Dict.{get, put}
use csoj_judger.Prelude.Result.{ok, err}
use csoj_judger.Json.{Fields}
use csoj_judger.AgentRuns.Data.{
  preparing, running, finalizing, completed, failed, invalid_record, unknown_run, ResultFile,
  absent, object, invalid, RunDir, Service,
}
use csoj_judger.AgentRuns.Service.{Outcome, append_event}

-- How far the worker is with a run: the queue item was taken, `preparing` was recorded, `running`
-- was recorded, `finalizing` was recorded, the result was written.
pub data Phase : Type 0 where
  taken prepared executing : Phase
  finalized : Fields → Phase
  written : Phase

-- What the code outside answers: the bundle still verifies or not, the executor's report, its
-- `AgentRunFailure` or another exception, and whether the result file could be written whole.
pub data Answer : Type 0 where
  fine : Answer
  broken : Answer
  report : Fields → Answer
  failure : Text → Answer

-- The worker's next phase; `none` once it is done with the run.
abbrev pub Progress : Type 0
Progress = Service × Option Phase

-- `except Exception`.
abbrev pub generic_failure : Service → Text → ℕ → Progress
generic_failure s id now =
    ((append_event s id failed now (some (text "AGENT_EXECUTION_FAILED"))).0, none)

abbrev pub go_on : Text → ℕ → Outcome (Unit {0}) → Option Phase → Progress
go_on id now (s, ok u) next = (s, next)
go_on id now (s, err e) next = generic_failure s id now

abbrev pub has_request : Option RunDir → Bool
has_request none = false
has_request (some dir) = elim dir.request [ none ↦ false | some envelope ↦ true ]

-- `_create_json` of the result: it fails where the file exists, and may leave a part of the text.
abbrev pub write_in : Service → Text → ResultFile → Option RunDir → Outcome (Unit {0})
write_in s id new none = (s, err unknown_run)
write_in s id new (some dir) = elim dir.result [
  | absent ↦ elim new [
    | object r ↦ (record s { disk = put s.disk id (record dir { result = object r }) }, ok tt)
    | absent ↦ (s, err invalid_record)
    | invalid ↦
        (record s { disk = put s.disk id (record dir { result = invalid }) }, err invalid_record)
  ]
  | _ ↦ (s, err invalid_record)
]

abbrev pub write_result : Service → Text → ResultFile → Outcome (Unit {0})
write_result s id new = write_in s id new (get s.disk id)

-- One step of `_execute`.
unfoldable pub execute_step : Service → Text → ℕ → Phase → Answer → Progress
execute_step s id now taken answer =
    go_on id now (append_event s id preparing now none) (some prepared)
execute_step s id now prepared fine =
    if has_request (get s.disk id)
    then go_on id now (append_event s id running now none) (some executing)
    else generic_failure s id now
execute_step s id now executing (report r) =
    go_on id now (append_event s id finalizing now none) (some (finalized r))
execute_step s id now executing (failure code) =
    ((append_event s id failed now (some code)).0, none)
execute_step s id now (finalized r) fine =
    go_on id now (write_result s id (object r)) (some written)
execute_step s id now (finalized r) broken = go_on id now (write_result s id invalid) none
execute_step s id now written answer = go_on id now (append_event s id completed now none) none
execute_step s id now phase answer = generic_failure s id now
