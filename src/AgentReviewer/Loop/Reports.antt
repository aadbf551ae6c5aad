-- ===== src/AgentReviewer/Loop/Reports.antt =====
-- A review ends with a report only if the report was accepted.
use csoj_judger.Prelude.{
  ℕ, zero, suc, ◌+◌, ◌++◌, ◌≡◌, refl, Bool, true, false, not, ◌&&◌, Option, none, some, List, [],
  ◌∷◌, length, any, ltb, ◌==◌, arith, Bool-cases, inl, inr, subst,
}
use csoj_judger.Prelude.Order.{Text, nat_ord, list_ord}
use csoj_judger.Prelude.Result.{Result, ok, err}
use csoj_judger.Json.{Fields}
use csoj_judger.AgentTools.Tree.{Failure, tool_error, runtime_error, os_error}
use csoj_judger.AgentTools.Listing.{ToolObservation}
use csoj_judger.AgentTools.Broker.{call}
use csoj_judger.AgentReviewer.Report.{Verdict, valid, invalid, crashes, validate_report}
use csoj_judger.AgentReviewer.Report.Laws.{IsBacked, validate_report-IsBacked}
use csoj_judger.AgentReviewer.Calls.{ToolCall, assistant_tool_calls}
use csoj_judger.AgentReviewer.Loop.{
  Setting, Reviewer, State, Trace, Review, reviewed, tool_call_limit_reached, turn_limit_reached,
  assistant, transient, configuration, failed, crashed, Completion, response, transient_error,
  configuration_error, other_error, count_tool, Turn, goes_on, stops, finish, finish_call,
  tool_outcome, is_finish, one_call, all_calls, after_calls, with_calls, Completed, completed,
  broken, complete_with_retries, turn_with, one_turn, turns, initial, review,
}

abbrev Reports : Setting → Review → Type 0
Reports env (reviewed f t) = validate_report env.in_unit env.broker.workspace f ≡ valid
Reports env (tool_call_limit_reached t) = Unit
Reports env (turn_limit_reached t) = Unit
Reports env (transient s) = Unit
Reports env (configuration s) = Unit
Reports env (failed s) = Unit
Reports env (crashed s) = Unit

abbrev TurnReports : Setting → Turn → Type 0
TurnReports env (goes_on s) = Unit
TurnReports env (stops r) = Reports env r

module _ (env : Setting) where
  finish-TurnReports :
      (c : ToolCall) (turn : ℕ) (s : State) (v : Verdict)
      → validate_report env.in_unit env.broker.workspace c.arguments ≡ v
      → TurnReports env (finish c turn s v)
  finish-TurnReports c turn s valid h = h
  finish-TurnReports c turn s crashes h = tt
  finish-TurnReports c turn s (invalid r) h = tt

  finish_call-TurnReports :
      (mixed : Bool) (c : ToolCall) (turn : ℕ) (s : State)
      → TurnReports env (finish_call env mixed c turn s)
  finish_call-TurnReports true c turn s = tt
  finish_call-TurnReports false c turn s =
      finish-TurnReports c turn s (validate_report env.in_unit env.broker.workspace c.arguments)
        refl

  tool_outcome-TurnReports :
      (c : ToolCall) (s : State) (r : Result Failure ToolObservation)
      → TurnReports env (tool_outcome c s r)
  tool_outcome-TurnReports c s (ok o) = tt
  tool_outcome-TurnReports c s (err os_error) = tt
  tool_outcome-TurnReports c s (err runtime_error) = tt
  tool_outcome-TurnReports c s (err (tool_error x)) = tt

  one_call-TurnReports :
      (mixed : Bool) (turn : ℕ) (c : ToolCall) (s : State)
      → TurnReports env (one_call env mixed turn c s)
  unfolding one_call
  one_call-TurnReports mixed turn c s = elim (Bool-cases (is_finish c)) [
    | inl p ↦ rw p (finish_call-TurnReports mixed c turn (count_tool c.name s))
    | inr p ↦
        rw p (tool_outcome-TurnReports c (count_tool c.name s) (call env.broker c.name c.arguments))
  ]

  all_calls-TurnReports :
      (mixed : Bool) (turn : ℕ) (cs : List ToolCall) (s : State)
      → TurnReports env (all_calls env mixed turn cs s)
  unfolding all_calls
  all_calls-TurnReports mixed turn [] s = tt
  all_calls-TurnReports mixed turn (c ∷ cs) s =
      go (one_call env mixed turn c s) (one_call-TurnReports mixed turn c s)
        (λ t. all_calls-TurnReports mixed turn cs t)
    where
      go :
          (o : Turn)
          → TurnReports env o
          → ((t : State) → TurnReports env (all_calls env mixed turn cs t))
          → TurnReports env (elim o as (λ x. Turn) [
            | stops r ↦ stops r
            | goes_on t ↦ all_calls env mixed turn cs t
          ])
      go (stops r) h ih = h
      go (goes_on t) h ih = ih t

  after_calls-TurnReports :
      (left : ℕ) (finishing : Bool) (o : Turn)
      → TurnReports env o
      → TurnReports env (after_calls left finishing o)
  after_calls-TurnReports left finishing (stops r) h = h
  after_calls-TurnReports left finishing (goes_on s) h = tt

  module _ (cfg : Reviewer) where
    with_calls-TurnReports :
        (turn left : ℕ) (answer : Fields) (s : State) (o : Option (List ToolCall))
        → TurnReports env (with_calls env cfg turn left answer s o)
    with_calls-TurnReports turn left answer s none = tt
    with_calls-TurnReports turn left answer s (some []) = tt
    with_calls-TurnReports turn left answer s (some (c ∷ cs)) =
        let calls = c ∷ cs in
        let finishing = any is_finish calls in
        let mixed = finishing && not (length calls == 1) in
        let kept : State = record s { messages = s.messages ++ (assistant answer ∷ []) } in
        elim (Bool-cases (ltb cfg.max_tool_calls_per_turn (length calls))) [
          | inl p ↦ rw p tt
          | inr p ↦ rw p (
              after_calls-TurnReports left finishing (all_calls env mixed turn calls kept)
                (all_calls-TurnReports mixed turn calls kept))
        ]

    Broken : Completed → Type 0
    Broken (completed r s) = Unit
    Broken (broken r) = Reports env r

    complete-Broken : (attempts : ℕ) (s : State) → Broken (complete_with_retries env attempts s)
    unfolding complete_with_retries Broken
    complete-Broken zero s = tt
    complete-Broken (suc left) s =
        go (env.complete s.client_calls s.messages)
          (complete-Broken left (record s { client_calls = suc s.client_calls }))
      where
        called : State
        called = record s { client_calls = suc s.client_calls }

        go :
            (o : Completion)
            → Broken (complete_with_retries env left called)
            → Broken (elim o as (λ x. Completed) [
              | response a ↦ completed a called
              | transient_error ↦ complete_with_retries env left called
              | configuration_error ↦ broken (configuration called)
              | other_error ↦ broken (failed called)
            ])
        go (response a) ih = tt
        go transient_error ih = ih
        go configuration_error ih = tt
        go other_error ih = tt

    turn_with-TurnReports :
        (turn left : ℕ) (o : Completed) → Broken o → TurnReports env (turn_with env cfg turn left o)
    unfolding Broken
    turn_with-TurnReports turn left (broken r) h = h
    turn_with-TurnReports turn left (completed r s) h =
        with_calls-TurnReports turn left r (record s { model_call_count = s.model_call_count + 1 })
          (assistant_tool_calls env.decoder r)

    turns-Reports : (left turn : ℕ) (s : State) → Reports env (turns env cfg left turn s)
    unfolding turns one_turn
    turns-Reports zero turn s = tt
    turns-Reports (suc left) turn s =
        go (turn_with env cfg turn left (complete_with_retries env cfg.max_attempts s))
          (turn_with-TurnReports turn left (complete_with_retries env cfg.max_attempts s)
            (complete-Broken cfg.max_attempts s))
          (λ t. turns-Reports left (suc turn) t)
      where
        go :
            (o : Turn)
            → TurnReports env o
            → ((t : State) → Reports env (turns env cfg left (suc turn) t))
            → Reports env (elim o as (λ x. Review) [
              | stops r ↦ r
              | goes_on t ↦ turns env cfg left (suc turn) t
            ])
        go (stops r) h ih = h
        go (goes_on t) h ih = ih t

-- A report that a review returns has one of the three decisions, that goes with its violations, and
-- each of its violations is backed by evidence: existing lines of files of the workspace, that were
-- resolved without following a link, some of them of the submission.
pub review-IsBacked :
    (env : Setting) (cfg : Reviewer) (model policy : Text) (submission report : Fields) (t : Trace)
    → review env cfg model policy submission ≡ some (reviewed report t)
    → IsBacked env.broker.workspace report
unfolding review
review-IsBacked env cfg model policy submission report t h =
    let e : turns env cfg cfg.max_turns 1 (initial policy submission) ≡ reviewed report t =
      ground (arith, h) in
    validate_report-IsBacked env.in_unit env.broker.workspace report
      (subst (Reports env) e (turns-Reports env cfg cfg.max_turns 1 (initial policy submission)))
