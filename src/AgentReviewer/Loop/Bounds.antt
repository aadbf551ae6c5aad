-- ===== src/AgentReviewer/Loop/Bounds.antt =====
-- The review ends within its limits, and with a checked report if it ends with one.
use csoj_judger.Prelude.{
  ℕ, zero, suc, ◌+◌, ◌*◌, ◌≤◌, ◌≡◌, refl, ap, subst, ◌++◌, Bool, true, false, not, ◌&&◌, Option,
  none, some, List, [], ◌∷◌, length, any, is_nil, ltb, ◌==◌, arith, Bool-cases, inl, inr,
}
use csoj_judger.Prelude.Order.{Text, ◌===◌, nat_ord, list_ord}
use csoj_judger.Prelude.Text.{strip}
use csoj_judger.Prelude.Result.{Result, ok, err}
use csoj_judger.Prelude.Dict.{Dict, get, put}
use csoj_judger.Json.{Fields}
use csoj_judger.AgentTools.Tree.{Failure, tool_error, runtime_error, os_error}
use csoj_judger.AgentTools.Listing.{ToolObservation}
use csoj_judger.AgentTools.Broker.{call}
use csoj_judger.AgentReviewer.Report.{Verdict, valid, invalid, crashes, validate_report}
use csoj_judger.AgentReviewer.Calls.{ToolCall, assistant_tool_calls}
use csoj_judger.AgentReviewer.Loop.{
  Setting, Reviewer, State, Review, reviewed, tool_call_limit_reached, turn_limit_reached,
  assistant, transient, configuration, failed, crashed, Completion, response, transient_error,
  configuration_error, other_error, count_of, count_tool, Turn, goes_on, stops, finish, finish_call,
  tool_outcome, is_finish, one_call, all_calls, remind, after_calls, with_calls, Completed,
  completed, broken, complete_with_retries, turn_with, one_turn, turns, initial, review,
}

-- The number of tool calls that a counter holds.
abbrev pub total : Dict Text ℕ → ℕ
total [] = 0
total ((k, n) ∷ d) = n + total d

total_counted :
    (d : Dict Text ℕ) (k : Text) → total (put d k (count_of (get d k) + 1)) ≡ total d + 1
unfolding put get
total_counted [] k = omega arith
total_counted ((j, n) ∷ d) k = elim (Bool-cases (j === k)) [
  | inl p ↦ rw p (omega arith)
  | inr p ↦ rw p (omega (arith, total_counted d k))
]

abbrev pub state_of : Review → State
state_of (reviewed r t) = t.state
state_of (tool_call_limit_reached t) = t.state
state_of (turn_limit_reached t) = t.state
state_of (transient s) = s
state_of (configuration s) = s
state_of (failed s) = s
state_of (crashed s) = s

abbrev pub turn_state : Turn → State
turn_state (goes_on s) = s
turn_state (stops r) = state_of r

-- At most so many more client calls, model calls and tool calls.
data IsWithin (s t : State) (client model tools : ℕ) : Type 0 where
  within :
      t.client_calls ≤ s.client_calls + client
      → t.model_call_count ≤ s.model_call_count + model
      → total t.tool_counts ≤ total s.tool_counts + tools
      → IsWithin s t client model tools

finish-IsWithin :
    (c : ToolCall) (turn : ℕ) (s : State) (v : Verdict)
    → IsWithin s (turn_state (finish c turn s v)) 0 0 0
finish-IsWithin c turn s valid = within (omega arith) (omega arith) (omega arith)
finish-IsWithin c turn s crashes = within (omega arith) (omega arith) (omega arith)
finish-IsWithin c turn s (invalid r) = within (omega arith) (omega arith) (omega arith)

tool_outcome-IsWithin :
    (c : ToolCall) (s : State) (r : Result Failure ToolObservation)
    → IsWithin s (turn_state (tool_outcome c s r)) 0 0 0
tool_outcome-IsWithin c s (ok o) = within (omega arith) (omega arith) (omega arith)
tool_outcome-IsWithin c s (err os_error) = within (omega arith) (omega arith) (omega arith)
tool_outcome-IsWithin c s (err runtime_error) = within (omega arith) (omega arith) (omega arith)
tool_outcome-IsWithin c s (err (tool_error x)) = within (omega arith) (omega arith) (omega arith)

IsWithin-trans :
    (s t u : State) (a b c x y z p q r : ℕ)
    → a + x ≡ p
    → b + y ≡ q
    → c + z ≡ r
    → IsWithin s t a b c
    → IsWithin t u x y z
    → IsWithin s u p q r
IsWithin-trans s t u a b c x y z p q r e f g (within h i j) (within k l m) =
    within (omega (arith, e, h, k)) (omega (arith, f, i, l)) (omega (arith, g, j, m))

count_tool-IsWithin : (name : Text) (s : State) → IsWithin s (count_tool name s) 0 0 1
count_tool-IsWithin name s =
    within (omega arith) (omega arith) (omega (arith, total_counted s.tool_counts name))

more_tools : (s t : State) (a b : ℕ) → a ≤ b → IsWithin s t 0 0 a → IsWithin s t 0 0 b
more_tools s t a b le (within x y z) = within x y (omega (arith, z, le))

weaken : (s t : State) (a b c : ℕ) → IsWithin s t a 0 0 → IsWithin s t a b c
weaken s t a b c (within x y z) = within x (omega (arith, y)) (omega (arith, z))

times : (n a : ℕ) → suc n * a ≡ a + n * a
times n a = omega arith

same_start :
    (s s' t : State) (n : ℕ)
    → s'.client_calls ≡ s.client_calls
    → s'.model_call_count ≡ s.model_call_count
    → s'.tool_counts ≡ s.tool_counts
    → IsWithin s' t 0 0 n
    → IsWithin s t 0 0 n
same_start s s' t n a b c (within x y z) =
    within (omega (arith, a, x)) (omega (arith, b, y)) (omega (arith, ap total c, z))

module _ (env : Setting) where
  finish_call-IsWithin :
      (mixed : Bool) (c : ToolCall) (turn : ℕ) (s : State)
      → IsWithin s (turn_state (finish_call env mixed c turn s)) 0 0 0
  finish_call-IsWithin true c turn s = within (omega arith) (omega arith) (omega arith)
  finish_call-IsWithin false c turn s =
      finish-IsWithin c turn s (validate_report env.in_unit env.broker.workspace c.arguments)

  one_call-IsWithin :
      (mixed : Bool) (turn : ℕ) (c : ToolCall) (s : State)
      → IsWithin s (turn_state (one_call env mixed turn c s)) 0 0 1
  unfolding one_call
  one_call-IsWithin mixed turn c s =
      let counted = count_tool c.name s in
      elim (Bool-cases (is_finish c)) [
        | inl p ↦ rw p (
            IsWithin-trans s counted (turn_state (finish_call env mixed c turn counted)) 0 0 1 0 0 0
              0 0 1 (omega arith) (omega arith) (omega arith) (count_tool-IsWithin c.name s)
              (finish_call-IsWithin mixed c turn counted))
        | inr p ↦
            let r = call env.broker c.name c.arguments in
            rw p (
              IsWithin-trans s counted (turn_state (tool_outcome c counted r)) 0 0 1 0 0 0 0 0 1
                (omega arith) (omega arith) (omega arith) (count_tool-IsWithin c.name s)
                (tool_outcome-IsWithin c counted r))
      ]

  all_calls-IsWithin :
      (mixed : Bool) (turn : ℕ) (cs : List ToolCall) (s : State)
      → IsWithin s (turn_state (all_calls env mixed turn cs s)) 0 0 (length cs)
  unfolding all_calls
  all_calls-IsWithin mixed turn [] s = within (omega arith) (omega arith) (omega arith)
  all_calls-IsWithin mixed turn (c ∷ cs) s =
      go (one_call env mixed turn c s) (one_call-IsWithin mixed turn c s)
        (λ t. all_calls-IsWithin mixed turn cs t)
    where
      go :
          (o : Turn)
          → IsWithin s (turn_state o) 0 0 1
          → ((t : State) → IsWithin t (turn_state (all_calls env mixed turn cs t)) 0 0 (length cs))
          → IsWithin s
              (turn_state (elim o as (λ x. Turn) [
                | stops r ↦ stops r
                | goes_on t ↦ all_calls env mixed turn cs t
              ]))
              0
              0
              (suc (length cs))
      go (stops r) (within a b d) ih = within a b (omega (arith, d))
      go (goes_on t) h ih =
          IsWithin-trans s t (turn_state (all_calls env mixed turn cs t)) 0 0 1 0 0 (length cs) 0 0
            (suc (length cs)) (omega arith) (omega arith) (omega arith) h (ih t)

  complete-IsWithin :
      (attempts : ℕ) (s : State) (r : Fields) (t : State)
      → complete_with_retries env attempts s ≡ completed r t
      → IsWithin s t attempts 0 0
  unfolding complete_with_retries
  complete-IsWithin zero s r t h = ground arith
  complete-IsWithin (suc left) s r t h =
      go (env.complete s.client_calls s.messages)
        (λ q. complete-IsWithin left (record s { client_calls = suc s.client_calls }) r t q) h
    where
      called : State
      called = record s { client_calls = suc s.client_calls }

      go :
          (o : Completion)
          → (complete_with_retries env left called ≡ completed r t → IsWithin called t left 0 0)
          → elim o as (λ x. Completed) [
            | response a ↦ completed a called
            | transient_error ↦ complete_with_retries env left called
            | configuration_error ↦ broken (configuration called)
            | other_error ↦ broken (failed called)
          ]
            ≡ completed r t
          → IsWithin s t (suc left) 0 0
      go (response a) ih q =
          let e : called ≡ t = ground arith in
          subst (λ x. IsWithin s x (suc left) 0 0) e
            (within (omega arith) (omega arith) (omega arith))
      go transient_error ih q =
          IsWithin-trans s called t 1 0 0 left 0 0 (suc left) 0 0 (omega arith) (omega arith)
            (omega arith) (within (omega arith) (omega arith) (omega arith)) (ih q)
      go configuration_error ih q = ground arith
      go other_error ih q = ground arith

  broken-IsWithin :
      (attempts : ℕ) (s : State) (r : Review)
      → complete_with_retries env attempts s ≡ broken r
      → IsWithin s (state_of r) attempts 0 0
  unfolding complete_with_retries
  broken-IsWithin zero s r h =
      let e : transient s ≡ r = ground arith in
      subst (λ x. IsWithin s (state_of x) 0 0 0) e
        (within (omega arith) (omega arith) (omega arith))
  broken-IsWithin (suc left) s r h =
      go (env.complete s.client_calls s.messages)
        (λ q. broken-IsWithin left (record s { client_calls = suc s.client_calls }) r q) h
    where
      called : State
      called = record s { client_calls = suc s.client_calls }

      go :
          (o : Completion)
          → (complete_with_retries env left called ≡ broken r
              → IsWithin called (state_of r) left 0 0)
          → elim o as (λ x. Completed) [
            | response a ↦ completed a called
            | transient_error ↦ complete_with_retries env left called
            | configuration_error ↦ broken (configuration called)
            | other_error ↦ broken (failed called)
          ]
            ≡ broken r
          → IsWithin s (state_of r) (suc left) 0 0
      go (response a) ih q = ground arith
      go transient_error ih q =
          IsWithin-trans s called (state_of r) 1 0 0 left 0 0 (suc left) 0 0 (omega arith)
            (omega arith) (omega arith) (within (omega arith) (omega arith) (omega arith)) (ih q)
      go configuration_error ih q =
          let e : configuration called ≡ r = ground arith in
          subst (λ x. IsWithin s (state_of x) (suc left) 0 0) e
            (within (omega arith) (omega arith) (omega arith))
      go other_error ih q =
          let e : failed called ≡ r = ground arith in
          subst (λ x. IsWithin s (state_of x) (suc left) 0 0) e
            (within (omega arith) (omega arith) (omega arith))

  remind-IsWithin :
      (left : ℕ) (finishing : Bool) (s : State) → IsWithin s (remind left finishing s) 0 0 0
  remind-IsWithin left finishing s = within (ground arith) (ground arith) (ground arith)

  module _ (cfg : Reviewer) where
    after_calls-IsWithin :
        (left n : ℕ) (finishing : Bool) (s : State) (o : Turn)
        → IsWithin s (turn_state o) 0 0 n
        → IsWithin s (turn_state (after_calls left finishing o)) 0 0 n
    after_calls-IsWithin left n finishing s (stops r) h = h
    after_calls-IsWithin left n finishing s (goes_on t) h =
        IsWithin-trans s t (remind left finishing t) 0 0 n 0 0 0 0 0 n (omega arith) (omega arith)
          (omega arith) h (remind-IsWithin left finishing t)

    with_calls-IsWithin :
        (turn left : ℕ) (answer : Fields) (s : State) (o : Option (List ToolCall))
        → IsWithin s
            (turn_state (with_calls env cfg turn left answer s o))
            0
            0
            cfg.max_tool_calls_per_turn
    with_calls-IsWithin turn left answer s none = within (omega arith) (omega arith) (omega arith)
    with_calls-IsWithin turn left answer s (some []) =
        within (omega arith) (omega arith) (omega arith)
    with_calls-IsWithin turn left answer s (some (c ∷ cs)) =
        let calls = c ∷ cs in
        let finishing = any is_finish calls in
        let mixed = finishing && not (length calls == 1) in
        let kept : State = record s { messages = s.messages ++ (assistant answer ∷ []) } in
        let done = all_calls env mixed turn calls kept in
        elim (Bool-cases (ltb cfg.max_tool_calls_per_turn (length calls))) [
          | inl p ↦ rw p (within (omega arith) (omega arith) (omega arith))
          | inr p ↦
              let few : length calls ≤ cfg.max_tool_calls_per_turn = ground (arith, p) in
              rw p (
                more_tools s (turn_state (after_calls left finishing done)) (length calls)
                  cfg.max_tool_calls_per_turn few
                  (after_calls-IsWithin left (length calls) finishing s done (
                    same_start s kept (turn_state done) (length calls) refl refl refl
                      (all_calls-IsWithin mixed turn calls kept))))
        ]

    turn_with-IsWithin :
        (turn left : ℕ) (s : State) (o : Completed)
        → complete_with_retries env cfg.max_attempts s ≡ o
        → IsWithin s
            (turn_state (turn_with env cfg turn left o))
            cfg.max_attempts
            1
            cfg.max_tool_calls_per_turn
    turn_with-IsWithin turn left s (broken r) h =
        weaken s (state_of r) cfg.max_attempts 1 cfg.max_tool_calls_per_turn
          (broken-IsWithin cfg.max_attempts s r h)
    turn_with-IsWithin turn left s (completed r t) h =
        let met : State = record t { model_call_count = t.model_call_count + 1 } in
        let calls = assistant_tool_calls env.decoder r in
        IsWithin-trans s met (turn_state (with_calls env cfg turn left r met calls))
          cfg.max_attempts 1 0 0 0 cfg.max_tool_calls_per_turn cfg.max_attempts 1
          cfg.max_tool_calls_per_turn (omega arith) (omega arith) (omega arith)
          (IsWithin-trans s t met cfg.max_attempts 0 0 0 1 0 cfg.max_attempts 1 0 (omega arith)
            (omega arith) (omega arith) (complete-IsWithin cfg.max_attempts s r t h)
            (within (omega arith) (omega arith) (omega arith)))
          (with_calls-IsWithin turn left r met calls)

    turns-IsWithin :
        (left turn : ℕ) (s : State)
        → IsWithin s
            (state_of (turns env cfg left turn s))
            (left * cfg.max_attempts)
            left
            (left * cfg.max_tool_calls_per_turn)
    unfolding turns one_turn
    turns-IsWithin zero turn s = within (omega arith) (omega arith) (omega arith)
    turns-IsWithin (suc left) turn s =
        go (turn_with env cfg turn left (complete_with_retries env cfg.max_attempts s))
          (turn_with-IsWithin turn left s (complete_with_retries env cfg.max_attempts s) refl)
          (λ t. turns-IsWithin left (suc turn) t)
      where
        go :
            (o : Turn)
            → IsWithin s (turn_state o) cfg.max_attempts 1 cfg.max_tool_calls_per_turn
            → ((t : State)
                → IsWithin t
                    (state_of (turns env cfg left (suc turn) t))
                    (left * cfg.max_attempts)
                    left
                    (left * cfg.max_tool_calls_per_turn))
            → IsWithin s
                (state_of (elim o as (λ x. Review) [
                  | stops r ↦ r
                  | goes_on t ↦ turns env cfg left (suc turn) t
                ]))
                (suc left * cfg.max_attempts)
                (suc left)
                (suc left * cfg.max_tool_calls_per_turn)
        go (stops r) (within a b c) ih =
            within (omega (arith, a, times left cfg.max_attempts)) (omega (arith, b))
              (omega (arith, c, times left cfg.max_tool_calls_per_turn))
        go (goes_on t) h ih =
            IsWithin-trans s t (state_of (turns env cfg left (suc turn) t)) cfg.max_attempts 1
              cfg.max_tool_calls_per_turn (left * cfg.max_attempts) left
              (left * cfg.max_tool_calls_per_turn) (suc left * cfg.max_attempts) (suc left)
              (suc left * cfg.max_tool_calls_per_turn) (omega (arith, times left cfg.max_attempts))
              (omega arith) (omega (arith, times left cfg.max_tool_calls_per_turn)) h (ih t)

-- Every review that starts ends, whatever the client answers and the tools raise: it has made at most
-- `max_attempts` calls of the client and at most one model call that returned for each of `max_turns`
-- turns, and has counted at most `max_tool_calls_per_turn` tool calls for each.
pub review_within_limits :
    (env : Setting) (cfg : Reviewer) (model policy : Text) (submission : Fields)
    → is_nil (strip model) ≡ false
    → is_nil (strip policy) ≡ false
    → (r : Review) × (review env cfg model policy submission ≡ some r)
      × ((state_of r).client_calls ≤ cfg.max_turns * cfg.max_attempts)
      × ((state_of r).model_call_count ≤ cfg.max_turns)
      × (total (state_of r).tool_counts ≤ cfg.max_turns * cfg.max_tool_calls_per_turn)
unfolding review
review_within_limits env cfg model policy submission h k =
    elim (turns-IsWithin env cfg cfg.max_turns 1 (initial policy submission)) [
      | within a b c ↦ (
        turns env cfg cfg.max_turns 1 (initial policy submission),
        rw (h, k) refl,
        omega (arith, a),
        omega (arith, b),
        omega (arith, c),
      )
    ]
