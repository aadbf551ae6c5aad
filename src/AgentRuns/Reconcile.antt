-- ===== src/AgentRuns/Reconcile.antt =====
-- Recovery at the start of a process and the reconciliation of failed runs, of
-- src/oj_checker/agent_runs.py. One operation stamps all its events with one reading of the clock.
use csoj_judger.Prelude.{
  ℕ, ◌+◌, Bool, true, false, not, ◌&&◌, ◌||◌, Option, none, some, List, [], ◌∷◌, ◌++◌, leb, keep,
  reverse, if◌then◌else◌,
}
use csoj_judger.Prelude.Order.{Text, text, nat_ord, list_ord, pair_ord}
use csoj_judger.Prelude.Dict.{get, values}
use csoj_judger.Prelude.Sort.{sort_by}
use csoj_judger.Prelude.Result.{ok, err}
use csoj_judger.AgentRuns.Data.{
  RunState, queued, preparing, running, finalizing, completed, failed, unknown_run, ResultFile,
  absent, object, invalid, RunDir, Run, Service, Config, is_run_id, attempt_count, latest_event,
  read_run, is_retryable_failure, is_failed,
}
use csoj_judger.AgentRuns.Service.{Outcome, append_event, remember, bind, after, is_full}

-- `_safe_run_roots`: the complete runs.
abbrev pub is_safe_root : Text × RunDir → Bool
is_safe_root (id, dir) = is_run_id id && dir.ready

abbrev pub safe_run_roots : Service → List (Text × RunDir)
safe_run_roots s = keep is_safe_root s.disk

unfoldable pub rebuild_loop : Service → List (Text × RunDir) → Service
rebuild_loop s [] = s
rebuild_loop s ((id, dir) ∷ roots) =
    rebuild_loop (elim (read_run dir) [ ok run ↦ (remember s run).0 | err e ↦ s ]) roots

unfoldable pub rebuild_index : Service → Service
unfolding rebuild_loop
rebuild_index s = rebuild_loop s (safe_run_roots s)

abbrev pub persisted : Service → Text → ℕ → ResultFile → Outcome Bool
persisted s id now absent = (s, ok false)
persisted s id now invalid =
    after (append_event s id failed now (some (text "RESULT_RECORD_INVALID"))) true
persisted s id now (object r) = after (append_event s id completed now none) true

abbrev pub persisted_in : Service → Text → ℕ → Option RunDir → Outcome Bool
persisted_in s id now none = (s, err unknown_run)
persisted_in s id now (some dir) = persisted s id now dir.result

unfoldable pub recover_persisted_result : Service → Text → ℕ → Outcome Bool
recover_persisted_result s id now = persisted_in s id now (get s.disk id)

-- One round of the loop of `_recover`: `false` ends the loop.
abbrev pub give_up : Service → Text → ℕ → Outcome Bool
give_up s id now = after (append_event s id failed now (some (text "JOB_LOST"))) true

abbrev pub resume : Config → Service → Text → Outcome Bool
resume cfg s id =
    if not cfg.has_workers
    then (s, ok true)
    else if is_full cfg s
    then (s, ok false)
    else (record s { queue = s.queue ++ (id ∷ []) }, ok true)

abbrev pub lost_unless : Text → ℕ → Service → Bool → Outcome Bool
lost_unless id now s true = (s, ok true)
lost_unless id now s false = give_up s id now

abbrev pub recover_in : Config → Service → Text → ℕ → RunState → Outcome Bool
recover_in cfg s id now finalizing = bind (recover_persisted_result s id now) (lost_unless id now)
recover_in cfg s id now queued = resume cfg s id
recover_in cfg s id now preparing = give_up s id now
recover_in cfg s id now running = give_up s id now
recover_in cfg s id now _ = (s, ok true)

unfoldable pub recover_one : Config → Service → ℕ → Text × RunDir → Outcome Bool
recover_one cfg s now (id, dir) = elim (latest_event dir) [
  | err e ↦ (s, ok true)
  | ok e ↦ recover_in cfg s id now e.state
]

unfoldable pub recover_loop : Config → ℕ → Service → List (Text × RunDir) → Outcome (Unit {0})
recover_loop cfg now s [] = (s, ok tt)
recover_loop cfg now s (root ∷ roots) =
    bind (recover_one cfg s now root)
      λ s' go. elim go [ true ↦ recover_loop cfg now s' roots | false ↦ (s', ok tt) ]

unfoldable pub recover : Config → ℕ → Service → Outcome (Unit {0})
recover cfg now s = recover_loop cfg now s (safe_run_roots s)

-- The runs to retry, the last updated first.
abbrev pub updated : Run → ℕ × Text
updated run = (run.updated_at, run.metadata.run_id)

abbrev pub candidates : Service → List Run
candidates s = reverse (
    sort_by updated (keep (λ run. is_failed run.state && is_retryable_failure run) (values s.runs)))

abbrev pub attempts_of : Service → Text → ℕ
attempts_of s id = elim (get s.disk id) [ none ↦ 0 | some dir ↦ attempt_count dir.events ]

abbrev pub put_back : Text → Service → Unit {0} → Outcome ℕ
put_back id s _ = (record s { queue = s.queue ++ (id ∷ []) }, ok 1)

-- After the look for a persisted result: the number of runs put back, 0 or 1.
abbrev pub retry : Config → ℕ → Text → Service → Bool → Outcome ℕ
retry cfg now id s true = (s, ok 0)
retry cfg now id s false =
    if leb cfg.max_run_attempts (attempts_of s id)
    then (s, ok 0)
    else bind (append_event s id queued now none) (put_back id)

unfoldable pub reconcile_one : Config → ℕ → Service → Text → Outcome ℕ
reconcile_one cfg now s id = bind (recover_persisted_result s id now) (retry cfg now id)

unfoldable pub reconcile_loop : Config → ℕ → Service → ℕ → List Run → Outcome ℕ
reconcile_loop cfg now s reconciled [] = (s, ok reconciled)
reconcile_loop cfg now s reconciled (run ∷ runs) =
    let next : Outcome ℕ =
      bind (reconcile_one cfg now s run.metadata.run_id)
        (λ s' n. reconcile_loop cfg now s' (reconciled + n) runs) in
    if leb cfg.reconcile_batch_size reconciled || is_full cfg s then (s, ok reconciled) else next

unfoldable pub reconcile_failed : Config → ℕ → Service → Outcome ℕ
reconcile_failed cfg now s =
    if not s.started || not cfg.has_workers
    then (s, ok 0)
    else reconcile_loop cfg now s 0 (candidates s)
