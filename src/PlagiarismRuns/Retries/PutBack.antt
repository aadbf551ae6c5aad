-- ===== src/PlagiarismRuns/Retries/PutBack.antt =====
-- Which failed plagiarism runs are put back into the queue.
use csoj_judger.Prelude.{
  ℕ, ◌≡◌, refl, subst, Bool, true, false, Option, none, some, [], ◌∷◌, ◌++◌, leb, ltb, arith,
  if◌then◌else◌,
}
use csoj_judger.Prelude.Order.{Text, text, ===_iff, nat_ord, list_ord}
use csoj_judger.Prelude.Dict.{get, put, get-put}
use csoj_judger.Prelude.Result.{ok, err}
use csoj_judger.AgentRuns.Data.{
  RunState, completed, failed, queued, Event, Run, RunDir, Service, ResultFile, absent, object,
  invalid,
}
use csoj_judger.AgentRuns.Service.{Outcome, bind, after}
use csoj_judger.PlagiarismRuns.Records.{Config, is_run_id, attempt_count}
use csoj_judger.PlagiarismRuns.Operations.{
  append_event, new_event, add_event, refresh, refreshed, store_run,
}
use csoj_judger.PlagiarismRuns.Retries.{
  reconcile_one, retry, put_back, attempts_of, recover_persisted_result, persisted,
}

store_run_keeps :
    (s : Service) (id : Text) (o : Option Run)
    → ((store_run s id o).0.disk ≡ s.disk) × ((store_run s id o).0.queue ≡ s.queue)
store_run_keeps s id none = (refl, refl)
store_run_keeps s id (some r) = (refl, refl)

refresh_keeps :
    (s : Service) (id : Text) (dir : RunDir) (e : Event) (o : Option Run)
    → ((refresh s id dir e o).0.disk ≡ s.disk) × ((refresh s id dir e o).0.queue ≡ s.queue)
refresh_keeps s id dir e none = (refl, refl)
refresh_keeps s id dir e (some cached) = store_run_keeps s id (refreshed dir e cached)

-- What an event changes.
append_event_lem :
    (s : Service) (id : Text) (dir : RunDir) (state : RunState) (at : ℕ) (code : Option Text)
    → get s.disk id ≡ some dir
    → is_run_id id ≡ true
    → ((append_event s id state at code).0.disk
        ≡ put s.disk id (add_event dir (new_event dir state at code)))
      × ((append_event s id state at code).0.queue ≡ s.queue)
unfolding append_event
append_event_lem s id dir state at code h p =
    let e = new_event dir state at code in
    let t : Service = record s { disk = put s.disk id (add_event dir e) } in
    rw p (rw h (refresh_keeps t id (add_event dir e) e (get s.runs id)))

after_not_zero :
    (cfg : Config) (now : ℕ) (id : Text) (o : Outcome (Unit {0}))
    → (bind (after o true) (retry cfg now id)).1 ≡ ok 1
    → ⊥
after_not_zero cfg now id (s, ok u) h = ground arith
after_not_zero cfg now id (s, err e) h = ground arith

put_back_lem :
    (id : Text) (o : Outcome (Unit {0}))
    → (bind o (put_back id)).1 ≡ ok 1
    → ((bind o (put_back id)).0.disk ≡ o.0.disk)
      × ((bind o (put_back id)).0.queue ≡ o.0.queue ++ (id ∷ []))
put_back_lem id (s, ok u) h = (refl, refl)
put_back_lem id (s, err e) h = ground arith

-- The service and the count after a run was put back.
abbrev pub IsPutBack : Config → ℕ → Service → Text → RunDir → Outcome ℕ → Type 0
IsPutBack cfg now s id dir o =
    (dir.result ≡ absent)
    × (ltb (attempt_count dir.events) cfg.max_run_attempts ≡ true)
    × (get o.0.disk id ≡ some (add_event dir (new_event dir queued now none)))
    × (o.0.queue ≡ s.queue ++ (id ∷ []))

-- A run on disk, under a run id, that the reconciliation puts back has no result file and has attempts
-- left; it gets a `queued` event after the events it has, and its id goes to the end of the queue.
pub reconcile_one_puts_back :
    (cfg : Config) (now : ℕ) (s : Service) (id : Text) (dir : RunDir)
    → is_run_id id ≡ true
    → get s.disk id ≡ some dir
    → (reconcile_one cfg now s id).1 ≡ ok 1
    → IsPutBack cfg now s id dir (reconcile_one cfg now s id)
unfolding reconcile_one recover_persisted_result
reconcile_one_puts_back cfg now s id dir p h =
    let e : bind (persisted s id now dir.result) (retry cfg now id) ≡ reconcile_one cfg now s id =
      rw h refl in
    λ q. subst (IsPutBack cfg now s id dir) e (by_result dir.result refl (cc (q, e)))
  where
    again : Outcome (Unit {0})
    again = append_event s id queued now none

    tried :
        (b : Bool)
        → leb cfg.max_run_attempts (attempts_of s id) ≡ b
        → dir.result ≡ absent
        → (if b then (s, ok 0) else bind again (put_back id)).1 ≡ ok 1
        → IsPutBack cfg now s id dir (if b then (s, ok 0) else bind again (put_back id))
    tried true w r q = ground arith
    tried false w r q =
        let (d, k) = append_event_lem s id dir queued now none h p in
        let (x, y) = put_back_lem id again q in
        let new = add_event dir (new_event dir queued now none) in
        let attempts : attempts_of s id ≡ attempt_count dir.events = rw (h, attempts_of) refl in
        let there : get (put s.disk id new) id ≡ some new =
          ground (arith, get-put s.disk id id new, (===_iff id id).1 refl) in
        (r, ground (arith, w, attempts), cc (x, d, there), cc (y, k))

    by_result :
        (r : ResultFile)
        → dir.result ≡ r
        → (bind (persisted s id now r) (retry cfg now id)).1 ≡ ok 1
        → IsPutBack cfg now s id dir (bind (persisted s id now r) (retry cfg now id))
    by_result absent r q = tried (leb cfg.max_run_attempts (attempts_of s id)) refl r q
    by_result (object o) r q =
        elim (after_not_zero cfg now id (append_event s id completed now none) q) [ ]
    by_result invalid r q =
        elim (after_not_zero cfg now id
          (append_event s id failed now (some (text "PLAGIARISM_RESULT_RECORD_INVALID"))) q) [ ]
