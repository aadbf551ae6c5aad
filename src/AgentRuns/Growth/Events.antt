-- ===== src/AgentRuns/Growth/Events.antt =====
-- Appending an event, and the operations made of it, keep the runs on disk.
use csoj_judger.Prelude.{
  ℕ, ◌+◌, ◌≡◌, refl, sym, Bool, true, false, not, ◌||◌, Option, none, some, List, [], ◌∷◌, leb,
  arith, Bool-cases, inl, inr, subst,
}
use csoj_judger.Prelude.Order.{Text, text, nat_ord, list_ord}
use csoj_judger.Prelude.Dict.{get, put}
use csoj_judger.Prelude.Result.{ok, err}
use csoj_judger.AgentRuns.Data.{
  RunState, completed, failed, queued, finalizing, preparing, running, cancelled, Event, RunDir,
  Run, Service, Config, ResultFile, absent, object, invalid, is_run_id, read_run, latest_event,
}
use csoj_judger.AgentRuns.Service.{
  Outcome, append_event, append_in, new_event, add_event, refresh, refreshed, store_run, bind,
  after, remember, is_full,
}
use csoj_judger.AgentRuns.Reconcile.{
  recover_persisted_result, persisted_in, persisted, rebuild_loop, rebuild_index, recover,
  recover_loop, recover_one, recover_in, resume, give_up, lost_unless, reconcile_failed,
  reconcile_loop, reconcile_one, retry, put_back, safe_run_roots, candidates, attempts_of,
}
use csoj_judger.AgentRuns.Growth.{
  is_completed, is_object, is_sound, Extends, extends, Keeps, Keeps-same, Keeps-trans, Keeps-put,
}

add_event-Extends : (dir : RunDir) (e : Event) → Extends dir (add_event dir e)
add_event-Extends dir e = extends (e ∷ []) refl (λ h. refl) refl refl

may_record : RunState → ResultFile → Bool
may_record state result = not (is_completed state) || is_object result

add_event_sound :
    (dir : RunDir) (state : RunState) (at : ℕ) (code : Option Text)
    → (not (is_completed state) || is_object dir.result) ≡ true
    → is_sound dir ≡ true
    → is_sound (add_event dir (new_event dir state at code)) ≡ true
add_event_sound dir state at code h k = ground arith

store_run_disk : (s : Service) (id : Text) (o : Option Run) → (store_run s id o).0.disk ≡ s.disk
store_run_disk s id none = refl
store_run_disk s id (some r) = refl

refresh_disk :
    (s : Service) (id : Text) (dir : RunDir) (e : Event) (o : Option Run)
    → (refresh s id dir e o).0.disk ≡ s.disk
refresh_disk s id dir e none = refl
refresh_disk s id dir e (some cached) = store_run_disk s id (refreshed dir e cached)

-- A `completed` event needs a readable result; the others need nothing.
pub append_event-Keeps :
    (s : Service) (id : Text) (state : RunState) (at : ℕ) (code : Option Text)
    → ((dir : RunDir)
        → get s.disk id ≡ some dir
        → (not (is_completed state) || is_object dir.result) ≡ true)
    → Keeps s (append_event s id state at code).0
unfolding append_event
append_event-Keeps s id state at code may = elim (Bool-cases (is_run_id id)) [
  | inl p ↦ rw p (go (get s.disk id) refl)
  | inr p ↦ rw p (Keeps-same s s refl)
]
  where
    go : (o : Option RunDir) → get s.disk id ≡ o → Keeps s (append_in s id state at code o).0
    go none h = Keeps-same s s refl
    go (some dir) h =
        let e = new_event dir state at code in
        let t : Service = record s { disk = put s.disk id (add_event dir e) } in
        Keeps-put s (refresh t id (add_event dir e) e (get s.runs id)).0 id dir (add_event dir e) h
          (refresh_disk t id (add_event dir e) e (get s.runs id)) (add_event-Extends dir e)
          (add_event_sound dir state at code (may dir h))

after_disk : {A : Type 0} (o : Outcome (Unit {0})) (a : A) → (after o a).0 ≡ o.0
after_disk (s, ok u) a = refl
after_disk (s, err e) a = refl

pub after-Keeps :
    {A : Type 0} (s : Service) (o : Outcome (Unit {0})) (a : A)
    → Keeps s o.0
    → Keeps s (after o a).0
after-Keeps s o a k = subst (Keeps s) (sym (after_disk o a)) k

pub bind-Keeps :
    {A B : Type 0} (s : Service) (o : Outcome A) (f : Service → A → Outcome B)
    → Keeps s o.0
    → ((a : A) → Keeps o.0 (f o.0 a).0)
    → Keeps s (bind o f).0
bind-Keeps s (t, ok a) f k next = Keeps-trans s t (f t a).0 k (next a)
bind-Keeps s (t, err e) f k next = k

pub failed-Keeps :
    (s : Service) (id : Text) (at : ℕ) (code : Option Text)
    → Keeps s (append_event s id failed at code).0
failed-Keeps s id at code = append_event-Keeps s id failed at code (λ dir h. refl)

pub recover_persisted_result-Keeps :
    (s : Service) (id : Text) (now : ℕ) → Keeps s (recover_persisted_result s id now).0
unfolding recover_persisted_result
recover_persisted_result-Keeps s id now = go (get s.disk id) refl
  where
    go_in :
        (dir : RunDir) (r : ResultFile)
        → get s.disk id ≡ some dir
        → dir.result ≡ r
        → Keeps s (persisted s id now r).0
    go_in dir absent h e = Keeps-same s s refl
    go_in dir invalid h e =
        after-Keeps s (append_event s id failed now (some (text "RESULT_RECORD_INVALID"))) true
          (failed-Keeps s id now (some (text "RESULT_RECORD_INVALID")))
    go_in dir (object r) h e =
        after-Keeps s (append_event s id completed now none) true
          (append_event-Keeps s id completed now none (λ d q. ground (arith, h, e, q)))

    go : (o : Option RunDir) → get s.disk id ≡ o → Keeps s (persisted_in s id now o).0
    go none h = Keeps-same s s refl
    go (some dir) h = go_in dir dir.result h refl

give_up-Keeps : (s : Service) (id : Text) (now : ℕ) → Keeps s (give_up s id now).0
give_up-Keeps s id now =
    after-Keeps s (append_event s id failed now (some (text "JOB_LOST"))) true
      (failed-Keeps s id now (some (text "JOB_LOST")))

resume-Keeps : (cfg : Config) (s : Service) (id : Text) → Keeps s (resume cfg s id).0
resume-Keeps cfg s id = Keeps-same s (resume cfg s id).0 (ground arith)

lost_unless-Keeps :
    (id : Text) (now : ℕ) (s : Service) (b : Bool) → Keeps s (lost_unless id now s b).0
lost_unless-Keeps id now s true = Keeps-same s s refl
lost_unless-Keeps id now s false = give_up-Keeps s id now

recover_in-Keeps :
    (cfg : Config) (s : Service) (id : Text) (now : ℕ) (state : RunState)
    → Keeps s (recover_in cfg s id now state).0
recover_in-Keeps cfg s id now queued = resume-Keeps cfg s id
recover_in-Keeps cfg s id now preparing = give_up-Keeps s id now
recover_in-Keeps cfg s id now running = give_up-Keeps s id now
recover_in-Keeps cfg s id now finalizing =
    bind-Keeps s (recover_persisted_result s id now) (lost_unless id now)
      (recover_persisted_result-Keeps s id now)
      (lost_unless-Keeps id now (recover_persisted_result s id now).0)
recover_in-Keeps cfg s id now completed = Keeps-same s s refl
recover_in-Keeps cfg s id now failed = Keeps-same s s refl
recover_in-Keeps cfg s id now cancelled = Keeps-same s s refl

recover_one-Keeps :
    (cfg : Config) (s : Service) (now : ℕ) (root : Text × RunDir)
    → Keeps s (recover_one cfg s now root).0
unfolding recover_one
recover_one-Keeps cfg s now (id, dir) =
    elim (latest_event dir)
      as (λ x.
        Keeps s
          (elim x as (λ y. Outcome Bool) [
            | err e ↦ (s, ok true)
            | ok e ↦ recover_in cfg s id now e.state
          ]).0) [ err e ↦ Keeps-same s s refl | ok e ↦ recover_in-Keeps cfg s id now e.state ]

recover_loop-Keeps :
    (cfg : Config) (now : ℕ) (s : Service) (roots : List (Text × RunDir))
    → Keeps s (recover_loop cfg now s roots).0
unfolding recover_loop
recover_loop-Keeps cfg now s [] = Keeps-same s s refl
recover_loop-Keeps cfg now s (root ∷ roots) =
    let rest = recover_loop-Keeps cfg now (recover_one cfg s now root).0 roots in
    bind-Keeps s (recover_one cfg s now root)
      (λ t go. elim go [ true ↦ recover_loop cfg now t roots | false ↦ (t, ok tt) ])
      (recover_one-Keeps cfg s now root)
      (λ go.
        elim go
          as (λ x.
            Keeps (recover_one cfg s now root).0
              (elim x as (λ y. Outcome (Unit {0})) [
                | true ↦ recover_loop cfg now (recover_one cfg s now root).0 roots
                | false ↦ ((recover_one cfg s now root).0, ok tt)
              ]).0) [
                | true ↦ rest
                | false ↦
                    Keeps-same (recover_one cfg s now root).0 (recover_one cfg s now root).0 refl
              ])

pub recover-Keeps : (cfg : Config) (now : ℕ) (s : Service) → Keeps s (recover cfg now s).0
unfolding recover
recover-Keeps cfg now s = recover_loop-Keeps cfg now s (safe_run_roots s)

remember_disk : (s : Service) (run : Run) → (remember s run).0.disk ≡ s.disk
unfolding remember
remember_disk s run = ground arith

pub remember-Keeps : (s : Service) (run : Run) → Keeps s (remember s run).0
remember-Keeps s run = Keeps-same s (remember s run).0 (remember_disk s run)

rebuild_loop-Keeps : (s : Service) (roots : List (Text × RunDir)) → Keeps s (rebuild_loop s roots)
unfolding rebuild_loop
rebuild_loop-Keeps s [] = Keeps-same s s refl
rebuild_loop-Keeps s ((id, dir) ∷ roots) =
    let next : Service = elim (read_run dir) [ ok run ↦ (remember s run).0 | err e ↦ s ] in
    Keeps-trans s next (rebuild_loop next roots)
      (elim (read_run dir) as (λ x. Keeps s (elim x [ ok run ↦ (remember s run).0 | err e ↦ s ])) [
        | ok run ↦ remember-Keeps s run
        | err e ↦ Keeps-same s s refl
      ])
      (rebuild_loop-Keeps next roots)

pub rebuild_index-Keeps : (s : Service) → Keeps s (rebuild_index s)
unfolding rebuild_index
rebuild_index-Keeps s = rebuild_loop-Keeps s (safe_run_roots s)

retry-Keeps :
    (cfg : Config) (now : ℕ) (id : Text) (s : Service) (b : Bool) → Keeps s (retry cfg now id s b).0
retry-Keeps cfg now id s true = Keeps-same s s refl
retry-Keeps cfg now id s false = elim (Bool-cases (leb cfg.max_run_attempts (attempts_of s id))) [
  | inl p ↦ rw p (Keeps-same s s refl)
  | inr p ↦ rw p (
      bind-Keeps s (append_event s id queued now none) (put_back id)
        (append_event-Keeps s id queued now none (λ dir h. refl))
        (λ u.
          Keeps-same (append_event s id queued now none).0
            (put_back id (append_event s id queued now none).0 u).0 refl))
]

reconcile_one-Keeps :
    (cfg : Config) (now : ℕ) (s : Service) (id : Text) → Keeps s (reconcile_one cfg now s id).0
unfolding reconcile_one
reconcile_one-Keeps cfg now s id =
    bind-Keeps s (recover_persisted_result s id now) (retry cfg now id)
      (recover_persisted_result-Keeps s id now)
      (retry-Keeps cfg now id (recover_persisted_result s id now).0)

reconcile_loop-Keeps :
    (cfg : Config) (now : ℕ) (s : Service) (n : ℕ) (runs : List Run)
    → Keeps s (reconcile_loop cfg now s n runs).0
unfolding reconcile_loop
reconcile_loop-Keeps cfg now s n [] = Keeps-same s s refl
reconcile_loop-Keeps cfg now s n (run ∷ runs) =
    let one = reconcile_one cfg now s run.metadata.run_id in
    let rest =
      bind-Keeps s one (λ t k. reconcile_loop cfg now t (n + k) runs)
        (reconcile_one-Keeps cfg now s run.metadata.run_id)
        (λ k. reconcile_loop-Keeps cfg now one.0 (n + k) runs) in
    elim (Bool-cases (leb cfg.reconcile_batch_size n || is_full cfg s)) [
      | inl p ↦ rw p (Keeps-same s s refl)
      | inr p ↦ rw p rest
    ]

pub reconcile_failed-Keeps :
    (cfg : Config) (now : ℕ) (s : Service) → Keeps s (reconcile_failed cfg now s).0
unfolding reconcile_failed
reconcile_failed-Keeps cfg now s = elim (Bool-cases (not s.started || not cfg.has_workers)) [
  | inl p ↦ rw p (Keeps-same s s refl)
  | inr p ↦ rw p (reconcile_loop-Keeps cfg now s 0 (candidates s))
]
