-- ===== src/AgentRuns/Growth/Operations.antt =====
-- Requests and the worker's steps keep the runs on disk.
use csoj_judger.Prelude.{
  ℕ, ◌≡◌, refl, true, Option, none, some, List, [], arith, Bool-cases, inl, inr,
}
use csoj_judger.Prelude.Order.{Text, text, ===_iff, nat_ord, list_ord}
use csoj_judger.Prelude.Dict.{get, put, get-put}
use csoj_judger.Prelude.Result.{ok, err}
use csoj_judger.Catalog.{member}
use csoj_judger.Json.{Fields}
use csoj_judger.AgentRuns.Data.{
  completed, finalizing, preparing, running, RunDir, Run, Service, Config, ResultFile, absent,
  object, invalid, is_run_id, read_run, PublicRun, public_run,
}
use csoj_judger.AgentRuns.Service.{
  Outcome, append_event, after, remember, get_run, get_stored, get_cached, create, create_or_get,
  create_run, Bundle, run_id_of, new_dir, is_full,
}
use csoj_judger.AgentRuns.Worker.{
  Phase, taken, prepared, executing, finalized, written, Answer, fine, broken, report, failure,
  generic_failure, go_on, has_request, write_in, write_result, execute_step,
}
use csoj_judger.AgentRuns.Growth.{
  is_object, extends, Keeps, Keeps-same, Keeps-trans, Keeps-put, Keeps-new,
}
use csoj_judger.AgentRuns.Growth.Events.{
  append_event-Keeps, failed-Keeps, after-Keeps, remember-Keeps,
}

get_stored-Keeps : (cfg : Config) (s : Service) (o : Option RunDir) → Keeps s (get_stored cfg s o).0
get_stored-Keeps cfg s none = Keeps-same s s refl
get_stored-Keeps cfg s (some dir) =
    elim (read_run dir)
      as (λ x.
        Keeps s
          (elim x as (λ y. Outcome PublicRun) [
            | ok run ↦ after (remember s run) (public_run cfg run)
            | err e ↦ (s, err e)
          ]).0) [
            | ok run ↦ after-Keeps s (remember s run) (public_run cfg run) (remember-Keeps s run)
            | err e ↦ Keeps-same s s refl
          ]

get_cached-Keeps :
    (cfg : Config) (s : Service) (id : Text) (o : Option Run) → Keeps s (get_cached cfg s id o).0
get_cached-Keeps cfg s id none = get_stored-Keeps cfg s (get s.disk id)
get_cached-Keeps cfg s id (some run) = Keeps-same s s refl

pub get_run-Keeps : (cfg : Config) (s : Service) (id : Text) → Keeps s (get_run cfg s id).0
unfolding get_run
get_run-Keeps cfg s id = elim (Bool-cases (is_run_id id)) [
  | inl p ↦ rw p (get_cached-Keeps cfg s id (get s.runs id))
  | inr p ↦ rw p (Keeps-same s s refl)
]

create_run_disk :
    (cfg : Config) (s : Service) (bundle : Bundle) (envelope : List ℕ) (now : ℕ)
    → (create_run cfg s bundle envelope now).0.disk
      ≡ put s.disk (run_id_of bundle) (new_dir bundle envelope now)
create_run_disk cfg s bundle envelope now = ground arith

create_or_get-Keeps :
    (cfg : Config) (s : Service) (bundle : Bundle) (envelope : List ℕ) (now : ℕ) (o : Option RunDir)
    → get s.disk (run_id_of bundle) ≡ o
    → Keeps s (create_or_get cfg s bundle envelope now o).0
create_or_get-Keeps cfg s bundle envelope now (some dir) h = get_run-Keeps cfg s (run_id_of bundle)
create_or_get-Keeps cfg s bundle envelope now none h =
    Keeps-new s (create_run cfg s bundle envelope now).0 (run_id_of bundle)
      (new_dir bundle envelope now) h (create_run_disk cfg s bundle envelope now) refl

pub create-Keeps :
    (cfg : Config) (s : Service) (bundle : Bundle) (envelope : List ℕ) (now : ℕ)
    → Keeps s (create cfg s bundle envelope now).0
unfolding create
create-Keeps cfg s bundle envelope now =
    let made = create_or_get-Keeps cfg s bundle envelope now (get s.disk (run_id_of bundle)) refl in
    elim (Bool-cases (member bundle.model cfg.allowed_models)) [
      | inr p ↦ rw p (Keeps-same s s refl)
      | inl p ↦ rw p (elim (Bool-cases (is_full cfg s)) [
        | inl q ↦ rw q (Keeps-same s s refl)
        | inr q ↦ rw q made
      ])
    ]

generic_failure-Keeps : (s : Service) (id : Text) (now : ℕ) → Keeps s (generic_failure s id now).0
generic_failure-Keeps s id now = failed-Keeps s id now (some (text "AGENT_EXECUTION_FAILED"))

go_on-Keeps :
    (s : Service) (id : Text) (now : ℕ) (o : Outcome (Unit {0})) (next : Option Phase)
    → Keeps s o.0
    → Keeps s (go_on id now o next).0
go_on-Keeps s id now (t, ok u) next k = k
go_on-Keeps s id now (t, err e) next k =
    Keeps-trans s t (generic_failure t id now).0 k (generic_failure-Keeps t id now)

-- The result file is written once.
store_result-Keeps :
    (s : Service) (id : Text) (dir : RunDir) (r : ResultFile)
    → get s.disk id ≡ some dir
    → dir.result ≡ absent
    → Keeps s (record s { disk = put s.disk id (record dir { result = r }) })
store_result-Keeps s id dir r h e =
    Keeps-put s (record s { disk = put s.disk id (record dir { result = r }) }) id dir
      (record dir { result = r }) h refl (extends [] refl (λ q. ground (arith, e, q)) refl refl)
      (λ q. ground (arith, e, q))

pub write_result-Keeps :
    (s : Service) (id : Text) (r : ResultFile) → Keeps s (write_result s id r).0
write_result-Keeps s id r = go (get s.disk id) refl
  where
    go_in :
        (dir : RunDir) (old new : ResultFile)
        → get s.disk id ≡ some dir
        → dir.result ≡ old
        → Keeps s (write_in s id new (some (record dir { result = old }))).0
    go_in dir absent absent h e = Keeps-same s s refl
    go_in dir absent (object r) h e = store_result-Keeps s id dir (object r) h e
    go_in dir absent invalid h e = store_result-Keeps s id dir invalid h e
    go_in dir (object o) new h e = Keeps-same s s refl
    go_in dir invalid new h e = Keeps-same s s refl

    go : (o : Option RunDir) → get s.disk id ≡ o → Keeps s (write_in s id r o).0
    go none h = Keeps-same s s refl
    go (some dir) h = go_in dir dir.result r h refl

-- What a worker in the last phase relies on: the result is on disk.
pub data IsReady (s : Service) (id : Text) : Phase → Type 0 where
  at_taken : IsReady s id taken
  at_prepared : IsReady s id prepared
  at_executing : IsReady s id executing
  at_finalized : (r : Fields) → IsReady s id (finalized r)
  at_written :
      (dir : RunDir) → get s.disk id ≡ some dir → is_object dir.result ≡ true → IsReady s id written

pub execute_step-Keeps :
    (s : Service) (id : Text) (now : ℕ) (phase : Phase) (answer : Answer)
    → IsReady s id phase
    → Keeps s (execute_step s id now phase answer).0
unfolding execute_step
execute_step-Keeps s id now taken answer h =
    go_on-Keeps s id now (append_event s id preparing now none) (some prepared)
      (append_event-Keeps s id preparing now none (λ dir q. refl))
execute_step-Keeps s id now prepared fine h = elim (Bool-cases (has_request (get s.disk id))) [
  | inl p ↦ rw p (
      go_on-Keeps s id now (append_event s id running now none) (some executing)
        (append_event-Keeps s id running now none (λ dir q. refl)))
  | inr p ↦ rw p (generic_failure-Keeps s id now)
]
execute_step-Keeps s id now prepared broken h = generic_failure-Keeps s id now
execute_step-Keeps s id now prepared (report r) h = generic_failure-Keeps s id now
execute_step-Keeps s id now prepared (failure c) h = generic_failure-Keeps s id now
execute_step-Keeps s id now executing (report r) h =
    go_on-Keeps s id now (append_event s id finalizing now none) (some (finalized r))
      (append_event-Keeps s id finalizing now none (λ dir q. refl))
execute_step-Keeps s id now executing (failure c) h = failed-Keeps s id now (some c)
execute_step-Keeps s id now executing fine h = generic_failure-Keeps s id now
execute_step-Keeps s id now executing broken h = generic_failure-Keeps s id now
execute_step-Keeps s id now (finalized r) fine h =
    go_on-Keeps s id now (write_result s id (object r)) (some written)
      (write_result-Keeps s id (object r))
execute_step-Keeps s id now (finalized r) broken h =
    go_on-Keeps s id now (write_result s id invalid) none (write_result-Keeps s id invalid)
execute_step-Keeps s id now (finalized r) (report o) h = generic_failure-Keeps s id now
execute_step-Keeps s id now (finalized r) (failure c) h = generic_failure-Keeps s id now
execute_step-Keeps s id now written answer (at_written dir q w) =
    go_on-Keeps s id now (append_event s id completed now none) none
      (append_event-Keeps s id completed now none (λ d x. ground (arith, q, x, w)))

go_on_next :
    (id : Text) (now : ℕ) (o : Outcome (Unit {0})) (n : Option Phase) (x : Phase)
    → (go_on id now o n).1 ≡ some x
    → n ≡ some x
go_on_next id now (s, ok u) n x h = h
go_on_next id now (s, err e) n x h = ground arith

finalize-IsReady :
    (s : Service) (id : Text) (now : ℕ) (r : Fields)
    → (go_on id now (write_result s id (object r)) (some written)).1 ≡ some written
    → IsReady (go_on id now (write_result s id (object r)) (some written)).0 id written
finalize-IsReady s id now r = go (get s.disk id) refl
  where
    go_in :
        (dir : RunDir) (old : ResultFile)
        → get s.disk id ≡ some dir
        → dir.result ≡ old
        → (go_on id now
            (write_in s id (object r) (some (record dir { result = old })))
            (some written)).1
          ≡ some written
        → IsReady
            (go_on id now
              (write_in s id (object r) (some (record dir { result = old })))
              (some written)).0
            id
            written
    go_in dir absent e w h =
        let new : RunDir = record dir { result = object r } in
        at_written new (ground (arith, get-put s.disk id id new, (===_iff id id).1 refl)) refl
    go_in dir (object o) e w h = ground arith
    go_in dir invalid e w h = ground arith

    go :
        (o : Option RunDir)
        → get s.disk id ≡ o
        → (go_on id now (write_in s id (object r) o) (some written)).1 ≡ some written
        → IsReady (go_on id now (write_in s id (object r) o) (some written)).0 id written
    go none e h = ground arith
    go (some dir) e h = go_in dir dir.result e refl h

step_written-IsReady :
    (s : Service) (id : Text) (now : ℕ) (phase : Phase) (answer : Answer)
    → (execute_step s id now phase answer).1 ≡ some written
    → IsReady (execute_step s id now phase answer).0 id written
unfolding execute_step
step_written-IsReady s id now (finalized r) fine h = finalize-IsReady s id now r h
step_written-IsReady s id now taken answer h =
    let e = go_on_next id now (append_event s id preparing now none) (some prepared) written h in
    ground (arith, e)
step_written-IsReady s id now prepared fine h = elim (Bool-cases (has_request (get s.disk id))) [
  | inl p ↦
      let e =
        go_on_next id now (append_event s id running now none) (some executing) written
          (rw p at h) in
      ground (arith, e)
  | inr p ↦ ground arith
]
step_written-IsReady s id now executing (report r) h =
    let e =
      go_on_next id now (append_event s id finalizing now none) (some (finalized r)) written h in
    ground (arith, e)
step_written-IsReady s id now (finalized r) broken h =
    let e = go_on_next id now (write_result s id invalid) none written h in ground (arith, e)
step_written-IsReady s id now written answer h =
    let e = go_on_next id now (append_event s id completed now none) none written h in
    ground (arith, e)
step_written-IsReady s id now prepared broken h = ground arith
step_written-IsReady s id now prepared (report r) h = ground arith
step_written-IsReady s id now prepared (failure c) h = ground arith
step_written-IsReady s id now executing fine h = ground arith
step_written-IsReady s id now executing broken h = ground arith
step_written-IsReady s id now executing (failure c) h = ground arith
step_written-IsReady s id now (finalized r) (report o) h = ground arith
step_written-IsReady s id now (finalized r) (failure c) h = ground arith

-- The worker's next phase finds what it relies on.
pub execute_step-IsReady :
    (s : Service) (id : Text) (now : ℕ) (phase next : Phase) (answer : Answer)
    → (execute_step s id now phase answer).1 ≡ some next
    → IsReady (execute_step s id now phase answer).0 id next
execute_step-IsReady s id now phase taken answer h = at_taken
execute_step-IsReady s id now phase prepared answer h = at_prepared
execute_step-IsReady s id now phase executing answer h = at_executing
execute_step-IsReady s id now phase (finalized r) answer h = at_finalized r
execute_step-IsReady s id now phase written answer h = step_written-IsReady s id now phase answer h
