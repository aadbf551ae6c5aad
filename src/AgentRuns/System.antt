-- ===== src/AgentRuns/System.antt =====
-- The services that src/oj_checker/agent_runs.py can come to: requests, worker steps of several runs,
-- reconciliations, crashes and restarts follow each other in any order.
pub mod Invariant
use csoj_judger.Prelude.{ℕ, ◌≡◌, refl, Bool, true, false, Option, none, some, List, [], ◌∷◌, ◌++◌}
use csoj_judger.Prelude.Order.{Text, nat_ord, list_ord}
use csoj_judger.Prelude.Dict.{get, put}
use csoj_judger.AgentRuns.Data.{queued, Event, Metadata, RunDir, Service, Config, absent}
use csoj_judger.AgentRuns.Service.{create, get_run, Bundle}
use csoj_judger.AgentRuns.Reconcile.{rebuild_index, recover, reconcile_failed}
use csoj_judger.AgentRuns.Worker.{Phase, taken, Answer, execute_step}

-- A service with the runs that its workers execute.
pub record System : Type 0 where
  pub service : Service
  pub working : List (Text × Phase)

abbrev pub after_step : Service × Option Phase → Text → List (Text × Phase) → System
after_step (s, none) id rest = record { service = s; working = rest }
after_step (s, some next) id rest = record { service = s; working = (id, next) ∷ rest }

-- A process that starts over the files of another one.
abbrev pub fresh : Service → Service
fresh s = record { disk = s.disk; runs = []; latest_by_submission = []; queue = []; started = true }

abbrev pub torn_events : Option ℕ → List Event
torn_events none = []
torn_events (some now) =
    (record { sequence = 1; state = queued; updated_at = now; error_code = none }) ∷ []

-- What a crash within `create` leaves: some of the files, and no `_READY`.
abbrev pub torn_dir : Option Metadata → Option (List ℕ) → Option ℕ → RunDir
torn_dir m r e = record {
  metadata = m;
  request = r;
  events = torn_events e;
  result = absent;
  ready = false;
}

pub data Step (cfg : Config) : System → System → Type 0 where
  creates :
      (s : System) (bundle : Bundle) (envelope : List ℕ) (now : ℕ)
      → Step cfg s (record s { service = (create cfg s.service bundle envelope now).0 })
  creates_in_part :
      (s : System) (id : Text) (m : Option Metadata) (r : Option (List ℕ)) (e : Option ℕ)
      → get s.service.disk id ≡ none
      → Step cfg s (record s {
        service = record s.service { disk = put s.service.disk id (torn_dir m r e) };
      })
  gets : (s : System) (id : Text) → Step cfg s (record s { service = (get_run cfg s.service id).0 })
  takes :
      (s : System) (id : Text) (rest : List Text)
      → s.service.queue ≡ id ∷ rest
      → Step cfg s (record {
        service = record s.service { queue = rest };
        working = (id, taken) ∷ s.working;
      })
  -- Any worker may be the next to move: the run it executes comes to the front.
  switches :
      (s : System) (one : Text × Phase) (before rest : List (Text × Phase))
      → s.working ≡ before ++ (one ∷ rest)
      → Step cfg s (record s { working = one ∷ (before ++ rest) })
  works :
      (s : System) (id : Text) (phase : Phase) (rest : List (Text × Phase)) (now : ℕ)
      (answer : Answer)
      → s.working ≡ (id, phase) ∷ rest
      → Step cfg s (after_step (execute_step s.service id now phase answer) id rest)
  reconciles :
      (s : System) (now : ℕ)
      → Step cfg s (record s { service = (reconcile_failed cfg now s.service).0 })
  restarts :
      (s : System) (now : ℕ)
      → Step cfg s
          (record { service = (recover cfg now (rebuild_index (fresh s.service))).0; working = [] })

pub data Steps (cfg : Config) : System → System → Type 0 where
  done : (s : System) → Steps cfg s s
  more : (s t u : System) → Step cfg s t → Steps cfg t u → Steps cfg s u
