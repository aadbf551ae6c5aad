-- ===== src/AgentRuns/System/Invariant.antt =====
-- What every sequence of operations, crashes and restarts keeps of the runs on disk.
use csoj_judger.Prelude.{◌≡◌, refl, ◌++◌, Option, none, some, List, [], ◌∷◌, subst, ℕ}
use csoj_judger.Prelude.Order.{Text, nat_ord, list_ord}
use csoj_judger.Prelude.Dict.{get, put}
use csoj_judger.AgentRuns.Data.{Service, Config, Metadata}
use csoj_judger.AgentRuns.Service.{create, get_run}
use csoj_judger.AgentRuns.Reconcile.{rebuild_index, recover, reconcile_failed}
use csoj_judger.AgentRuns.Worker.{Phase, taken, execute_step, Answer}
use csoj_judger.AgentRuns.Growth.{Sound, Grows, Keeps, Keeps-same, Keeps-trans, Keeps-new, extends}
use csoj_judger.AgentRuns.Growth.Events.{recover-Keeps, rebuild_index-Keeps, reconcile_failed-Keeps}
use csoj_judger.AgentRuns.Growth.Operations.{
  create-Keeps, get_run-Keeps, execute_step-Keeps, execute_step-IsReady, IsReady, at_taken,
  at_prepared, at_executing, at_finalized, at_written,
}
use csoj_judger.AgentRuns.System.{
  System, after_step, fresh, torn_dir, Step, creates, creates_in_part, gets, takes, switches, works,
  reconciles, restarts, Steps, done, more,
}

pub data AreReady (s : Service) : List (Text × Phase) → Type 0 where
  none_ready : AreReady s []
  also_ready :
      (id : Text) (phase : Phase) (rest : List (Text × Phase))
      → IsReady s id phase
      → AreReady s rest
      → AreReady s ((id, phase) ∷ rest)

IsReady-Grows :
    (s t : Service) (id : Text) (phase : Phase)
    → Grows s t
    → IsReady s id phase
    → IsReady t id phase
unfolding Grows
IsReady-Grows s t id taken g h = at_taken
IsReady-Grows s t id Phase.prepared g h = at_prepared
IsReady-Grows s t id Phase.executing g h = at_executing
IsReady-Grows s t id (Phase.finalized r) g h = at_finalized r
IsReady-Grows s t id Phase.written g (at_written dir e w) =
    let (later, f, x) = g id dir e in
    elim x [ extends new a b c d ↦ at_written later f (let same = b w in cc (same, w)) ]

AreReady-Grows :
    (s t : Service) (work : List (Text × Phase)) → Grows s t → AreReady s work → AreReady t work
AreReady-Grows s t [] g h = none_ready
AreReady-Grows s t ((id, phase) ∷ rest) g (also_ready i p r h hs) =
    also_ready id phase rest (IsReady-Grows s t id phase g h) (AreReady-Grows s t rest g hs)

AreReady-front :
    (s : Service) (one : Text × Phase) (before rest : List (Text × Phase))
    → AreReady s (before ++ (one ∷ rest))
    → AreReady s (one ∷ (before ++ rest))
AreReady-front s one [] rest h = h
AreReady-front s (id, phase) ((j, p) ∷ before) rest (also_ready a b c x xs) =
    elim (AreReady-front s (id, phase) before rest xs) [
      | also_ready d e f y ys ↦
          also_ready id phase ((j, p) ∷ (before ++ rest)) y (also_ready j p (before ++ rest) x ys)
    ]

AreReady-tail :
    (s : Service) (id : Text) (phase : Phase) (rest : List (Text × Phase))
    → AreReady s ((id, phase) ∷ rest)
    → IsReady s id phase × AreReady s rest
AreReady-tail s id phase rest (also_ready a b c x xs) = (x, xs)

-- The two parts of the invariant, across one step.
abbrev Preserved : System → System → Type 0
Preserved s t =
    AreReady s.service s.working → Keeps s.service t.service × AreReady t.service t.working

kept : (s : System) (t : Service) → Keeps s.service t → Preserved s (record s { service = t })
unfolding Keeps
kept s t (a, g) h = ((a, g), AreReady-Grows s.service t s.working g h)

torn_sound :
    (s : System) (id : Text) (m : Option Metadata) (r : Option (List ℕ)) (e : Option ℕ)
    → get s.service.disk id ≡ none
    → Keeps s.service (record s.service { disk = put s.service.disk id (torn_dir m r e) })
torn_sound s id m r none h =
    Keeps-new s.service (record s.service { disk = put s.service.disk id (torn_dir m r none) }) id
      (torn_dir m r none) h refl refl
torn_sound s id m r (some now) h =
    Keeps-new s.service
      (record s.service { disk = put s.service.disk id (torn_dir m r (some now)) }) id
      (torn_dir m r (some now)) h refl refl

worked :
    (s : Service) (id : Text) (now : ℕ) (phase : Phase) (answer : Answer)
    (rest : List (Text × Phase))
    → IsReady s id phase
    → AreReady s rest
    → Keeps s (after_step (execute_step s id now phase answer) id rest).service
      × AreReady
          (after_step (execute_step s id now phase answer) id rest).service
          (after_step (execute_step s id now phase answer) id rest).working
unfolding Keeps
worked s id now phase answer rest h hs =
    go (execute_step s id now phase answer) (execute_step-Keeps s id now phase answer h)
      (λ next e. execute_step-IsReady s id now phase next answer e)
  where
    go :
        (p : Service × Option Phase)
        → Keeps s p.0
        → ((next : Phase) → p.1 ≡ some next → IsReady p.0 id next)
        → Keeps s (after_step p id rest).service
          × AreReady (after_step p id rest).service (after_step p id rest).working
    go (t, none) (a, g) ready = ((a, g), AreReady-Grows s t rest g hs)
    go (t, some next) (a, g) ready =
        ((a, g), also_ready id next rest (ready next refl) (AreReady-Grows s t rest g hs))

Step-Preserved : (cfg : Config) (s t : System) → Step cfg s t → Preserved s t
Step-Preserved cfg s t (creates x bundle envelope now) =
    kept s (create cfg s.service bundle envelope now).0
      (create-Keeps cfg s.service bundle envelope now)
Step-Preserved cfg s t (creates_in_part x id m r e h) =
    kept s (record s.service { disk = put s.service.disk id (torn_dir m r e) })
      (torn_sound s id m r e h)
Step-Preserved cfg s t (gets x id) =
    kept s (get_run cfg s.service id).0 (get_run-Keeps cfg s.service id)
Step-Preserved cfg s t (takes x id rest e) = λ h. (
  Keeps-same s.service (record s.service { queue = rest }) refl,
  also_ready id taken s.working at_taken (
      AreReady-Grows s.service (record s.service { queue = rest }) s.working
        (unfold Keeps in (Keeps-same s.service (record s.service { queue = rest }) refl).1) h),
)
Step-Preserved cfg s t (switches x one before rest e) = λ h. (
  Keeps-same s.service s.service refl,
  AreReady-front s.service one before rest (subst (AreReady s.service) e h),
)
Step-Preserved cfg s t (works x id phase rest now answer e) = λ h.
    let (a, b) = AreReady-tail s.service id phase rest (subst (AreReady s.service) e h) in
    worked s.service id now phase answer rest a b
Step-Preserved cfg s t (reconciles x now) =
    kept s (reconcile_failed cfg now s.service).0 (reconcile_failed-Keeps cfg now s.service)
Step-Preserved cfg s t (restarts x now) = λ h.
    let f = fresh s.service in
    (
      Keeps-trans s.service f (recover cfg now (rebuild_index f)).0 (Keeps-same s.service f refl) (
          Keeps-trans f (rebuild_index f) (recover cfg now (rebuild_index f)).0
            (rebuild_index-Keeps f) (recover-Keeps cfg now (rebuild_index f))),
      none_ready,
    )

-- From runs that are sound on disk, with the results on disk that the workers rely on, every sequence
-- of requests, worker steps, reconciliations, crashes within a creation and restarts leads to sound
-- runs: their events are numbered without a gap, and one that was ever completed has a readable
-- result. No run disappears, no event is removed or changed, and a readable result stays as it is.
pub Steps-Sound :
    (cfg : Config) (s t : System)
    → Steps cfg s t
    → Sound s.service
    → AreReady s.service s.working
    → Sound t.service × Grows s.service t.service
unfolding Keeps
Steps-Sound cfg s t steps sound ready = let (a, g) = (go s t steps ready).0 in (a sound, g)
  where
    go :
        (s t : System)
        → Steps cfg s t
        → AreReady s.service s.working
        → Keeps s.service t.service × AreReady t.service t.working
    go s t (done x) ready = (Keeps-same s.service s.service refl, ready)
    go s t (more x m y step steps) ready =
        let (k, r) = Step-Preserved cfg s m step ready in
        let (l, q) = go m t steps r in (Keeps-trans s.service m.service t.service k l, q)
