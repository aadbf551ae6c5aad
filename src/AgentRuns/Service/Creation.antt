-- ===== src/AgentRuns/Service/Creation.antt =====
-- A bundle that is sent twice makes one run.
use csoj_judger.Prelude.{
  ℕ, ◌≡◌, refl, ap, true, false, none, some, List, arith, Bool-cases, inl, inr, ◌⊎◌,
}
use csoj_judger.Prelude.Order.{===_iff, nat_ord, list_ord}
use csoj_judger.Prelude.Dict.{get, get-put}
use csoj_judger.Prelude.Result.{ok, err}
use csoj_judger.Catalog.{member}
use csoj_judger.AgentRuns.Data.{
  Service, Config, PublicRun, public_run, queue_full, is_run_id, RunDir, Run,
}
use csoj_judger.AgentRuns.Service.{
  create, create_run, create_or_get, Bundle, run_id_of, is_full, new_dir, new_run, get_run,
  get_cached,
}

module _ (cfg : Config) (s : Service) (bundle : Bundle) (envelope : List ℕ) (now : ℕ) where
  created_disk :
      get (create_run cfg s bundle envelope now).0.disk (run_id_of bundle)
      ≡ some (new_dir bundle envelope now)
  created_disk = ground (
    arith,
    get-put s.disk (run_id_of bundle) (run_id_of bundle) (new_dir bundle envelope now),
    (===_iff (run_id_of bundle) (run_id_of bundle)).1 refl,
  )

  created_cache :
      get (create_run cfg s bundle envelope now).0.runs (run_id_of bundle)
      ≡ some (new_run bundle now)
  created_cache = ground (
    arith,
    get-put s.runs (run_id_of bundle) (run_id_of bundle) (new_run bundle now),
    (===_iff (run_id_of bundle) (run_id_of bundle)).1 refl,
  )

-- A creation of a run that is cached.
create_cached :
    (cfg : Config) (s : Service) (bundle : Bundle) (envelope : List ℕ) (now : ℕ) (dir : RunDir)
    (cached : Run)
    → member bundle.model cfg.allowed_models ≡ true
    → is_full cfg s ≡ false
    → get s.disk (run_id_of bundle) ≡ some dir
    → is_run_id (run_id_of bundle) ≡ true
    → get s.runs (run_id_of bundle) ≡ some cached
    → create cfg s bundle envelope now ≡ (s, ok (public_run cfg cached))
unfolding create get_run
create_cached cfg s bundle envelope now dir cached allowed room on_disk id in_cache =
    let a : get_cached cfg s (run_id_of bundle) (get s.runs (run_id_of bundle))
        ≡ (s, ok (public_run cfg cached)) =
      rw in_cache refl in
    let b : get_run cfg s (run_id_of bundle) ≡ (s, ok (public_run cfg cached)) = rw id a in
    let c : create_or_get cfg s bundle envelope now (get s.disk (run_id_of bundle))
        ≡ (s, ok (public_run cfg cached)) =
      rw on_disk b in
    rw allowed (rw room c)

-- The answer to a bundle that is sent again, by the room in the queue.
abbrev pub IsResent : Config → Service → Bundle → List ℕ → ℕ → PublicRun → Type 0
IsResent cfg s bundle again again_at run =
    ((is_full cfg s ≡ false) × (create cfg s bundle again again_at ≡ (s, ok run)))
    ⊎ ((is_full cfg s ≡ true) × (create cfg s bundle again again_at ≡ (s, err queue_full)))

-- Where a creation of a run succeeds whose id is a run id and new on the disk, and the same bundle is
-- sent again directly after it, that second call changes neither the files nor the queue. It returns the
-- same run when there is room in the queue, and is refused with a full queue when there is none.
pub create-create :
    (cfg : Config) (s later : Service) (bundle : Bundle) (envelope again : List ℕ)
    (now again_at : ℕ) (run : PublicRun)
    → is_run_id (run_id_of bundle) ≡ true
    → get s.disk (run_id_of bundle) ≡ none
    → create cfg s bundle envelope now ≡ (later, ok run)
    → IsResent cfg later bundle again again_at run
unfolding create
create-create cfg s later bundle envelope again now again_at run id fresh h =
    elim (Bool-cases (member bundle.model cfg.allowed_models)) [
      | inr p ↦ ground (arith, p, h)
      | inl p ↦ elim (Bool-cases (is_full cfg s)) [
        | inl q ↦ ground (arith, p, q, h)
        | inr q ↦
            let made : create_or_get cfg s bundle envelope now (get s.disk (run_id_of bundle))
                ≡ (later, ok run) =
              ground (arith, p, q, h) in
            let c : create_run cfg s bundle envelope now ≡ (later, ok run) = cc (made, fresh) in
            let same : (create_run cfg s bundle envelope now).0 ≡ later = ap (λ x. x.0) c in
            let value : public_run cfg (new_run bundle now) ≡ run = ground (arith, c) in
            let d : get later.disk (run_id_of bundle) ≡ some (new_dir bundle envelope now) =
              cc (same, created_disk cfg s bundle envelope now) in
            let r : get later.runs (run_id_of bundle) ≡ some (new_run bundle now) =
              cc (same, created_cache cfg s bundle envelope now) in
            elim (Bool-cases (is_full cfg later)) [
              | inl full ↦ inr (full, rw (p, full) refl)
              | inr room ↦
                  let e =
                    create_cached cfg later bundle again again_at (new_dir bundle envelope now)
                      (new_run bundle now) p room d id r in
                  inl (room, cc (e, value))
            ]
      ]
    ]
