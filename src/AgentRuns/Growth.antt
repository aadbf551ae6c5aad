-- ===== src/AgentRuns/Growth.antt =====
-- How the operations of src/oj_checker/agent_runs.py change the runs on disk: events are only added,
-- a stored result stays, and no run disappears.
pub mod Events
pub mod Operations
use csoj_judger.Prelude.{
  ℕ, suc, ◌≡◌, refl, sym, ap, Bool, true, false, not, ◌&&◌, ◌||◌, Option, none, some, List, [], ◌∷◌,
  ◌++◌, length, ◌==◌, arith, Bool-cases, inl, inr, subst, if◌then◌else◌,
}
use csoj_judger.Prelude.Order.{Text, ◌===◌, nat_ord, list_ord, ===_iff}
use csoj_judger.Prelude.Dict.{get, put, get-put}
use csoj_judger.Prelude.Result.{Result, ok, err}
use csoj_judger.Json.{Fields}
use csoj_judger.AgentRuns.Data.{
  RunState, completed, Event, Metadata, RunDir, Run, Service, ResultFile, absent, object, invalid,
  is_run_id,
}
use csoj_judger.AgentRuns.Service.{
  Outcome, append_event, append_in, new_event, add_event, refresh, refreshed, store_run, bind,
  remember,
}

abbrev pub is_completed : RunState → Bool
is_completed completed = true
is_completed _ = false

abbrev pub is_object : ResultFile → Bool
is_object (object r) = true
is_object _ = false

abbrev pub has_completed : List Event → Bool
has_completed [] = false
has_completed (e ∷ es) = is_completed e.state || has_completed es

-- The events carry the numbers 1, 2, ... in the order in which they were written.
abbrev pub is_numbered : List Event → Bool
is_numbered [] = true
is_numbered (e ∷ es) = e.sequence == suc (length es) && is_numbered es

-- A run that was ever completed has a readable result.
abbrev pub is_sound : RunDir → Bool
is_sound dir = is_numbered dir.events && (not (has_completed dir.events) || is_object dir.result)

pub data Extends (dir later : RunDir) : Type 0 where
  extends :
      (new : List Event)
      → later.events ≡ new ++ dir.events
      → (is_object dir.result ≡ true → later.result ≡ dir.result)
      → later.metadata ≡ dir.metadata
      → later.request ≡ dir.request
      → Extends dir later

unfoldable pub Sound : Service → Type 0
Sound s = (id : Text) (dir : RunDir) → get s.disk id ≡ some dir → is_sound dir ≡ true

unfoldable pub Grows : Service → Service → Type 0
Grows s t =
    (id : Text) (dir : RunDir)
    → get s.disk id ≡ some dir
    → (later : RunDir) × (get t.disk id ≡ some later) × Extends dir later

unfoldable pub Keeps : Service → Service → Type 0
Keeps s t = (Sound s → Sound t) × Grows s t

append_assoc : (a b c : List Event) → a ++ (b ++ c) ≡ (a ++ b) ++ c
append_assoc [] b c = refl
append_assoc (x ∷ a) b c = ap (λ r. x ∷ r) (append_assoc a b c)

Extends-refl : (dir : RunDir) → Extends dir dir
Extends-refl dir = extends [] refl (λ h. refl) refl refl

Extends-trans : (a b c : RunDir) → Extends a b → Extends b c → Extends a c
Extends-trans a b c (extends x e r m q) (extends y f s n p) =
    extends (y ++ x) (cc (e, f, append_assoc y x a.events))
      (λ h. let w : is_object b.result ≡ true = cc (r h, h) in cc (s w, r h)) (cc (n, m))
      (cc (p, q))

pub Keeps-same : (s t : Service) → t.disk ≡ s.disk → Keeps s t
unfolding Keeps Sound Grows
Keeps-same s t e =
    (λ sound id dir h. sound id dir (cc (e, h)), λ id dir h. (dir, cc (e, h), Extends-refl dir))

pub Keeps-trans : (s t u : Service) → Keeps s t → Keeps t u → Keeps s u
unfolding Keeps Sound Grows
Keeps-trans s t u (a, g) (b, k) = (λ x. b (a x), grows)
  where
    grows :
        (id : Text) (dir : RunDir)
        → get s.disk id ≡ some dir
        → (later : RunDir) × (get u.disk id ≡ some later) × Extends dir later
    grows id dir h =
        let (mid, e, x) = g id dir h in
        let (last, f, y) = k id mid e in (last, f, Extends-trans dir mid last x y)

-- One run changes.
pub Keeps-put :
    (s t : Service) (id : Text) (dir later : RunDir)
    → get s.disk id ≡ some dir
    → t.disk ≡ put s.disk id later
    → Extends dir later
    → (is_sound dir ≡ true → is_sound later ≡ true)
    → Keeps s t
unfolding Keeps Sound Grows
Keeps-put s t id dir later h e x keep = (sounds, grows)
  where
    at : (j : Text) → get t.disk j ≡ (if id === j then some later else get s.disk j)
    at j = cc (e, get-put s.disk id j later)

    sounds :
        ((j : Text) (d : RunDir) → get s.disk j ≡ some d → is_sound d ≡ true)
        → (j : Text) (d : RunDir) → get t.disk j ≡ some d
        → is_sound d ≡ true
    sounds sound j d q = elim (Bool-cases (id === j)) [
      | inl p ↦ let w : later ≡ d = ground (arith, at j, p, q) in cc (w, keep (sound id dir h))
      | inr p ↦ sound j d (ground (arith, at j, p, q))
    ]

    grows :
        (j : Text) (d : RunDir)
        → get s.disk j ≡ some d
        → (after : RunDir) × (get t.disk j ≡ some after) × Extends d after
    grows j d q = elim (Bool-cases (id === j)) [
      | inl p ↦
          let same : id ≡ j = (===_iff id j).0 p in
          let w : dir ≡ d = ground (arith, same, h, q) in
          (later, ground (arith, at j, p), subst (λ z. Extends z later) w x)
      | inr p ↦ (d, ground (arith, at j, p, q), Extends-refl d)
    ]

-- A run appears.
pub Keeps-new :
    (s t : Service) (id : Text) (dir : RunDir)
    → get s.disk id ≡ none
    → t.disk ≡ put s.disk id dir
    → is_sound dir ≡ true
    → Keeps s t
unfolding Keeps Sound Grows
Keeps-new s t id dir h e fine = (sounds, grows)
  where
    at : (j : Text) → get t.disk j ≡ (if id === j then some dir else get s.disk j)
    at j = cc (e, get-put s.disk id j dir)

    sounds :
        ((j : Text) (d : RunDir) → get s.disk j ≡ some d → is_sound d ≡ true)
        → (j : Text) (d : RunDir) → get t.disk j ≡ some d
        → is_sound d ≡ true
    sounds sound j d q = elim (Bool-cases (id === j)) [
      | inl p ↦ let w : dir ≡ d = ground (arith, at j, p, q) in cc (w, fine)
      | inr p ↦ sound j d (ground (arith, at j, p, q))
    ]

    grows :
        (j : Text) (d : RunDir)
        → get s.disk j ≡ some d
        → (after : RunDir) × (get t.disk j ≡ some after) × Extends d after
    grows j d q = elim (Bool-cases (id === j)) [
      | inl p ↦
          let same : id ≡ j = (===_iff id j).0 p in
          let w : none ≡ some d = cc (same, h, q) in ground (arith, w)
      | inr p ↦ (d, ground (arith, at j, p, q), Extends-refl d)
    ]
