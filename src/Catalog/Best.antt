-- ===== src/Catalog/Best.antt =====
-- What `best_per_owner_lab` of src/oj_checker/catalog.py chooses.
use mathlib.Core.Option.{some-injective}
use csoj_judger.Prelude.{
  ◌≡◌, refl, sym, ◌∙◌, ◌⊎◌, inl, inr, true, false, some, List, [], ◌∷◌, Memᴰ, Bool-cases,
  Option-cases, subst, ap,
}
use csoj_judger.Prelude.Int.{int_ord}
use csoj_judger.Prelude.Order.{
  Text, ◌<=◌, ◌===◌, ===_iff, le_refl, le_of_lt, trans_le, le_of_not_lt, nat_ord, pair_ord,
  list_ord,
}
use csoj_judger.Prelude.Dict.{
  get, put, values, get-put, get-nil, UniqueKeys, UniqueKeys-put, mem-values_of_get,
  get_of_mem-values,
}
use csoj_judger.Prelude.Sort.{mem_of_sort_by, mem-sort_by}
use csoj_judger.Domain.{Submission}
use csoj_judger.Catalog.{
  rank, owner_lab, Best, improves, best_step, best_loop, best_key, best_per_owner_lab,
}

abbrev pub IsAtMost : Submission → Submission → Type 0
IsAtMost x s = (rank x <= rank s) ≡ true

AtMost-trans : (a b c : Submission) → IsAtMost a b → IsAtMost b c → IsAtMost a c
AtMost-trans a b c = trans_le (rank a) (rank b) (rank c)

put_self :
    (best : Best) (item : Submission)
    → get (put best (owner_lab item) item) (owner_lab item) ≡ some item
put_self best item = rw get-put (rw ((===_iff (owner_lab item) (owner_lab item)).1 refl) refl)

-- The new entry at a key, by whether the key is the item's.
get-put_cases :
    (best : Best) (item : Submission) (k : Text × Text)
    → ((owner_lab item ≡ k) × (get (put best (owner_lab item) item) k ≡ some item))
      ⊎ (get (put best (owner_lab item) item) k ≡ get best k)
get-put_cases best item k = elim (Bool-cases (owner_lab item === k)) [
  | inl p ↦ inl ((===_iff (owner_lab item) k).0 p, rw get-put (rw p))
  | inr p ↦ inr (rw get-put (rw p))
]

-- What the entry of the item's own key is after its round.
best_step_cases :
    (best : Best) (item : Submission)
    → ((improves item (get best (owner_lab item)) ≡ true)
        × (best_step best item ≡ put best (owner_lab item) item))
      ⊎ ((improves item (get best (owner_lab item)) ≡ false) × (best_step best item ≡ best))
unfolding best_step
best_step_cases best item = elim (Bool-cases (improves item (get best (owner_lab item)))) [
  | inl p ↦ inl (p, rw p)
  | inr p ↦ inr (p, rw p)
]

abbrev Bounded : Best → Text × Text → Submission → Type 0
Bounded best k s = (t : Submission) × (get best k ≡ some t) × IsAtMost s t

-- A key that has an entry keeps one, of no smaller rank.
step_keeps :
    (best : Best) (item : Submission) (k : Text × Text) (s : Submission)
    → get best k ≡ some s
    → Bounded (best_step best item) k s
step_keeps best item k s h = elim (best_step_cases best item) [
  | inl (better, e) ↦ elim (get-put_cases best item k) [
    | inl (same, g) ↦ (item, rw e g, le_of_lt (rank s) (rank item) (rw (same, h) at better))
    | inr g ↦ (s, rw (e, g) h, le_refl (rank s))
  ]
  | inr (worse, e) ↦ (s, rw e h, le_refl (rank s))
]

step_covers :
    (best : Best) (item : Submission) → Bounded (best_step best item) (owner_lab item) item
step_covers best item = elim (best_step_cases best item) [
  | inl (better, e) ↦ (item, rw e (put_self best item), le_refl (rank item))
  | inr (worse, e) ↦ elim (Option-cases (get best (owner_lab item))) [
    | inl fresh ↦ absurd (cc (subst (λ o. improves item o ≡ false) fresh worse))
    | inr (t, old) ↦ (
      t,
      rw e old,
      le_of_not_lt (rank t) (rank item) (subst (λ o. improves item o ≡ false) old worse),
    )
  ]
]

loop_keeps :
    (best : Best) (items : List Submission) (k : Text × Text) (s : Submission)
    → get best k ≡ some s
    → Bounded (best_loop best items) k s
unfolding best_loop
loop_keeps best [] k s h = (s, h, le_refl (rank s))
loop_keeps best (item ∷ items) k s h =
    let (t, g, le) = step_keeps best item k s h in
    let (u, g', le') = loop_keeps (best_step best item) items k t g in
    (u, g', AtMost-trans s t u le le')

loop_covers :
    (best : Best) (items : List Submission) {x : Submission}
    → Memᴰ x items
    → Bounded (best_loop best items) (owner_lab x) x
unfolding best_loop
loop_covers best [] m = elim m [ ]
loop_covers best (item ∷ items) {x} (Memᴰ.head e) =
    let (t, g, le) = step_covers best item in
    let (u, g', le') = loop_keeps (best_step best item) items (owner_lab item) t g in
    rw e (u, g', AtMost-trans item t u le le')
loop_covers best (item ∷ items) (Memᴰ.tail m) = loop_covers (best_step best item) items m

-- The entry of a key is of that key, and comes from the submissions that were passed.
abbrev FromItems : Best → List Submission → Type 0
FromItems best items =
    (k : Text × Text) (s : Submission) → get best k ≡ some s → (owner_lab s ≡ k) × Memᴰ s items

step_origin :
    (best : Best) (item : Submission) (k : Text × Text) (s : Submission)
    → get (best_step best item) k ≡ some s
    → ((s ≡ item) × (owner_lab s ≡ k)) ⊎ (get best k ≡ some s)
step_origin best item k s h = elim (best_step_cases best item) [
  | inl (better, e) ↦ elim (get-put_cases best item k) [
    | inl (same, g) ↦ inl (from_item same (sym g ∙ rw e at h))
    | inr g ↦ inr (sym g ∙ rw e at h)
  ]
  | inr (worse, e) ↦ inr (rw e at h)
]
  where
    from_item : owner_lab item ≡ k → some item ≡ some s → (s ≡ item) × (owner_lab s ≡ k)
    from_item same e = (cc e, ap owner_lab (sym (some-injective _ _ e)) ∙ same)

loop_origin :
    (best : Best) (items : List Submission) (k : Text × Text) (s : Submission)
    → get (best_loop best items) k ≡ some s
    → ((owner_lab s ≡ k) × Memᴰ s items) ⊎ (get best k ≡ some s)
unfolding best_loop
loop_origin best [] k s h = inr h
loop_origin best (item ∷ items) k s h = elim (loop_origin (best_step best item) items k s h) [
  | inl (e, m) ↦ inl (e, Memᴰ.tail m)
  | inr old ↦ elim (step_origin best item k s old) [
    | inl (e, key) ↦ inl (key, Memᴰ.head e)
    | inr older ↦ inr older
  ]
]

loop-UniqueKeys :
    (best : Best) (items : List Submission) → UniqueKeys best → UniqueKeys (best_loop best items)
unfolding best_loop
loop-UniqueKeys best [] u = u
loop-UniqueKeys best (item ∷ items) u =
    loop-UniqueKeys (best_step best item) items (elim (best_step_cases best item) [
      | inl (better, e) ↦ rw e (UniqueKeys-put best (owner_lab item) item u)
      | inr (worse, e) ↦ rw e u
    ])

entry_of_mem :
    (items : List Submission) {s : Submission}
    → Memᴰ s (best_per_owner_lab items)
    → (get (best_loop [] items) (owner_lab s) ≡ some s) × Memᴰ s items
unfolding best_per_owner_lab
entry_of_mem items {s} m =
    let (k, g) =
      get_of_mem-values (best_loop [] items) (loop-UniqueKeys [] items tt)
        (mem_of_sort_by best_key (values (best_loop [] items)) m) in
    elim (loop_origin [] items k s g) [ inl (e, n) ↦ (rw e g, n) | inr h ↦ absurd (no_entry k h) ]
  where
    no_entry : (k : Text × Text) → get {V = Submission} [] k ≡ some s → ⊥
    no_entry k h = cc (get-nil {V = Submission} k, h)

-- Every submission that `best_per_owner_lab` keeps is one of the given ones, no two kept ones have
-- the same owner and lab, and each given submission has a kept one of its owner and lab whose
-- (score, submission time, id) is at least its own.
pub best_per_owner_lab_correct :
    (items : List Submission)
    → ((s : Submission) → Memᴰ s (best_per_owner_lab items) → Memᴰ s items)
      × ((s t : Submission)
          → Memᴰ s (best_per_owner_lab items)
          → Memᴰ t (best_per_owner_lab items)
          → owner_lab s ≡ owner_lab t
          → s ≡ t)
      × ((x : Submission)
          → Memᴰ x items
          → (s : Submission) × Memᴰ s (best_per_owner_lab items)
            × (owner_lab s ≡ owner_lab x)
            × IsAtMost x s)
unfolding best_per_owner_lab
best_per_owner_lab_correct items = (λ s m. (entry_of_mem items m).1, unique, covers)
  where
    unique :
        (s t : Submission)
        → Memᴰ s (best_per_owner_lab items)
        → Memᴰ t (best_per_owner_lab items)
        → owner_lab s ≡ owner_lab t
        → s ≡ t
    unique s t m n e =
        some-injective _ _ (sym (entry_of_mem items m).0 ∙ rw e ((entry_of_mem items n).0))

    kept_key :
        (x s : Submission)
        → get (best_loop [] items) (owner_lab x) ≡ some s
        → owner_lab s ≡ owner_lab x
    kept_key x s g = elim (loop_origin [] items (owner_lab x) s g) [
      | inl (e, n) ↦ e
      | inr h ↦ absurd (cc (get-nil {V = Submission} (owner_lab x), h))
    ]

    covers :
        (x : Submission)
        → Memᴰ x items
        → (s : Submission) × Memᴰ s (best_per_owner_lab items)
          × (owner_lab s ≡ owner_lab x)
          × IsAtMost x s
    covers x m =
        let (s, g, le) = loop_covers [] items m in
        (
          s,
          mem-sort_by best_key (values (best_loop [] items))
              (mem-values_of_get (best_loop [] items) (owner_lab x) g),
          kept_key x s g,
          le,
        )
