-- ===== src/AuditRunner/Duplicates/Pairs/Complete.antt =====
-- No exact duplicate is missed.
use csoj_judger.Prelude.{
  ◌≡◌, refl, ap, sym, ◌∙◌, subst, ◌≢◌, ◌⊎◌, inl, inr, false, some, List, [], ◌∷◌, Memᴰ, is_nil,
  length, ltb, arith, mem-append_left, mem-append_right,
}
use csoj_judger.Prelude.Order.{Text, nat_ord, pair_ord, list_ord}
use csoj_judger.Prelude.Dict.{get, values, mem-values_of_get}
use csoj_judger.Prelude.Sort.{sort_by, mem-sort_by}
use csoj_judger.Json.{Json}
use csoj_judger.Domain.{Submission, AuditTask, exact_duplicate}
use csoj_judger.AuditRunner.Duplicates.{
  Groups, group_key, group_all, Representatives, combinations, time_key, in_order, pair_task,
  group_tasks, all_group_tasks, exact_duplicate_tasks,
}
use csoj_judger.AuditRunner.Duplicates.Groups.{mem_of_get, all-AreGroups, all-AreGrouped}
use csoj_judger.AuditRunner.Duplicates.Representatives.{
  owner_of, AreChosen, are_chosen, all_represented, combinations_complete,
}
use csoj_judger.AuditRunner.Duplicates.Pairs.{
  IsPair, in_order-IsPair, mem-tasks_of, chosen_of, chosen_of-AreChosen,
}

-- The task is about two of the given submissions, one of each of the two owners, which both have the
-- lab and the digest.
pub data IsAbout (subs : List Submission) (k : Text × Text) (first second : Text) (t : AuditTask)
    : Type 0 where
  is_about :
      (a b : Submission)
      → Memᴰ a subs
      → Memᴰ b subs
      → group_key a ≡ k
      → group_key b ≡ k
      → t.kind ≡ exact_duplicate
      → t.submission_ids ≡ a.id ∷ b.id ∷ []
      → t.lab_id ≡ k.0
      → t.input_digest ≡ k.1
      → ((a.owner ≡ first) × (b.owner ≡ second)) ⊎ ((a.owner ≡ second) × (b.owner ≡ first))
      → IsAbout subs k first second t

-- A submission is given, and it is one of the group.
abbrev IsGiven : List Submission → Text × Text → Submission → Type 0
IsGiven subs k a = Memᴰ a subs × (group_key a ≡ k)

long :
    (d : Representatives) (a b : Submission)
    → Memᴰ a (values d)
    → Memᴰ b (values d)
    → a.owner ≢ b.owner
    → ltb (length d) 2 ≡ false
long [] a b m n d = elim m [ ]
long ((j, v) ∷ []) a b (Memᴰ.head e) (Memᴰ.head f) d = absurd (d (ap owner_of (e ∙ sym f)))
long ((j, v) ∷ []) a b (Memᴰ.tail m) n d = elim m [ ]
long ((j, v) ∷ []) a b (Memᴰ.head e) (Memᴰ.tail n) d = elim n [ ]
long ((j, v) ∷ (i, w) ∷ rest) a b m n d = ground arith

module _ (task_key : Json → Text) where
  mem-all_group_tasks :
      (groups : Groups) (k : Text × Text) (members : List Submission) (t : AuditTask)
      → Memᴰ (k, members) groups
      → Memᴰ t (group_tasks task_key k.0 k.1 (chosen_of task_key members))
      → Memᴰ t (all_group_tasks task_key groups)
  unfolding all_group_tasks
  mem-all_group_tasks [] k members t m n = elim m [ ]
  mem-all_group_tasks ((j, ms) ∷ rest) k members t (Memᴰ.head e) n =
      mem-append_left (all_group_tasks task_key rest) (
        subst
          (λ (x : (Text × Text) × List Submission).
            Memᴰ t (group_tasks task_key x.0.0 x.0.1 (chosen_of task_key x.1)))
          e n)
  mem-all_group_tasks ((j, ms) ∷ rest) k members t (Memᴰ.tail m) n =
      mem-append_right (group_tasks task_key j.0 j.1 (chosen_of task_key ms))
        (mem-all_group_tasks rest k members t m n)

  -- Two representatives of a group with different owners have a task.
  group_complete :
      (subs : List Submission) (k : Text × Text) (members : List Submission) (a b : Submission)
      → IsGiven subs k a
      → IsGiven subs k b
      → Memᴰ a (values (chosen_of task_key members))
      → Memᴰ b (values (chosen_of task_key members))
      → a.owner ≢ b.owner
      → (t : AuditTask) × Memᴰ t (group_tasks task_key k.0 k.1 (chosen_of task_key members))
        × IsAbout subs k a.owner b.owner t
  group_complete subs k members a b given given' m n d =
      let chosen = chosen_of task_key members in
      let sorted = sort_by owner_of (values chosen) in
      let found =
        combinations_complete sorted a b (mem-sort_by owner_of (values chosen) m)
          (mem-sort_by owner_of (values chosen) n) d in
      elim found [
        | inl p ↦ task_for (a, b) p (inl (refl, refl))
        | inr p ↦ task_for (b, a) p (inr (refl, refl))
      ]
    where
      straight :
          (q : Submission × Submission)
          → q.0 ≡ a
          → q.1 ≡ b
          → IsAbout subs k a.owner b.owner (pair_task task_key k.0 k.1 q)
      straight q e f =
          is_about q.0 q.1 (rw e given.0) (rw f given'.0) (rw e given.1) (rw f given'.1) refl refl
            refl refl (inl (ap owner_of e, ap owner_of f))

      swapped :
          (q : Submission × Submission)
          → q.0 ≡ b
          → q.1 ≡ a
          → IsAbout subs k a.owner b.owner (pair_task task_key k.0 k.1 q)
      swapped q e f =
          is_about q.0 q.1 (rw e given'.0) (rw f given.0) (rw e given'.1) (rw f given.1) refl refl
            refl refl (inr (ap owner_of e, ap owner_of f))

      about :
          (p : Submission × Submission)
          → IsPair a b p
          → IsPair p.0 p.1 (in_order p)
          → IsAbout subs k a.owner b.owner (pair_task task_key k.0 k.1 (in_order p))
      about p (inl (e, f)) (inl (g, h)) = straight (in_order p) (g ∙ e) (h ∙ f)
      about p (inl (e, f)) (inr (g, h)) = swapped (in_order p) (g ∙ f) (h ∙ e)
      about p (inr (e, f)) (inl (g, h)) = swapped (in_order p) (g ∙ e) (h ∙ f)
      about p (inr (e, f)) (inr (g, h)) = straight (in_order p) (g ∙ f) (h ∙ e)

      task_for :
          (p : Submission × Submission)
          → Memᴰ p (combinations (sort_by owner_of (values (chosen_of task_key members))))
          → IsPair a b p
          → (t : AuditTask) × Memᴰ t (group_tasks task_key k.0 k.1 (chosen_of task_key members))
            × IsAbout subs k a.owner b.owner t
      task_for p i q =
          let short = long (chosen_of task_key members) a b m n d in
          let there =
            mem-tasks_of task_key k.0 k.1
              (combinations (sort_by owner_of (values (chosen_of task_key members)))) p i in
          (pair_task task_key k.0 k.1 (in_order p), rw short there, about p q (in_order-IsPair p).0)

  -- Of every two given submissions with one lab, one digest that is not empty, and different owners,
  -- some task of exact duplicates names two of the given submissions, one of each of these owners, that
  -- have this lab and digest.
  pub exact_duplicate_tasks_complete :
      (subs : List Submission) (x y : Submission)
      → Memᴰ x subs
      → Memᴰ y subs
      → group_key x ≡ group_key y
      → is_nil x.input_digest ≡ false
      → x.owner ≢ y.owner
      → (t : AuditTask) × Memᴰ t (exact_duplicate_tasks task_key subs)
        × IsAbout subs (group_key x) x.owner y.owner t
  unfolding exact_duplicate_tasks
  exact_duplicate_tasks_complete subs x y m n same filled d =
      let (members, g, i) = all-AreGrouped [] subs x m filled in
      let filled' : is_nil y.input_digest ≡ false =
        subst (λ (k : Text × Text). is_nil k.1 ≡ false) same filled in
      let (others, h, j) = all-AreGrouped [] subs y n filled' in
      let equal : some others ≡ some members =
        sym h ∙ subst (λ k. get (group_all [] subs) k ≡ some members) same g in
      let (a, p) =
        all_represented [] (sort_by time_key members) x (mem-sort_by time_key members i) in
      let (b, q) =
        all_represented [] (sort_by time_key members) y
          (mem-sort_by time_key members (subst (λ ms. Memᴰ y ms) (unwrap equal) j)) in
      finish members g a b p q (chosen_of-AreChosen task_key members)
    where
      unwrap : {a b : List Submission} → some a ≡ some b → a ≡ b
      unwrap h = cc h

      finish :
          (members : List Submission)
          → get (group_all [] subs) (group_key x) ≡ some members
          → (a b : Submission) → get (chosen_of task_key members) x.owner ≡ some a
          → get (chosen_of task_key members) y.owner ≡ some b
          → AreChosen members (chosen_of task_key members)
          → (t : AuditTask) × Memᴰ t (all_group_tasks task_key (group_all [] subs))
            × IsAbout subs (group_key x) x.owner y.owner t
      finish members g a b p q (are_chosen u f) =
          let e : a.owner ≡ x.owner = (f x.owner a p).0 in
          let e' : b.owner ≡ y.owner = (f y.owner b q).0 in
          let known =
            all-AreGroups subs [] subs (λ s i. i) (λ j ms i s l. elim i [ ]) (group_key x) members
              (mem_of_get (group_all [] subs) (group_key x) g) in
          let (a1, a2, _) = known a (f x.owner a p).1 in
          let (b1, b2, _) = known b (f y.owner b q).1 in
          let (t, r, s) =
            group_complete subs (group_key x) members a b (a1, a2) (b1, b2)
              (mem-values_of_get (chosen_of task_key members) x.owner p)
              (mem-values_of_get (chosen_of task_key members) y.owner q)
              (λ w. d (sym e ∙ w ∙ e')) in
          (
            t,
            mem-all_group_tasks (group_all [] subs) (group_key x) members t
                (mem_of_get (group_all [] subs) (group_key x) g) r,
            subst (λ w. IsAbout subs (group_key x) x.owner w t) e'
                (subst (λ w. IsAbout subs (group_key x) w b.owner t) e s),
          )
