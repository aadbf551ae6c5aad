-- ===== src/AuditRunner/Duplicates/Pairs.antt =====
-- The tasks of exact duplicates: what each is about, and that none is missing.
pub mod Complete
use csoj_judger.Prelude.{
  ℕ, suc, ◌≡◌, refl, ap, sym, ◌∙◌, subst, ◌≢◌, ◌⊎◌, inl, inr, Bool, true, false, Option, none, some,
  List, [], ◌∷◌, ◌++◌, Memᴰ, is_nil, length, ltb, arith, Bool-cases, mem-append_left,
  mem-append_right, if◌then◌else◌,
}
use csoj_judger.Prelude.Order.{Text, ◌<=◌, le_of_not_le, nat_ord, pair_ord, list_ord}
use csoj_judger.Prelude.Dict.{
  get, get-nil, values, UniqueKeys, mem-values_of_get, get_of_mem-values,
}
use csoj_judger.Prelude.Sort.{
  sort_by, mem_of_sort_by, mem-sort_by, DistinctKeys, sort_by-DistinctKeys,
}
use csoj_judger.Json.{Json}
use csoj_judger.Domain.{Submission, AuditTask, AuditTaskKind, exact_duplicate}
use csoj_judger.AuditRunner.Duplicates.{
  Groups, group_key, group_all, Representatives, choose_all, combinations, time_key, in_order,
  pair_task, tasks_of, group_tasks, all_group_tasks, exact_duplicate_tasks,
}
use csoj_judger.AuditRunner.Duplicates.Groups.{
  mem_of_append, mem_of_get, AreGroups, all-AreGroups, IsGrouped, all-AreGrouped,
}
use csoj_judger.AuditRunner.Duplicates.Representatives.{
  owner_of, AreChosen, are_chosen, all-AreChosen, all_represented, values-DistinctKeys,
  pair_of_combinations, combinations_complete,
}

-- The task is about two of the submissions, the older one first: they have its lab and its digest,
-- which is not empty, and different owners.
pub data IsDuplicate (subs : List Submission) (t : AuditTask) : Type 0 where
  is_duplicate :
      (a b : Submission)
      → Memᴰ a subs
      → Memᴰ b subs
      → t.kind ≡ exact_duplicate
      → t.submission_ids ≡ a.id ∷ b.id ∷ []
      → (group_key a ≡ (t.lab_id, t.input_digest))
      → (group_key b ≡ (t.lab_id, t.input_digest))
      → is_nil t.input_digest ≡ false
      → a.owner ≢ b.owner
      → (time_key a <= time_key b) ≡ true
      → IsDuplicate subs t

-- The two of a pair, in one order or the other.
abbrev pub IsPair : Submission → Submission → Submission × Submission → Type 0
IsPair a b p = ((p.0 ≡ a) × (p.1 ≡ b)) ⊎ ((p.0 ≡ b) × (p.1 ≡ a))

pub in_order-IsPair :
    (p : Submission × Submission)
    → IsPair p.0 p.1 (in_order p) × ((time_key (in_order p).0 <= time_key (in_order p).1) ≡ true)
in_order-IsPair (a, b) = elim (Bool-cases (time_key a <= time_key b)) [
  | inl y ↦ rw y (inl (refl, refl), y)
  | inr n ↦ rw n (inr (refl, refl), le_of_not_le (time_key a) (time_key b) n)
]

module _ (task_key : Json → Text) where
  mem_of_tasks_of :
      (lab_id digest : Text) (ps : List (Submission × Submission)) {t : AuditTask}
      → Memᴰ t (tasks_of task_key lab_id digest ps)
      → (p : Submission × Submission) × Memᴰ p ps
        × (t ≡ pair_task task_key lab_id digest (in_order p))
  mem_of_tasks_of lab_id digest [] m = elim m [ ]
  mem_of_tasks_of lab_id digest (p ∷ ps) (Memᴰ.head e) = (p, Memᴰ.head refl, e)
  mem_of_tasks_of lab_id digest (p ∷ ps) (Memᴰ.tail m) =
      let (q, n, e) = mem_of_tasks_of lab_id digest ps m in (q, Memᴰ.tail n, e)

  pub mem-tasks_of :
      (lab_id digest : Text) (ps : List (Submission × Submission)) (p : Submission × Submission)
      → Memᴰ p ps
      → Memᴰ (pair_task task_key lab_id digest (in_order p)) (tasks_of task_key lab_id digest ps)
  mem-tasks_of lab_id digest [] p m = elim m [ ]
  mem-tasks_of lab_id digest (q ∷ ps) p (Memᴰ.head e) =
      Memᴰ.head
        (ap (λ (x : Submission × Submission). pair_task task_key lab_id digest (in_order x)) e)
  mem-tasks_of lab_id digest (q ∷ ps) p (Memᴰ.tail m) =
      Memᴰ.tail (mem-tasks_of lab_id digest ps p m)

  abbrev pub chosen_of : List Submission → Representatives
  chosen_of members = choose_all [] (sort_by time_key members)

  pub chosen_of-AreChosen : (members : List Submission) → AreChosen members (chosen_of members)
  chosen_of-AreChosen members =
      all-AreChosen members [] (sort_by time_key members) (λ s m. mem_of_sort_by time_key members m)
        (are_chosen tt (λ k s h. absurd (cc (h, get-nil {V = Submission} k))))

  mem_of_all_group_tasks :
      (groups : Groups) {t : AuditTask}
      → Memᴰ t (all_group_tasks task_key groups)
      → (k : Text × Text) × (members : List Submission) × Memᴰ (k, members) groups
        × Memᴰ t (group_tasks task_key k.0 k.1 (chosen_of members))
  unfolding all_group_tasks
  mem_of_all_group_tasks [] m = elim m [ ]
  mem_of_all_group_tasks ((k, members) ∷ rest) m =
      elim (mem_of_append (group_tasks task_key k.0 k.1 (chosen_of members)) m) [
        | inl n ↦ (k, members, Memᴰ.head refl, n)
        | inr n ↦ later (mem_of_all_group_tasks rest n)
      ]
    where
      later :
          {t : AuditTask}
          → (j : Text × Text) × (ms : List Submission) × Memᴰ (j, ms) rest
            × Memᴰ t (group_tasks task_key j.0 j.1 (chosen_of ms))
          → (j : Text × Text) × (ms : List Submission) × Memᴰ (j, ms) ((k, members) ∷ rest)
            × Memᴰ t (group_tasks task_key j.0 j.1 (chosen_of ms))
      later (j, ms, a, b) = (j, ms, Memᴰ.tail a, b)

  -- What is known of a representative of a group.
  abbrev Represents : List Submission → Text × Text → Submission → Type 0
  Represents subs k s = Memᴰ s subs × (group_key s ≡ k) × (is_nil s.input_digest ≡ false)

  pair-IsDuplicate :
      (subs : List Submission) (k : Text × Text) (p : Submission × Submission)
      → Represents subs k p.0
      → Represents subs k p.1
      → p.0.owner ≢ p.1.owner
      → IsDuplicate subs (pair_task task_key k.0 k.1 (in_order p))
  pair-IsDuplicate subs k p (a1, a2, a3) (b1, b2, b3) d =
      let (o, le) = in_order-IsPair p in
      let digest : p.0.input_digest ≡ k.1 = ap (λ x. x.1) a2 in
      let filled : is_nil k.1 ≡ false = subst (λ x. is_nil x ≡ false) digest a3 in
      elim o [
        | inl (e, f) ↦
            is_duplicate (in_order p).0 (in_order p).1 (rw e a1) (rw f b1) refl refl (rw e a2)
              (rw f b2) filled (λ q. d (ap owner_of (sym e) ∙ q ∙ ap owner_of f)) le
        | inr (e, f) ↦
            is_duplicate (in_order p).0 (in_order p).1 (rw e b1) (rw f a1) refl refl (rw e b2)
              (rw f a2) filled (λ q. d (ap owner_of (sym f) ∙ sym q ∙ ap owner_of e)) le
      ]

  -- Each task of exact duplicates is about two of the given submissions, named with the older one
  -- first, that have one lab, one digest that is not empty, and different owners.
  pub exact_duplicate_tasks-AreDuplicates :
      (subs : List Submission) (t : AuditTask)
      → Memᴰ t (exact_duplicate_tasks task_key subs)
      → IsDuplicate subs t
  unfolding exact_duplicate_tasks
  exact_duplicate_tasks-AreDuplicates subs t m =
      let (k, members, e, n) = mem_of_all_group_tasks (group_all [] subs) m in
      let known = all-AreGroups subs [] subs (λ s i. i) (λ j ms i s l. elim i [ ]) k members e in
      elim (chosen_of-AreChosen members) [
        | are_chosen u f ↦
            go members k known u f (Bool-cases (ltb (length (chosen_of members)) 2)) n
      ]
    where
      go :
          (members : List Submission) (k : Text × Text)
          → ((s : Submission) → Memᴰ s members → Represents subs k s)
          → UniqueKeys (chosen_of members)
          → ((j : Text) (s : Submission)
              → get (chosen_of members) j ≡ some s
              → (s.owner ≡ j) × Memᴰ s members)
          → (ltb (length (chosen_of members)) 2 ≡ true)
            ⊎ (ltb (length (chosen_of members)) 2 ≡ false)
          → Memᴰ t (group_tasks task_key k.0 k.1 (chosen_of members))
          → IsDuplicate subs t
      go members k known u f (inl y) n = elim (rw y at n) [ ]
      go members k known u f (inr y) n =
          let sorted = sort_by owner_of (values (chosen_of members)) in
          let (p, i, e) = mem_of_tasks_of k.0 k.1 (combinations sorted) (rw y at n) in
          let distinct =
            sort_by-DistinctKeys owner_of (values (chosen_of members))
              (values-DistinctKeys (chosen_of members) u (λ j s h. (f j s h).0)) in
          let (a, b, d) = pair_of_combinations sorted distinct i in
          let r : (s : Submission) → Memᴰ s sorted → Represents subs k s = λ s l.
            let (j, g) =
              get_of_mem-values (chosen_of members) u
                (mem_of_sort_by owner_of (values (chosen_of members)) l) in
            known s (f j s g).1 in
          subst (IsDuplicate subs) (sym e) (pair-IsDuplicate subs k p (r p.0 a) (r p.1 b) d)
