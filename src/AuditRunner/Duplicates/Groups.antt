-- ===== src/AuditRunner/Duplicates/Groups.antt =====
-- The groups of submissions by lab and digest.
use csoj_judger.Prelude.{
  ◌≡◌, refl, ap, sym, subst, ◌⊎◌, inl, inr, Bool, true, false, Option, none, some, List, [], ◌∷◌,
  ◌++◌, Memᴰ, is_nil, Bool-cases, mem-append_left, mem-append_right, if◌then◌else◌,
}
use csoj_judger.Prelude.Order.{Text, ◌===◌, ===_iff, nat_ord, pair_ord, list_ord}
use csoj_judger.Prelude.Dict.{get, put, get-put}
use csoj_judger.Domain.{Submission}
use csoj_judger.AuditRunner.Duplicates.{Groups, group_key, group_of, add_to_group, group_all}

pub mem_of_append :
    {A : Type 0} {a : A} (xs : List A) {ys : List A} → Memᴰ a (xs ++ ys) → Memᴰ a xs ⊎ Memᴰ a ys
mem_of_append [] m = inr m
mem_of_append (x ∷ xs) (Memᴰ.head e) = inl (Memᴰ.head e)
mem_of_append (x ∷ xs) (Memᴰ.tail m) = elim (mem_of_append xs m) [
  | inl n ↦ inl (Memᴰ.tail n)
  | inr n ↦ inr n
]

pub mem_of_put :
    {e : (Text × Text) × List Submission} (d : Groups) (k : Text × Text) (v : List Submission)
    → Memᴰ e (put d k v)
    → (e ≡ (k, v)) ⊎ Memᴰ e d
unfolding put
mem_of_put [] k v (Memᴰ.head p) = inl p
mem_of_put [] k v (Memᴰ.tail m) = elim m [ ]
mem_of_put {e} ((j, w) ∷ d) k v m = elim (Bool-cases (j === k)) [
  | inl y ↦ first ((===_iff j k).0 y) (rw y at m)
  | inr n ↦ other (mem_of_put d k v) (rw n at m)
]
  where
    first : j ≡ k → Memᴰ e ((j, v) ∷ d) → (e ≡ (k, v)) ⊎ Memᴰ e ((j, w) ∷ d)
    first y (Memᴰ.head p) = inl (rw y at p)
    first y (Memᴰ.tail n) = inr (Memᴰ.tail n)

    other :
        (Memᴰ e (put d k v) → (e ≡ (k, v)) ⊎ Memᴰ e d)
        → Memᴰ e ((j, w) ∷ put d k v)
        → (e ≡ (k, v)) ⊎ Memᴰ e ((j, w) ∷ d)
    other f (Memᴰ.head p) = inr (Memᴰ.head p)
    other f (Memᴰ.tail n) = elim (f n) [ inl p ↦ inl p | inr q ↦ inr (Memᴰ.tail q) ]

pub mem_of_get :
    (d : Groups) (k : Text × Text) {v : List Submission} → get d k ≡ some v → Memᴰ (k, v) d
unfolding get
mem_of_get [] k h = absurd (cc h)
mem_of_get ((j, w) ∷ d) k {v} h = elim (Bool-cases (j === k)) [
  | inl y ↦ Memᴰ.head (same ((===_iff j k).0 y) (rw y at h))
  | inr n ↦ Memᴰ.tail (mem_of_get d k (rw n at h))
]
  where
    Entry : Type 0
    Entry = (Text × Text) × List Submission

    same : j ≡ k → some w ≡ some v → ◌≡◌ {A = Entry} (k, v) (j, w)
    same p q = cc (p, q)

-- Each group holds given submissions of its lab and its digest, which is not empty.
abbrev pub AreGroups : List Submission → Groups → Type 0
AreGroups subs groups =
    (k : Text × Text) (members : List Submission)
    → Memᴰ (k, members) groups
    → (s : Submission) → Memᴰ s members
    → Memᴰ s subs × (group_key s ≡ k) × (is_nil s.input_digest ≡ false)

add-AreGroups :
    (subs : List Submission) (groups : Groups) (s : Submission)
    → Memᴰ s subs
    → AreGroups subs groups
    → AreGroups subs (add_to_group groups s)
unfolding add_to_group
add-AreGroups subs groups s given h = go (is_nil s.input_digest) refl
  where
    old :
        (o : Option (List Submission))
        → get groups (group_key s) ≡ o
        → (x : Submission) → Memᴰ x (group_of o)
        → Memᴰ x subs × (group_key x ≡ group_key s) × (is_nil x.input_digest ≡ false)
    old none e x m = elim m [ ]
    old (some members) e x m = h (group_key s) members (mem_of_get groups (group_key s) e) x m

    new :
        is_nil s.input_digest ≡ false
        → (x : Submission) → Memᴰ x (group_of (get groups (group_key s)) ++ (s ∷ []))
        → Memᴰ x subs × (group_key x ≡ group_key s) × (is_nil x.input_digest ≡ false)
    new p x m = elim (mem_of_append (group_of (get groups (group_key s))) m) [
      | inl n ↦ old (get groups (group_key s)) refl x n
      | inr n ↦ last n
    ]
      where
        last :
            Memᴰ x (s ∷ [])
            → Memᴰ x subs × (group_key x ≡ group_key s) × (is_nil x.input_digest ≡ false)
        last (Memᴰ.head e) =
            subst
              (λ (y : Submission).
                Memᴰ y subs × (group_key y ≡ group_key s) × (is_nil y.input_digest ≡ false))
              (sym e) (given, refl, p)
        last (Memᴰ.tail n) = elim n [ ]

    go :
        (b : Bool)
        → is_nil s.input_digest ≡ b
        → AreGroups subs (
            if b
            then groups
            else put groups (group_key s) (group_of (get groups (group_key s)) ++ (s ∷ [])))
    go true p k members m x n = h k members m x n
    go false p k members m x n =
        elim (mem_of_put groups (group_key s) (group_of (get groups (group_key s)) ++ (s ∷ [])) m) [
          | inl e ↦ moved e
          | inr q ↦ h k members q x n
        ]
      where
        moved :
            ◌≡◌ {A = (Text × Text) × List Submission}
              (k, members)
              (group_key s, group_of (get groups (group_key s)) ++ (s ∷ []))
            → Memᴰ x subs × (group_key x ≡ k) × (is_nil x.input_digest ≡ false)
        moved e =
            let f : k ≡ group_key s = ap (λ y. y.0) e in
            let g : members ≡ group_of (get groups (group_key s)) ++ (s ∷ []) = ap (λ y. y.1) e in
            let (a, b, c) = new p x (subst (λ y. Memᴰ x y) g n) in (a, cc (b, f), c)

pub all-AreGroups :
    (subs : List Submission) (groups : Groups) (rest : List Submission)
    → ((s : Submission) → Memᴰ s rest → Memᴰ s subs)
    → AreGroups subs groups
    → AreGroups subs (group_all groups rest)
unfolding group_all
all-AreGroups subs groups [] f h = h
all-AreGroups subs groups (s ∷ rest) f h =
    all-AreGroups subs (add_to_group groups s) rest (λ x m. f x (Memᴰ.tail m))
      (add-AreGroups subs groups s (f s (Memᴰ.head refl)) h)

-- A submission with a digest is in its group.
abbrev pub IsGrouped : Groups → Submission → Type 0
IsGrouped groups s =
    (members : List Submission) × (get groups (group_key s) ≡ some members) × Memᴰ s members

get-add :
    (groups : Groups) (s : Submission) (k : Text × Text) (members : List Submission)
    (x : Submission)
    → get groups k ≡ some members
    → Memᴰ x members
    → (more : List Submission) × (get (add_to_group groups s) k ≡ some more) × Memᴰ x more
unfolding add_to_group
get-add groups s k members x g m = elim (Bool-cases (is_nil s.input_digest)) [
  | inl y ↦ (members, rw y g, m)
  | inr n ↦ elim (Bool-cases (group_key s === k)) [
    | inl e ↦ (
      group_of (get groups (group_key s)) ++ (s ∷ []),
      rw (n, get-put groups (group_key s) k (group_of (get groups (group_key s)) ++ (s ∷ [])), e)
          refl,
      mem-append_left (s ∷ []) (rw ((===_iff (group_key s) k).0 e, g) m),
    )
    | inr e ↦ (
      members,
      rw (n, get-put groups (group_key s) k (group_of (get groups (group_key s)) ++ (s ∷ [])), e) g,
      m,
    )
  ]
]

get-all :
    (groups : Groups) (rest : List Submission) (k : Text × Text) (members : List Submission)
    (x : Submission)
    → get groups k ≡ some members
    → Memᴰ x members
    → (more : List Submission) × (get (group_all groups rest) k ≡ some more) × Memᴰ x more
unfolding group_all
get-all groups [] k members x g m = (members, g, m)
get-all groups (s ∷ rest) k members x g m =
    let (more, h, n) = get-add groups s k members x g m in
    get-all (add_to_group groups s) rest k more x h n

-- The added submission is in its group.
added-IsGrouped :
    (groups : Groups) (s : Submission)
    → is_nil s.input_digest ≡ false
    → IsGrouped (add_to_group groups s) s
unfolding add_to_group
added-IsGrouped groups s h =
    let same : (group_key s === group_key s) ≡ true =
      (===_iff (group_key s) (group_key s)).1 refl in
    (
      group_of (get groups (group_key s)) ++ (s ∷ []),
      rw
          (
            h,
            get-put groups (group_key s) (group_key s)
                (group_of (get groups (group_key s)) ++ (s ∷ [])),
            same,
          )
          refl,
      mem-append_right (group_of (get groups (group_key s))) (Memᴰ.head refl),
    )

pub all-AreGrouped :
    (groups : Groups) (rest : List Submission) (x : Submission)
    → Memᴰ x rest
    → is_nil x.input_digest ≡ false
    → IsGrouped (group_all groups rest) x
unfolding group_all
all-AreGrouped groups [] x m h = elim m [ ]
all-AreGrouped groups (s ∷ rest) x (Memᴰ.head e) h =
    let h' : is_nil s.input_digest ≡ false = cc (h, e) in
    let (members, g, m) = added-IsGrouped groups s h' in
    let r = get-all (add_to_group groups s) rest (group_key s) members s g m in
    subst (λ (y : Submission). IsGrouped (group_all (add_to_group groups s) rest) y) (sym e) r
all-AreGrouped groups (s ∷ rest) x (Memᴰ.tail m) h =
    all-AreGrouped (add_to_group groups s) rest x m h
