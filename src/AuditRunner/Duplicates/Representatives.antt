-- ===== src/AuditRunner/Duplicates/Representatives.antt =====
-- One submission for each owner of a group, and the pairs of them.
use csoj_judger.Prelude.{
  ◌≡◌, refl, ap, sym, ◌∙◌, subst, ◌≢◌, ◌⊎◌, inl, inr, Option, none, some, List, [], ◌∷◌, Memᴰ,
  Bool-cases, mem-append_left, mem-append_right,
}
use csoj_judger.Prelude.Order.{Text, ◌===◌, ===_iff, nat_ord, list_ord}
use csoj_judger.Prelude.Dict.{
  get, put, values, get-put, UniqueKeys, UniqueKeys-put, get_of_mem-values,
}
use csoj_judger.Prelude.Sort.{DistinctKeys}
use csoj_judger.Domain.{Submission}
use csoj_judger.AuditRunner.Duplicates.{
  Representatives, set_default, choose_all, pairs_with, combinations,
}
use csoj_judger.AuditRunner.Duplicates.Groups.{mem_of_append}

abbrev pub owner_of : Submission → Text
owner_of s = s.owner

-- Each owner has one, of the members.
pub data AreChosen (members : List Submission) (chosen : Representatives) : Type 0 where
  are_chosen :
      UniqueKeys chosen
      → ((k : Text) (s : Submission) → get chosen k ≡ some s → (s.owner ≡ k) × Memᴰ s members)
      → AreChosen members chosen

set-AreChosen :
    (members : List Submission) (chosen : Representatives) (s : Submission)
    → Memᴰ s members
    → AreChosen members chosen
    → AreChosen members (set_default chosen s)
unfolding set_default
set-AreChosen members chosen s m (are_chosen u f) = go (get chosen s.owner)
  where
    new :
        (k : Text) (x : Submission)
        → get (put chosen s.owner s) k ≡ some x
        → (x.owner ≡ k) × Memᴰ x members
    new k x h = elim (Bool-cases (s.owner === k)) [
      | inl y ↦ same ((===_iff s.owner k).0 y) (rw (get-put chosen s.owner k s, y) at h)
      | inr n ↦ f k x (rw (get-put chosen s.owner k s, n) at h)
    ]
      where
        same : s.owner ≡ k → some s ≡ some x → (x.owner ≡ k) × Memᴰ x members
        same e p =
            let q : s ≡ x = cc p in
            subst (λ (y : Submission). (y.owner ≡ k) × Memᴰ y members) q (e, m)

    go :
        (o : Option Submission)
        → AreChosen members (elim o [ none ↦ put chosen s.owner s | some first ↦ chosen ])
    go none = are_chosen (UniqueKeys-put chosen s.owner s u) new
    go (some first) = are_chosen u f

pub all-AreChosen :
    (members : List Submission) (chosen : Representatives) (rest : List Submission)
    → ((s : Submission) → Memᴰ s rest → Memᴰ s members)
    → AreChosen members chosen
    → AreChosen members (choose_all chosen rest)
unfolding choose_all
all-AreChosen members chosen [] g h = h
all-AreChosen members chosen (s ∷ rest) g h =
    all-AreChosen members (set_default chosen s) rest (λ x m. g x (Memᴰ.tail m))
      (set-AreChosen members chosen s (g s (Memᴰ.head refl)) h)

get-set :
    (chosen : Representatives) (s : Submission) (k : Text) (r : Submission)
    → get chosen k ≡ some r
    → get (set_default chosen s) k ≡ some r
unfolding set_default
get-set chosen s k r h = go (get chosen s.owner) refl
  where
    go :
        (o : Option Submission)
        → get chosen s.owner ≡ o
        → get (elim o [ none ↦ put chosen s.owner s | some first ↦ chosen ]) k ≡ some r
    go (some first) e = h
    go none e = elim (Bool-cases (s.owner === k)) [
      | inl y ↦ absurd (cc ((===_iff s.owner k).0 y, e, h))
      | inr n ↦ rw (get-put chosen s.owner k s, n) h
    ]

get-set_own :
    (chosen : Representatives) (s : Submission)
    → (r : Submission) × (get (set_default chosen s) s.owner ≡ some r)
unfolding set_default
get-set_own chosen s = go (get chosen s.owner) refl
  where
    go :
        (o : Option Submission)
        → get chosen s.owner ≡ o
        → (r : Submission) × (get
              (elim o [ none ↦ put chosen s.owner s | some first ↦ chosen ])
              s.owner
            ≡ some r)
    go none e = (s, rw (get-put chosen s.owner s.owner s, (===_iff s.owner s.owner).1 refl) refl)
    go (some first) e = (first, e)

get-choose :
    (chosen : Representatives) (rest : List Submission) (k : Text) (r : Submission)
    → get chosen k ≡ some r
    → get (choose_all chosen rest) k ≡ some r
unfolding choose_all
get-choose chosen [] k r h = h
get-choose chosen (s ∷ rest) k r h =
    get-choose (set_default chosen s) rest k r (get-set chosen s k r h)

-- Each member's owner has a representative.
pub all_represented :
    (chosen : Representatives) (rest : List Submission) (x : Submission)
    → Memᴰ x rest
    → (r : Submission) × (get (choose_all chosen rest) x.owner ≡ some r)
unfolding choose_all
all_represented chosen [] x m = elim m [ ]
all_represented chosen (s ∷ rest) x (Memᴰ.head e) =
    let (r, h) = get-set_own chosen s in
    let h' = get-choose (set_default chosen s) rest s.owner r h in (r, rw e h')
all_represented chosen (s ∷ rest) x (Memᴰ.tail m) = all_represented (set_default chosen s) rest x m

pub values-DistinctKeys :
    (chosen : Representatives)
    → UniqueKeys chosen
    → ((k : Text) (s : Submission) → get chosen k ≡ some s → s.owner ≡ k)
    → DistinctKeys owner_of (values chosen)
unfolding get
values-DistinctKeys [] u f = tt
values-DistinctKeys ((j, v) ∷ d) u f = (apart, values-DistinctKeys d u.1 (λ k s h. inner k s h))
  where
    inner : (k : Text) (s : Submission) → get d k ≡ some s → s.owner ≡ k
    inner k s h = elim (Bool-cases (j === k)) [
      | inl y ↦ absurd (cc ((===_iff j k).0 y, u.0, h))
      | inr n ↦ f k s (rw n h)
    ]

    apart : (y : Submission) → Memᴰ y (values d) → v.owner ≢ y.owner
    apart y m q =
        let (k, h) = get_of_mem-values d u.1 m in
        let e : v.owner ≡ j = f j v (rw ((===_iff j j).1 refl) refl) in
        let g : y.owner ≡ k = inner k y h in absurd (cc (e, g, q, u.0, h))

-- The pairs of a list.
pub pair_of_combinations :
    (xs : List Submission) {p : Submission × Submission}
    → DistinctKeys owner_of xs
    → Memᴰ p (combinations xs)
    → Memᴰ p.0 xs × Memᴰ p.1 xs × (p.0.owner ≢ p.1.owner)
unfolding combinations
pair_of_combinations [] h m = elim m [ ]
pair_of_combinations (x ∷ xs) {p} h m = elim (mem_of_append (pairs_with x xs) m) [
  | inl n ↦ first xs (λ y k. k) n
  | inr n ↦ later (pair_of_combinations xs h.1 n)
]
  where
    later :
        Memᴰ p.0 xs × Memᴰ p.1 xs × (p.0.owner ≢ p.1.owner)
        → Memᴰ p.0 (x ∷ xs) × Memᴰ p.1 (x ∷ xs) × (p.0.owner ≢ p.1.owner)
    later (a, b, c) = (Memᴰ.tail a, Memᴰ.tail b, c)

    first :
        (ys : List Submission)
        → ((y : Submission) → Memᴰ y ys → Memᴰ y xs)
        → Memᴰ p (pairs_with x ys)
        → Memᴰ p.0 (x ∷ xs) × Memᴰ p.1 (x ∷ xs) × (p.0.owner ≢ p.1.owner)
    first [] g m = elim m [ ]
    first (y ∷ ys) g (Memᴰ.tail m) = first ys (λ z k. g z (Memᴰ.tail k)) m
    first (y ∷ ys) g (Memᴰ.head e) =
        subst
          (λ (q : Submission × Submission).
            Memᴰ q.0 (x ∷ xs) × Memᴰ q.1 (x ∷ xs) × (q.0.owner ≢ q.1.owner))
          (sym e) (Memᴰ.head refl, Memᴰ.tail (g y (Memᴰ.head refl)), h.0 y (g y (Memᴰ.head refl)))

mem-pairs_with :
    (x y : Submission) (xs : List Submission) → Memᴰ y xs → Memᴰ (x, y) (pairs_with x xs)
mem-pairs_with x y [] m = elim m [ ]
mem-pairs_with x y (z ∷ zs) (Memᴰ.head e) = Memᴰ.head (ap (λ (w : Submission). (x, w)) e)
mem-pairs_with x y (z ∷ zs) (Memᴰ.tail m) = Memᴰ.tail (mem-pairs_with x y zs m)

pub combinations_complete :
    (xs : List Submission) (a b : Submission)
    → Memᴰ a xs
    → Memᴰ b xs
    → a.owner ≢ b.owner
    → Memᴰ (a, b) (combinations xs) ⊎ Memᴰ (b, a) (combinations xs)
unfolding combinations
combinations_complete [] a b m n d = elim m [ ]
combinations_complete (x ∷ xs) a b (Memᴰ.head e) (Memᴰ.head f) d =
    absurd (d (ap owner_of (e ∙ sym f)))
combinations_complete (x ∷ xs) a b (Memᴰ.head e) (Memᴰ.tail n) d =
    inl (mem-append_left (combinations xs) (rw e (mem-pairs_with x b xs n)))
combinations_complete (x ∷ xs) a b (Memᴰ.tail m) (Memᴰ.head f) d =
    inr (mem-append_left (combinations xs) (rw f (mem-pairs_with x a xs m)))
combinations_complete (x ∷ xs) a b (Memᴰ.tail m) (Memᴰ.tail n) d =
    elim (combinations_complete xs a b m n d) [
      | inl p ↦ inl (mem-append_right (pairs_with x xs) p)
      | inr p ↦ inr (mem-append_right (pairs_with x xs) p)
    ]
