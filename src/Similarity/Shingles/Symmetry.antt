-- ===== src/Similarity/Shingles/Symmetry.antt =====
-- The Jaccard score of two sets of shingles does not depend on their order.
use csoj_judger.Prelude.{
  ℕ, suc, ◌+◌, ◌≡◌, refl, sym, ◌∙◌, Bool, false, not, ◌&&◌, ◌||◌, List, [], ◌∷◌, length, is_nil,
  keep, arith, Bool-cases, inl, inr, if◌then◌else◌, length-append, ltb, ◌-◌,
}
use csoj_judger.Prelude.Order.{Text, ◌===◌, ===_iff, nat_ord, list_ord}
use csoj_judger.Similarity.Data.{BaselineDelta, SimilarityPolicy}
use csoj_judger.Similarity.Shingles.{
  Shingle, has, to_set, meet, join_sets, jaccard, delta_shingles, delta_tokens, shingles_of,
  windows,
}

-- A list without repetitions.
abbrev pub IsDistinct : List Shingle → Type 0
IsDistinct [] = Unit
IsDistinct (x ∷ xs) = (has xs x ≡ false) × IsDistinct xs

to_set-IsDistinct : (xs : List Shingle) → IsDistinct (to_set xs)
unfolding to_set
to_set-IsDistinct [] = tt
to_set-IsDistinct (x ∷ xs) = elim (Bool-cases (has (to_set xs) x)) [
  | inl p ↦ rw p (to_set-IsDistinct xs)
  | inr p ↦ rw p (p, to_set-IsDistinct xs)
]

count : (Shingle → Bool) → List Shingle → ℕ
count p xs = length (keep p xs)

count_cons :
    (p : Shingle → Bool) (x : Shingle) (xs : List Shingle)
    → count p (x ∷ xs) ≡ (if p x then suc (count p xs) else count p xs)
unfolding count
count_cons p x xs = ground arith

count_nil : (p : Shingle → Bool) → count p [] ≡ 0
unfolding count
count_nil p = refl

count-or :
    (p q : Shingle → Bool) (xs : List Shingle)
    → count (λ x. p x || q x) xs + count (λ x. p x && q x) xs ≡ count p xs + count q xs
count-or p q [] =
    omega
      (arith, count_nil p, count_nil q, count_nil (λ x. p x || q x), count_nil (λ x. p x && q x))
count-or p q (x ∷ xs) = ground (
  arith,
  count_cons p x xs,
  count_cons q x xs,
  count_cons (λ x. p x || q x) x xs,
  count_cons (λ x. p x && q x) x xs,
  count-or p q xs,
)

count-not :
    (p : Shingle → Bool) (xs : List Shingle) → count (λ x. not (p x)) xs + count p xs ≡ length xs
count-not p [] = omega (arith, count_nil p, count_nil (λ x. not (p x)))
count-not p (x ∷ xs) =
    ground (arith, count_cons p x xs, count_cons (λ x. not (p x)) x xs, count-not p xs)

count_never :
    (p : Shingle → Bool) (xs : List Shingle) → ((x : Shingle) → p x ≡ false) → count p xs ≡ 0
count_never p [] h = count_nil p
count_never p (x ∷ xs) h = ground (arith, count_cons p x xs, h x, count_never p xs h)

-- In a set an element stands once.
count_one :
    (x : Shingle) (ys : List Shingle)
    → IsDistinct ys
    → count (λ y. x === y) ys ≡ (if has ys x then 1 else 0)
count_one x [] h = count_nil (λ y. x === y)
count_one x (y ∷ ys) h = elim (Bool-cases (x === y)) [
  | inl p ↦
      let e = (===_iff x y).0 p in
      let out : has ys x ≡ false = rw e h.0 in
      ground (
        arith,
        p,
        out,
        count_cons (λ y. x === y) y ys,
        count_one x ys h.1,
        ===_iff x y,
        ===_iff y x,
      )
  | inr p ↦
      ground
        (arith, p, count_cons (λ y. x === y) y ys, count_one x ys h.1, ===_iff x y, ===_iff y x)
]

never_both :
    (x : Shingle) (xs : List Shingle)
    → has xs x ≡ false
    → (y : Shingle) → (x === y && has xs y) ≡ false
never_both x xs h y = elim (Bool-cases (x === y)) [
  | inl p ↦ rw p (rw (← (===_iff x y).0 p) h)
  | inr p ↦ rw p
]

-- Each set holds as many elements of the other.
count_comm :
    (xs ys : List Shingle) → IsDistinct xs → IsDistinct ys → count (has ys) xs ≡ count (has xs) ys
count_comm [] ys h k = count_nil (has ys) ∙ sym (count_never (has []) ys (λ x. refl))
count_comm (x ∷ xs) ys h k = ground (
  arith,
  count_cons (has ys) x xs,
  count-or (λ y. x === y) (has xs) ys,
  count_one x ys k,
  count_never (λ y. x === y && has xs y) ys (never_both x xs h.0),
  count_comm xs ys h.1 k,
)

length-meet : (xs ys : List Shingle) → length (meet xs ys) ≡ count (has ys) xs
unfolding count
length-meet xs ys = refl

length-join_sets :
    (xs ys : List Shingle) → length (join_sets xs ys) + count (has xs) ys ≡ length xs + length ys
unfolding count
length-join_sets xs ys =
    omega (arith, length-append xs (keep (λ y. not (has xs y)) ys), count-not (has xs) ys)

is_nil_by_length : (xs ys : List Shingle) → length xs ≡ length ys → is_nil xs ≡ is_nil ys
is_nil_by_length [] [] h = refl
is_nil_by_length [] (y ∷ ys) h = absurd (omega arith)
is_nil_by_length (x ∷ xs) [] h = absurd (omega arith)
is_nil_by_length (x ∷ xs) (y ∷ ys) h = refl

pub jaccard_comm :
    (xs ys : List Shingle) → IsDistinct xs → IsDistinct ys → jaccard xs ys ≡ jaccard ys xs
unfolding jaccard
jaccard_comm xs ys h k =
    let common = count_comm xs ys h k in
    let meets : length (meet xs ys) ≡ length (meet ys xs) =
      omega (arith, common, length-meet xs ys, length-meet ys xs) in
    let joins : length (join_sets xs ys) ≡ length (join_sets ys xs) =
      omega (arith, common, length-join_sets xs ys, length-join_sets ys xs) in
    cc (meets, joins, is_nil_by_length (join_sets xs ys) (join_sets ys xs) joins)

shingles_of-IsDistinct : (size : ℕ) (tokens : List Text) → IsDistinct (shingles_of size tokens)
shingles_of-IsDistinct size tokens = elim (Bool-cases (is_nil tokens)) [
  | inl p ↦ rw p tt
  | inr p ↦ rw p (elim (Bool-cases (ltb (length tokens) size)) [
    | inl q ↦ rw q (refl, tt)
    | inr q ↦ rw q (to_set-IsDistinct (windows (length tokens + 1 - size) size tokens))
  ])
]

-- The shingles of a delta hold no repetition, so that their number counts distinct ones.
pub delta_shingles-IsDistinct :
    (find_tokens : Text → List Text) (delta : BaselineDelta) (policy : SimilarityPolicy)
    → IsDistinct (delta_shingles find_tokens delta policy)
unfolding delta_shingles
delta_shingles-IsDistinct find_tokens delta policy =
    shingles_of-IsDistinct policy.shingle_size (delta_tokens find_tokens delta.files)
