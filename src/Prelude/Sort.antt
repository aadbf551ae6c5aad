-- ===== src/Prelude/Sort.antt =====
-- `sorted(xs, key=f)`: a stable sort, as insertion sort.
use Prim.Native.Nat.{ℕ, zero, suc}
use mathlib.Core.Path.{◌≡◌, refl, ap, sym, ◌∙◌}
use mathlib.Core.Logic.{inl, inr, ◌≢◌}
use mathlib.Core.Bool.{true}
use mathlib.Core.List.{List, [], ◌∷◌, Memᴰ, Perm}
use mathlib.Core.List.Perm
use csoj_judger.Prelude.Tests.{if◌then◌else◌, Bool-cases}
use csoj_judger.Prelude.Lists.{take}
use csoj_judger.Prelude.Order.{Ord, ◌<=◌, le_of_lt}

module _ {ℓ κ} {A : Type ℓ} {K : Type κ} ⦃o : Ord K⦄ (key : A → K) where
  -- The new element goes before the first that is not smaller.
  pub insert_by : A → List A → List A
  insert_by x [] = x ∷ []
  insert_by x (y ∷ ys) =
      let rest = insert_by x ys in if key x <= key y then x ∷ y ∷ ys else y ∷ rest

  unfoldable pub sort_by : List A → List A
  unfolding insert_by
  sort_by [] = []
  sort_by (x ∷ xs) = insert_by x (sort_by xs)

  abbrev pub AtLeast : A → List A → Type 0
  AtLeast x [] = Unit
  AtLeast x (y ∷ ys) = ((key x <= key y) ≡ true) × AtLeast x ys

  -- Each element is at most every later one.
  abbrev pub IsSorted : List A → Type 0
  IsSorted [] = Unit
  IsSorted (x ∷ xs) = AtLeast x xs × IsSorted xs

  AtLeast-insert_by :
      (x y : A) (ys : List A) → (key x <= key y) ≡ true → AtLeast x ys → AtLeast x (insert_by y ys)
  unfolding insert_by
  AtLeast-insert_by x y [] h k = (h, tt)
  AtLeast-insert_by x y (z ∷ zs) h k = elim (Bool-cases (key y <= key z)) [
    | inl p ↦ rw p (h, k)
    | inr p ↦ rw p (k.0, AtLeast-insert_by x y zs h k.1)
  ]

  AtLeast-trans : (x y : A) (ys : List A) → (key x <= key y) ≡ true → AtLeast y ys → AtLeast x ys
  AtLeast-trans x y [] h k = tt
  AtLeast-trans x y (z ∷ zs) h k =
      (o.trans (key x) (key y) (key z) h k.0, AtLeast-trans x y zs h k.1)

  insert_by-IsSorted : (x : A) (ys : List A) → IsSorted ys → IsSorted (insert_by x ys)
  unfolding insert_by
  insert_by-IsSorted x [] h = (tt, tt)
  insert_by-IsSorted x (y ∷ ys) h = elim (Bool-cases (key x <= key y)) [
    | inl p ↦ rw p ((p, AtLeast-trans x y ys p h.0), h)
    | inr p ↦ rw p (
      AtLeast-insert_by y x ys (le_of_lt (key y) (key x) (rw p refl)) h.0,
      insert_by-IsSorted x ys h.1,
    )
  ]

  pub sort_by-IsSorted : (xs : List A) → IsSorted (sort_by xs)
  unfolding sort_by
  sort_by-IsSorted [] = tt
  sort_by-IsSorted (x ∷ xs) = insert_by-IsSorted x (sort_by xs) (sort_by-IsSorted xs)

  insert_by-Perm : (x : A) (ys : List A) → Perm (insert_by x ys) (x ∷ ys)
  unfolding insert_by
  insert_by-Perm x [] = Perm.refl (x ∷ [])
  insert_by-Perm x (y ∷ ys) = elim (Bool-cases (key x <= key y)) [
    | inl p ↦ rw p (Perm.refl (x ∷ y ∷ ys))
    | inr p ↦ rw p (Perm.trans (Perm.cons y (insert_by-Perm x ys)) (Perm.swap x y ys))
  ]

  pub sort_by-Perm : (xs : List A) → Perm (sort_by xs) xs
  unfolding sort_by
  sort_by-Perm [] = Perm.refl []
  sort_by-Perm (x ∷ xs) = Perm.trans (insert_by-Perm x (sort_by xs)) (Perm.cons x (sort_by-Perm xs))

  mem-swap :
      {a x y : A} {ys zs : List A}
      → (Memᴰ a zs → Memᴰ a (x ∷ ys))
      → Memᴰ a (y ∷ zs)
      → Memᴰ a (x ∷ y ∷ ys)
  mem-swap f (Memᴰ.head e) = Memᴰ.tail (Memᴰ.head e)
  mem-swap {a} {x} {y} {ys} f (Memᴰ.tail m) = go (f m)
    where
      go : Memᴰ a (x ∷ ys) → Memᴰ a (x ∷ y ∷ ys)
      go (Memᴰ.head e) = Memᴰ.head e
      go (Memᴰ.tail n) = Memᴰ.tail (Memᴰ.tail n)

  mem_of_insert_by : {a : A} (x : A) (ys : List A) → Memᴰ a (insert_by x ys) → Memᴰ a (x ∷ ys)
  unfolding insert_by
  mem_of_insert_by x [] m = m
  mem_of_insert_by x (y ∷ ys) m = elim (Bool-cases (key x <= key y)) [
    | inl p ↦ rw p at m
    | inr p ↦ mem-swap (mem_of_insert_by x ys) (rw p at m)
  ]

  mem-insert_by : {a : A} (x : A) (ys : List A) → Memᴰ a (x ∷ ys) → Memᴰ a (insert_by x ys)
  unfolding insert_by
  mem-insert_by x [] m = m
  mem-insert_by {a} x (y ∷ ys) m = elim (Bool-cases (key x <= key y)) [
    | inl p ↦ rw p m
    | inr p ↦ rw p (go (mem-insert_by x ys) m)
  ]
    where
      go :
          (Memᴰ a (x ∷ ys) → Memᴰ a (insert_by x ys))
          → Memᴰ a (x ∷ y ∷ ys)
          → Memᴰ a (y ∷ insert_by x ys)
      go f (Memᴰ.head e) = Memᴰ.tail (f (Memᴰ.head e))
      go f (Memᴰ.tail (Memᴰ.head e)) = Memᴰ.head e
      go f (Memᴰ.tail (Memᴰ.tail n)) = Memᴰ.tail (f (Memᴰ.tail n))

  pub mem_of_sort_by : {a : A} (xs : List A) → Memᴰ a (sort_by xs) → Memᴰ a xs
  unfolding sort_by
  mem_of_sort_by [] m = m
  mem_of_sort_by (x ∷ xs) m = lift (mem_of_sort_by xs) (mem_of_insert_by x (sort_by xs) m)
    where
      lift : {a : A} {ys zs : List A} → (Memᴰ a ys → Memᴰ a zs) → Memᴰ a (x ∷ ys) → Memᴰ a (x ∷ zs)
      lift f (Memᴰ.head e) = Memᴰ.head e
      lift f (Memᴰ.tail n) = Memᴰ.tail (f n)

  pub mem-sort_by : {a : A} (xs : List A) → Memᴰ a xs → Memᴰ a (sort_by xs)
  unfolding sort_by
  mem-sort_by [] m = elim m [ ]
  mem-sort_by (x ∷ xs) (Memᴰ.head e) = mem-insert_by x (sort_by xs) (Memᴰ.head e)
  mem-sort_by (x ∷ xs) (Memᴰ.tail m) = mem-insert_by x (sort_by xs) (Memᴰ.tail (mem-sort_by xs m))

  -- No two elements have one key.
  abbrev pub DistinctKeys : List A → Type (ℓ ⊔ κ)
  DistinctKeys [] = Unit
  DistinctKeys (x ∷ xs) = ((y : A) → Memᴰ y xs → key x ≢ key y) × DistinctKeys xs

  insert_by-DistinctKeys :
      (x : A) (ys : List A) → DistinctKeys (x ∷ ys) → DistinctKeys (insert_by x ys)
  unfolding insert_by
  insert_by-DistinctKeys x [] h = h
  insert_by-DistinctKeys x (y ∷ ys) h = elim (Bool-cases (key x <= key y)) [
    | inl p ↦ rw p h
    | inr p ↦ rw p (
      λ z m. apart z (mem_of_insert_by x ys m),
      insert_by-DistinctKeys x ys (λ z m. h.0 z (Memᴰ.tail m), h.1.1),
    )
  ]
    where
      apart : (z : A) → Memᴰ z (x ∷ ys) → key y ≢ key z
      apart z (Memᴰ.head e) q = h.0 y (Memᴰ.head refl) (ap key (sym e) ∙ sym q)
      apart z (Memᴰ.tail m) q = h.1.0 z m q

  pub sort_by-DistinctKeys : (xs : List A) → DistinctKeys xs → DistinctKeys (sort_by xs)
  unfolding sort_by
  sort_by-DistinctKeys [] h = tt
  sort_by-DistinctKeys (x ∷ xs) h =
      insert_by-DistinctKeys x (sort_by xs)
        (λ y m. h.0 y (mem_of_sort_by xs m), sort_by-DistinctKeys xs h.1)

  AtLeast-take : (x : A) (n : ℕ) (ys : List A) → AtLeast x ys → AtLeast x (take n ys)
  AtLeast-take x zero ys h = tt
  AtLeast-take x (suc n) [] h = tt
  AtLeast-take x (suc n) (y ∷ ys) h = (h.0, AtLeast-take x n ys h.1)

  pub take-IsSorted : (n : ℕ) (xs : List A) → IsSorted xs → IsSorted (take n xs)
  take-IsSorted zero xs h = tt
  take-IsSorted (suc n) [] h = tt
  take-IsSorted (suc n) (x ∷ xs) h = (AtLeast-take x n xs h.0, take-IsSorted n xs h.1)
