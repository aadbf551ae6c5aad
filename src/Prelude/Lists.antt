-- ===== src/Prelude/Lists.antt =====
-- Lists measured by native numbers, and Boolean-filtered, with the laws that the components share.
use Prim.Native.Nat.{ℕ, zero, suc, ◌+◌, ◌≤◌, min}
use mathlib.Core.Path.{◌≡◌, refl, ap}
use mathlib.Core.Logic.{inl, inr}
use mathlib.Core.Bool.{Bool, true, false, ◌&&◌, ◌||◌}
use mathlib.Core.List.{List, [], ◌∷◌, ◌++◌, Memᴰ}
use native.Mathlib.Omega.{arith}
use csoj_judger.Prelude.Tests.{if◌then◌else◌, Bool-cases}

module _ {ℓ} {A : Type ℓ} where
  abbrev pub length : List A → ℕ
  length [] = 0
  length (x ∷ xs) = suc (length xs)

  abbrev pub take : ℕ → List A → List A
  take zero xs = []
  take (suc n) [] = []
  take (suc n) (x ∷ xs) = x ∷ take n xs

  abbrev pub drop : ℕ → List A → List A
  drop zero xs = xs
  drop (suc n) [] = []
  drop (suc n) (x ∷ xs) = drop n xs

  abbrev pub is_nil : List A → Bool
  is_nil [] = true
  is_nil (x ∷ xs) = false

  -- `any(p(x) for x in xs)` and `all(p(x) for x in xs)`.
  abbrev pub any : (A → Bool) → List A → Bool
  any p [] = false
  any p (x ∷ xs) = p x || any p xs

  abbrev pub all : (A → Bool) → List A → Bool
  all p [] = true
  all p (x ∷ xs) = p x && all p xs

  -- `[x for x in xs if p(x)]`.
  abbrev pub keep : (A → Bool) → List A → List A
  keep p [] = []
  keep p (x ∷ xs) = let rest = keep p xs in if p x then x ∷ rest else rest

  pub length-append : (xs ys : List A) → length (xs ++ ys) ≡ length xs + length ys
  length-append [] ys = omega arith
  length-append (x ∷ xs) ys = omega (arith, length-append xs ys)

  pub length-take_le : (n : ℕ) (xs : List A) → length (take n xs) ≤ n
  length-take_le zero xs = omega arith
  length-take_le (suc n) [] = omega arith
  length-take_le (suc n) (x ∷ xs) = omega (arith, length-take_le n xs)

  pub length-take : (n : ℕ) (xs : List A) → length (take n xs) ≡ min n (length xs)
  length-take zero xs = omega arith
  length-take (suc n) [] = omega arith
  length-take (suc n) (x ∷ xs) = omega (arith, length-take n xs)

  -- A prefix of a prefix that is no longer than it holds everything is the whole list.
  pub take_short :
      (n : ℕ) (xs : List A) → length (take (suc n) xs) ≤ n → take n (take (suc n) xs) ≡ xs
  take_short zero [] h = refl
  take_short zero (x ∷ xs) h = absurd (omega arith)
  take_short (suc n) [] h = refl
  take_short (suc n) (x ∷ xs) h = ap (λ l. x ∷ l) (take_short n xs (omega arith))

  pub mem-append_left : {a : A} {xs : List A} (ys : List A) → Memᴰ a xs → Memᴰ a (xs ++ ys)
  mem-append_left ys (Memᴰ.head e) = Memᴰ.head e
  mem-append_left ys (Memᴰ.tail m) = Memᴰ.tail (mem-append_left ys m)

  pub mem-append_right : {a : A} (xs : List A) {ys : List A} → Memᴰ a ys → Memᴰ a (xs ++ ys)
  mem-append_right [] m = m
  mem-append_right (x ∷ xs) m = Memᴰ.tail (mem-append_right xs m)

  pub mem_of_take : {a : A} (n : ℕ) (xs : List A) → Memᴰ a (take n xs) → Memᴰ a xs
  mem_of_take zero xs m = elim m [ ]
  mem_of_take (suc n) [] m = elim m [ ]
  mem_of_take (suc n) (x ∷ xs) (Memᴰ.head e) = Memᴰ.head e
  mem_of_take (suc n) (x ∷ xs) (Memᴰ.tail m) = Memᴰ.tail (mem_of_take n xs m)

module _ {ℓ} {A : Type ℓ} (p : A → Bool) where
  pub mem_of_keep : {a : A} (xs : List A) → Memᴰ a (keep p xs) → Memᴰ a xs × (p a ≡ true)
  mem_of_keep [] m = elim m [ ]
  mem_of_keep {a} (x ∷ xs) m = elim (Bool-cases (p x)) [
    | inl yes' ↦ split (mem_of_keep xs) yes' (rw yes' at m)
    | inr no' ↦ later (mem_of_keep xs (rw no' at m))
  ]
    where
      later : Memᴰ a xs × (p a ≡ true) → Memᴰ a (x ∷ xs) × (p a ≡ true)
      later (n, h) = (Memᴰ.tail n, h)

      split :
          (Memᴰ a (keep p xs) → Memᴰ a xs × (p a ≡ true))
          → p x ≡ true
          → Memᴰ a (x ∷ keep p xs)
          → Memᴰ a (x ∷ xs) × (p a ≡ true)
      split f h (Memᴰ.head e) = (Memᴰ.head e, rw e h)
      split f h (Memᴰ.tail n) = later (f n)

  pub mem-keep : {a : A} (xs : List A) → Memᴰ a xs → p a ≡ true → Memᴰ a (keep p xs)
  mem-keep [] m h = elim m [ ]
  mem-keep (x ∷ xs) (Memᴰ.head e) h = rw (← e) (rw h (Memᴰ.head refl))
  mem-keep (x ∷ xs) (Memᴰ.tail m) h = elim (Bool-cases (p x)) [
    | inl yes' ↦ rw yes' (Memᴰ.tail (mem-keep xs m h))
    | inr no' ↦ rw no' (mem-keep xs m h)
  ]
