-- ===== src/Prelude/Order.antt =====
-- Python's total orders on integers, tuples and texts. A text is its list of code points, and is
-- compared lexicographically by them, as `str` is.
use Prim.Native.Nat.{ℕ}
use Prim.Native.Char.{code}
use Prim.Native.String.{String}
use mathlib.Core.Path.{◌≡◌, refl, ap₂}
use mathlib.Core.Logic.{◌⊎◌, inl, inr, ◌↔◌}
use mathlib.Core.Bool.{Bool, true, false, not, ◌&&◌, ◌||◌}
use mathlib.Core.List.{List, [], ◌∷◌}
use native.Mathlib.Omega.{arith}
use csoj_judger.Prelude.Tests.{leb}
use csoj_judger.Prelude.Lists.{any}

pub record Ord {ℓ} (A : Type ℓ) : Type ℓ where
  pub le? : A → A → Bool
  pub total : (a b : A) → (le? a b ≡ true) ⊎ (le? b a ≡ true)
  pub trans : (a b c : A) → le? a b ≡ true → le? b c ≡ true → le? a c ≡ true
  pub antisym : (a b : A) → le? a b ≡ true → le? b a ≡ true → a ≡ b

module _ {ℓ} {A : Type ℓ} ⦃o : Ord A⦄ where
  infix 50 ◌<=◌ ◌<<◌ ◌===◌
  abbrev pub ◌<=◌ : A → A → Bool
  ◌<=◌ = o.le?

  abbrev pub ◌<<◌ : A → A → Bool
  a << b = not (o.le? b a)

  abbrev pub ◌===◌ : A → A → Bool
  a === b = o.le? a b && o.le? b a

  pub le_refl : (a : A) → (a <= a) ≡ true
  le_refl a = elim (o.total a a) [ inl h ↦ h | inr h ↦ h ]

  pub ===_iff : (a b : A) → ((a === b) ≡ true) ↔ (a ≡ b)
  ===_iff a b = (forth, back)
    where
      forth : (a === b) ≡ true → a ≡ b
      forth h = o.antisym a b (ground arith) (ground arith)

      back : a ≡ b → (a === b) ≡ true
      back e = rw e (rw (le_refl b))

  pub le_of_lt : (a b : A) → (a << b) ≡ true → (a <= b) ≡ true
  le_of_lt a b h = elim (o.total a b) [ inl p ↦ p | inr p ↦ ground arith ]

  pub trans_le : (a b c : A) → (a <= b) ≡ true → (b <= c) ≡ true → (a <= c) ≡ true
  trans_le = o.trans

  pub antisym_le : (a b : A) → (a <= b) ≡ true → (b <= a) ≡ true → a ≡ b
  antisym_le = o.antisym

  pub le_of_not_le : (a b : A) → (a <= b) ≡ false → (b <= a) ≡ true
  le_of_not_le a b h = elim (o.total a b) [ inl p ↦ absurd (cc (p, h)) | inr p ↦ p ]

  pub le_of_not_lt : (a b : A) → (a << b) ≡ false → (b <= a) ≡ true
  le_of_not_lt a b h = ground arith

  pub lt-trans_le : (a b c : A) → (a << b) ≡ true → (b <= c) ≡ true → (a << c) ≡ true
  lt-trans_le a b c h k = ground (arith, o.trans b c a)

pub nat_total : (a b : ℕ) → (leb a b ≡ true) ⊎ (leb b a ≡ true)
nat_total a b = ground arith

pub nat_trans : (a b c : ℕ) → leb a b ≡ true → leb b c ≡ true → leb a c ≡ true
nat_trans a b c h k = ground arith

pub nat_antisym : (a b : ℕ) → leb a b ≡ true → leb b a ≡ true → a ≡ b
nat_antisym a b h k = ground arith

instance abbrev pub nat_ord : Ord ℕ
nat_ord = record { le? = leb; total = nat_total; trans = nat_trans; antisym = nat_antisym }

-- A tuple: the second places count where the first are equal.
module _ {ℓ κ} {A : Type ℓ} {B : Type κ} ⦃o : Ord A⦄ ⦃p : Ord B⦄ where
  abbrev pub pair_leb : A × B → A × B → Bool
  pair_leb (a, b) (c, d) = o.le? a c && (not (o.le? c a) || p.le? b d)

  pub pair_total : (x y : A × B) → (pair_leb x y ≡ true) ⊎ (pair_leb y x ≡ true)
  pair_total (a, b) (c, d) = ground (arith, o.total a c, p.total b d)

  pub pair_trans : (x y z : A × B) → pair_leb x y ≡ true → pair_leb y z ≡ true → pair_leb x z ≡ true
  pair_trans (a, b) (c, d) (e, f) h k =
      ground (arith, o.trans a c e, o.trans c e a, o.trans e a c, p.trans b d f)

  pub pair_antisym : (x y : A × B) → pair_leb x y ≡ true → pair_leb y x ≡ true → x ≡ y
  pair_antisym (a, b) (c, d) h k =
      ap₂ (λ (s : A) (t : B). (s, t)) (o.antisym a c (ground arith) (ground arith))
        (p.antisym b d (ground arith) (ground arith))

  instance abbrev pub pair_ord : Ord (A × B)
  pair_ord = record {
    le? = pair_leb;
    total = pair_total;
    trans = pair_trans;
    antisym = pair_antisym;
  }

module _ {ℓ} {A : Type ℓ} ⦃o : Ord A⦄ where
  abbrev pub list_leb : List A → List A → Bool
  list_leb [] ys = true
  list_leb (x ∷ xs) [] = false
  list_leb (x ∷ xs) (y ∷ ys) = o.le? x y && (not (o.le? y x) || list_leb xs ys)

  pub list_total : (x y : List A) → (list_leb x y ≡ true) ⊎ (list_leb y x ≡ true)
  list_total [] y = inl refl
  list_total (x ∷ xs) [] = inr refl
  list_total (x ∷ xs) (y ∷ ys) = ground (arith, o.total x y, list_total xs ys)

  pub list_trans :
      (x y z : List A) → list_leb x y ≡ true → list_leb y z ≡ true → list_leb x z ≡ true
  list_trans [] y z h k = refl
  list_trans (x ∷ xs) [] z h k = ground arith
  list_trans (x ∷ xs) (y ∷ ys) [] h k = k
  list_trans (a ∷ b) (c ∷ d) (e ∷ f) h k =
      ground (arith, o.trans a c e, o.trans c e a, o.trans e a c, list_trans b d f)

  pub list_antisym : (x y : List A) → list_leb x y ≡ true → list_leb y x ≡ true → x ≡ y
  list_antisym [] [] h k = refl
  list_antisym [] (y ∷ ys) h k = ground arith
  list_antisym (x ∷ xs) [] h k = ground arith
  list_antisym (a ∷ b) (c ∷ d) h k =
      ap₂ (λ (s : A) (t : List A). s ∷ t) (o.antisym a c (ground arith) (ground arith))
        (list_antisym b d (ground arith) (ground arith))

  instance abbrev pub list_ord : Ord (List A)
  list_ord = record {
    le? = list_leb;
    total = list_total;
    trans = list_trans;
    antisym = list_antisym;
  }

abbrev pub Text : Type 0
Text = List ℕ

-- A text literal.
abbrev pub text : String → Text
text String.[] = []
text (String.◌∷◌ c s) = code c ∷ text s

-- `x in xs` of texts.
abbrev pub one_of : List Text → Text → Bool
one_of xs x = any (λ y. y === x) xs
