-- ===== src/Prelude/Text/Split.antt =====
-- Splitting at a separator and joining are inverse.
use Prim.Native.Nat.{ℕ}
use mathlib.Core.Path.{◌≡◌, refl, ap, ◌∙◌}
use mathlib.Core.Logic.{inl, inr}
use mathlib.Core.Bool.{false, ◌||◌}
use mathlib.Core.List.{List, [], ◌∷◌, ◌++◌}
use native.Mathlib.Omega.{arith}
use csoj_judger.Prelude.Tests.{◌==◌, ==_iff, Bool-cases}
use csoj_judger.Prelude.Lists.{is_nil, any}
use csoj_judger.Prelude.Order.{Text}
use csoj_judger.Prelude.Text.{split, grow, join, contains}

pub split-ne-nil : (sep : ℕ) (s : Text) → is_nil (split sep s) ≡ false
unfolding split
split-ne-nil sep [] = refl
split-ne-nil sep (c ∷ s) = elim (Bool-cases (c == sep)) [
  | inl p ↦ rw p
  | inr p ↦ rw p (grown (split sep s))
]
  where
    grown : (ps : List Text) → is_nil (grow c ps) ≡ false
    grown [] = refl
    grown (p ∷ ps) = refl

join-grow :
    (sep c : ℕ) (ps : List Text) → is_nil ps ≡ false → join sep (grow c ps) ≡ c ∷ join sep ps
join-grow sep c [] h = absurd (cc h)
join-grow sep c (p ∷ []) h = refl
join-grow sep c (p ∷ q ∷ ps) h = refl

join-nil : (sep : ℕ) (ps : List Text) → is_nil ps ≡ false → join sep ([] ∷ ps) ≡ sep ∷ join sep ps
join-nil sep [] h = absurd (cc h)
join-nil sep (q ∷ ps) h = refl

pub join-split : (sep : ℕ) (s : Text) → join sep (split sep s) ≡ s
unfolding split
join-split sep [] = refl
join-split sep (c ∷ s) = elim (Bool-cases (c == sep)) [
  | inl p ↦
      rw p (
        join-nil sep (split sep s) (split-ne-nil sep s) ∙ cc (join-split sep s, (==_iff c sep).0 p))
  | inr p ↦
      rw p (join-grow sep c (split sep s) (split-ne-nil sep s) ∙ ap (λ t. c ∷ t) (join-split sep s))
]

any-grow :
    (sep c : ℕ) (ps : List Text)
    → (c == sep) ≡ false
    → any (contains sep) ps ≡ false
    → any (contains sep) (grow c ps) ≡ false
any-grow sep c [] h k = rw h
any-grow sep c (p ∷ ps) h k = rw h k

-- No piece holds the separator.
pub any-contains-split : (sep : ℕ) (s : Text) → any (contains sep) (split sep s) ≡ false
unfolding split
any-contains-split sep [] = refl
any-contains-split sep (c ∷ s) = elim (Bool-cases (c == sep)) [
  | inl p ↦ rw p (any-contains-split sep s)
  | inr p ↦ rw p (any-grow sep c (split sep s) p (any-contains-split sep s))
]

split_plain : (sep : ℕ) (p : Text) → contains sep p ≡ false → split sep p ≡ p ∷ []
unfolding split
split_plain sep [] h = refl
split_plain sep (c ∷ p) h =
    let e : (c == sep) ≡ false = ground arith in rw e (rw (split_plain sep p (ground arith)))

split-append :
    (sep : ℕ) (p s : Text) → contains sep p ≡ false → split sep (p ++ (sep ∷ s)) ≡ p ∷ split sep s
unfolding split
split-append sep [] s h = rw ((==_iff sep sep).1 refl)
split-append sep (c ∷ p) s h =
    let e : (c == sep) ≡ false = ground arith in rw e (rw (split-append sep p s (ground arith)))

pub split-join :
    (sep : ℕ) (ps : List Text)
    → is_nil ps ≡ false
    → any (contains sep) ps ≡ false
    → split sep (join sep ps) ≡ ps
split-join sep [] h k = absurd (cc h)
split-join sep (p ∷ []) h k = split_plain sep p (ground arith)
split-join sep (p ∷ q ∷ ps) h k =
    split-append sep p (join sep (q ∷ ps)) (ground arith)
    ∙ ap (λ l. p ∷ l) (split-join sep (q ∷ ps) refl (ground arith))

contains-append : (c : ℕ) (s t : Text) → contains c (s ++ t) ≡ (contains c s || contains c t)
contains-append c [] t = refl
contains-append c (d ∷ s) t = ground (arith, contains-append c s t)

-- A joined text holds another character exactly when a piece does.
pub contains-join :
    (c sep : ℕ) (ps : List Text)
    → (sep == c) ≡ false
    → contains c (join sep ps) ≡ any (contains c) ps
contains-join c sep [] h = refl
contains-join c sep (p ∷ []) h = ground arith
contains-join c sep (p ∷ q ∷ ps) h =
    contains-append c p (sep ∷ join sep (q ∷ ps)) ∙ ground (arith, contains-join c sep (q ∷ ps) h)
