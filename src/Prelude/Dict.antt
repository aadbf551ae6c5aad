-- ===== src/Prelude/Dict.antt =====
-- Python's `dict`: an association list in insertion order.
use mathlib.Core.Path.{◌≡◌, refl}
use mathlib.Core.Logic.{inl, inr}
use mathlib.Core.Bool.{false}
use mathlib.Core.Option.{Option, none, some}
use mathlib.Core.List.{List, [], ◌∷◌, Memᴰ}
use native.Mathlib.Omega.{arith}
use csoj_judger.Prelude.Tests.{if◌then◌else◌, Bool-cases}
use csoj_judger.Prelude.Order.{Ord, ◌===◌, ===_iff}

abbrev pub Dict {ℓ κ} : Type ℓ → Type κ → Type (ℓ ⊔ κ)
Dict K V = List (K × V)

module _ {ℓ κ} {K : Type ℓ} {V : Type κ} ⦃o : Ord K⦄ where
  unfoldable pub get : Dict K V → K → Option V
  get [] k = none
  get ((j, v) ∷ d) k = if j === k then some v else get d k

  -- An assignment keeps the place of a key that is there.
  unfoldable pub put : Dict K V → K → V → Dict K V
  put [] k v = (k, v) ∷ []
  put ((j, w) ∷ d) k v = if j === k then (j, v) ∷ d else (j, w) ∷ put d k v

  pub get-nil : (k : K) → get [] k ≡ none
  unfolding get
  get-nil k = refl

  pub get-put :
      (d : Dict K V) (k j : K) (v : V) → get (put d k v) j ≡ (if k === j then some v else get d j)
  unfolding get put
  get-put [] k j v = ground arith
  get-put ((i, w) ∷ d) k j v =
      ground (arith, ===_iff i k, ===_iff i j, ===_iff k j, get-put d k j v)

abbrev pub values {ℓ κ} : {K : Type ℓ} {V : Type κ} → Dict K V → List V
values [] = []
values ((k, v) ∷ d) = v ∷ values d

module _ {ℓ κ} {K : Type ℓ} {V : Type κ} ⦃o : Ord K⦄ where
  abbrev pub UniqueKeys : Dict K V → Type κ
  UniqueKeys [] = Unit
  UniqueKeys ((k, v) ∷ d) = (get d k ≡ none) × UniqueKeys d

  pub UniqueKeys-put : (d : Dict K V) (k : K) (v : V) → UniqueKeys d → UniqueKeys (put d k v)
  unfolding put
  UniqueKeys-put [] k v u = (unfold get in refl, tt)
  UniqueKeys-put ((j, w) ∷ d) k v u = elim (Bool-cases (j === k)) [
    | inl p ↦ rw p u
    | inr p ↦ rw p (fresh p, UniqueKeys-put d k v u.1)
  ]
    where
      fresh : (j === k) ≡ false → get (put d k v) j ≡ none
      fresh p = ground (arith, get-put d k j v, ===_iff j k, ===_iff k j, u.0)

  pub mem-values_of_get : (d : Dict K V) (k : K) {v : V} → get d k ≡ some v → Memᴰ v (values d)
  unfolding get
  mem-values_of_get [] k h = cc
  mem-values_of_get ((j, w) ∷ d) k {v} h = elim (Bool-cases (j === k)) [
    | inl p ↦ Memᴰ.head (ground arith)
    | inr p ↦ Memᴰ.tail (mem-values_of_get d k (rw p at h))
  ]

  pub get_of_mem-values :
      (d : Dict K V) {v : V} → UniqueKeys d → Memᴰ v (values d) → (k : K) × (get d k ≡ some v)
  unfolding get
  get_of_mem-values [] u m = elim m [ ]
  get_of_mem-values ((j, w) ∷ d) u (Memᴰ.head e) = (j, ground (arith, ===_iff j j, e))
  get_of_mem-values ((j, w) ∷ d) {v} u (Memᴰ.tail m) =
      let (k, e) = get_of_mem-values d u.1 m in (k, ground (arith, ===_iff j k, e, u.0))
