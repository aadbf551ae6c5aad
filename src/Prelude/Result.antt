-- ===== src/Prelude/Result.antt =====
-- Code that may raise returns a `Result`; `E` names the exceptions that it raises.
use mathlib.Core.Bool.{Bool, true, false}
use mathlib.Core.Path.{◌≡◌, refl}

pub data Result {ℓ} (E : Type 0) (A : Type ℓ) : Type ℓ where
  err : E → Result E A
  ok : A → Result E A

module _ {ℓ κ} {E : Type 0} {A : Type ℓ} {B : Type κ} where
  infixl 5 ◌>>=◌
  abbrev pub ◌>>=◌ : Result E A → (A → Result E B) → Result E B
  ◌>>=◌ r next = elim r [ err e ↦ err e | ok a ↦ next a ]

  -- What a `do` block that returned went through.
  pub returned :
      (r : Result E A) (next : A → Result E B) {b : B}
      → (r >>= next) ≡ ok b
      → (a : A) × (r ≡ ok a) × (next a ≡ ok b)
  returned (err e) next h = absurd (cc h)
  returned (ok a) next h = (a, refl, h)

pub ok_injective {ℓ} :
    {E : Type 0} {A : Type ℓ} {a b : A} (r : Result E A) → r ≡ ok a → r ≡ ok b → a ≡ b
ok_injective r h k = cc (h, k)

infixl 5 ◌>>◌
abbrev pub ◌>>◌ {κ} : {E : Type 0} {B : Type κ} → Result E (Unit {0}) → Result E B → Result E B
r >> next = r >>= λ _. next

-- `if b: raise e`.
abbrev pub raise_if : {E : Type 0} → Bool → E → Result E (Unit {0})
raise_if b e = elim b [ true ↦ err e | false ↦ ok tt ]
