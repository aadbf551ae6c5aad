-- ===== src/AgentTools/Paging/Laws.antt =====
-- The cut keeps as much as fits, and where the next page starts.
use csoj_judger.Prelude.{
  ℕ, zero, suc, ◌+◌, ◌-◌, ◌≤◌, ◌<◌, ◌≡◌, refl, ap, subst, false, some, List, [], ◌∷◌, length,
  length-take, take, drop, leb, arith, Bool-cases, inl, inr, ◌⊎◌,
}
use csoj_judger.AgentTools.Paging.{slice, fit_from, fit_list_payload, Page, fitted_page, page_with}

-- A longest prefix within the limit: the empty one, or one that fits, with every longer one too long.
pub data IsLongestFit {ℓ} {A : Type ℓ} (size : List A → ℕ) (limit : ℕ) (values chosen : List A)
    : Type ℓ where
  longest_fit :
      (k : ℕ)
      → k ≤ length values
      → chosen ≡ take k values
      → (k ≡ 0) ⊎ (size (take k values) ≤ limit)
      → ((j : ℕ) → k < j → j ≤ length values → limit < size (take j values))
      → IsLongestFit size limit values chosen

module _ {ℓ} {A : Type ℓ} (size : List A → ℕ) (limit : ℕ) (values : List A) where
  fit_from-IsLongestFit :
      (count : ℕ)
      → count ≤ length values
      → ((j : ℕ) → count < j → j ≤ length values → limit < size (take j values))
      → IsLongestFit size limit values (fit_from size limit count values)
  unfolding fit_from
  fit_from-IsLongestFit zero h above = longest_fit 0 (omega arith) refl (inl refl) above
  fit_from-IsLongestFit (suc count) h above =
      elim (Bool-cases (leb (size (take (suc count) values)) limit)) [
        | inl p ↦ rw p (longest_fit (suc count) h refl (inr (ground (arith, p))) above)
        | inr p ↦ rw p (fit_from-IsLongestFit count (omega arith) (λ j q r. from j q r p))
      ]
    where
      from :
          (j : ℕ)
          → count < j
          → j ≤ length values
          → leb (size (take (suc count) values)) limit ≡ false
          → limit < size (take j values)
      from j q r p = elim (Bool-cases (leb j (suc count))) [
        | inl s ↦ let e : j ≡ suc count = ground (arith, s, q) in rw e (ground (arith, p))
        | inr s ↦ above j (ground (arith, s)) r
      ]

  -- The values that are kept are a prefix of the given ones, the longest whose payload stays within
  -- the limit, or none where no prefix of one value or more does.
  pub fit_list_payload-IsLongestFit :
      IsLongestFit size limit values (fit_list_payload size limit values)
  unfolding fit_list_payload
  fit_list_payload-IsLongestFit =
      fit_from-IsLongestFit (length values) (omega arith) (λ j q r. absurd (omega (arith, q, r)))

length-drop : {A : Type 0} (c : ℕ) (xs : List A) → length (drop c xs) ≡ length xs - c
length-drop zero xs = omega arith
length-drop (suc c) [] = omega arith
length-drop (suc c) (x ∷ xs) = omega (arith, length-drop c xs)

take_first : {A : Type 0} (limit : ℕ) (xs : List A) → 0 < limit → take 1 (take limit xs) ≡ take 1 xs
take_first zero xs p = absurd (omega (arith, p))
take_first (suc limit) [] p = refl
take_first (suc limit) (x ∷ xs) p = refl

-- The next cursor of a cut page: it lies beyond the given one by the values that are shown. It is the
-- given one again only when values are left and the payload with the first of them is too long.
pub fitted_page_next :
    {A : Type 0} (size : Page A → ℕ) (max_bytes limit cursor next : ℕ) (values : List A)
    → 0 < limit
    → (fitted_page size max_bytes limit cursor values).next ≡ some next
    → (next ≡ cursor + length (fitted_page size max_bytes limit cursor values).items)
      × (next < length values)
      × ((next ≡ cursor)
          → max_bytes < size (page_with cursor (length values) (take 1 (drop cursor values))))
unfolding fitted_page
fitted_page_next {A} size max_bytes limit cursor next values p h =
    elim (fit_list_payload-IsLongestFit of_size max_bytes chosen) [
      | longest_fit k le e fits above ↦ (
        at,
        lt,
        λ q.
            let z : k ≡ 0 = omega (arith, ap length e, length-take k chosen, le, at, q) in
            let some_left : 1 ≤ length chosen = omega (
              arith,
              length-take limit (drop cursor values),
              length-drop cursor values,
              lt,
              q,
              p,
            ) in
            let too_long = above 1 (omega (arith, z)) some_left in
            subst (λ xs. max_bytes < of_size xs) (take_first limit (drop cursor values) p) too_long,
      )
    ]
  where
    chosen : List A
    chosen = slice limit cursor values

    of_size : List A → ℕ
    of_size xs = size (page_with cursor (length values) xs)

    shown : ℕ
    shown = length (fit_list_payload of_size max_bytes chosen)

    at : next ≡ cursor + shown
    at = ground (arith, h)

    lt : next < length values
    lt = ground (arith, h)
