-- ===== src/AgentTools/Paging.antt =====
-- The pages of a tool's answer in src/oj_checker/agent_tools.py: the slice from a cursor on, the next
-- cursor, and the cut to the size of a response.
pub mod Laws
use csoj_judger.Prelude.{
  ℕ, zero, suc, ◌+◌, Bool, Option, none, some, List, [], length, take, drop, ltb, leb,
  if◌then◌else◌,
}

-- `values[cursor : cursor + limit]`.
abbrev pub slice {ℓ} : {A : Type ℓ} → ℕ → ℕ → List A → List A
slice limit cursor values = take limit (drop cursor values)

abbrev pub is_truncated : ℕ → ℕ → ℕ → Bool
is_truncated cursor shown total = ltb (cursor + shown) total

abbrev pub next_cursor : ℕ → ℕ → ℕ → Option ℕ
next_cursor cursor shown total =
    if is_truncated cursor shown total then some (cursor + shown) else none

-- The loop of `_fit_list_payload`, from the first `count` values down: `size` is the length of the
-- payload that is built of them.
unfoldable pub fit_from {ℓ} : {A : Type ℓ} → (List A → ℕ) → ℕ → ℕ → List A → List A
fit_from size limit zero values = []
fit_from size limit (suc count) values =
    let rest = fit_from size limit count values in
    if leb (size (take (suc count) values)) limit then take (suc count) values else rest

unfoldable pub fit_list_payload {ℓ} : {A : Type ℓ} → (List A → ℕ) → ℕ → List A → List A
unfolding fit_from
fit_list_payload size limit values = fit_from size limit (length values) values

-- One answer: the values that are shown, and where the next one starts.
pub record Page (A : Type 0) : Type 0 where
  pub items : List A
  pub truncated : Bool
  pub next : Option ℕ

abbrev pub page_with : {A : Type 0} → ℕ → ℕ → List A → Page A
page_with cursor total selected = record {
  items = selected;
  truncated = is_truncated cursor (length selected) total;
  next = next_cursor cursor (length selected) total;
}

-- The answer of `list_tree`: at most `limit` values.
unfoldable pub page_of : {A : Type 0} → ℕ → ℕ → List A → Page A
page_of limit cursor values = page_with cursor (length values) (slice limit cursor values)

-- The answer of `search`: the same slice, cut to what fits. `size` is the length of the payload with
-- the given values, flag and cursor.
unfoldable pub fitted_page : {A : Type 0} → (Page A → ℕ) → ℕ → ℕ → ℕ → List A → Page A
fitted_page size max_bytes limit cursor values = page_with cursor (length values) (
    fit_list_payload (λ chosen. size (page_with cursor (length values) chosen)) max_bytes
      (slice limit cursor values))
