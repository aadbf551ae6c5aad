-- ===== src/AgentTools/Reading/Laws/Loop.antt =====
-- Which lines the loop of `read_lines` takes.
use csoj_judger.Prelude.{
  ℕ, zero, suc, ◌+◌, ◌-◌, ◌≤◌, ◌<◌, ◌≡◌, refl, ap, sym, subst, ◌⊎◌, inl, inr, Bool, true, false,
  List, [], ◌∷◌, ◌++◌, length, take, drop, is_nil, ltb, if◌then◌else◌, arith, Bool-cases,
}
use csoj_judger.Prelude.Order.{Text}
use csoj_judger.AgentTools.Reading.{ShownLine, whole_line, cut_line, read_loop}

-- The lines as they are shown, numbered from a number on.
abbrev pub numbered : ℕ → List Text → List ShownLine
numbered n [] = []
numbered n (line ∷ lines) = whole_line n line ∷ numbered (suc n) lines

-- The reading goes on after `before`, with the rest of the file's lines from `number` on: it takes `k`
-- whole lines, each of which fits with those before it, and stops at the last number, at the end of the
-- file, or where something is shown and the next line does not fit with it; or nothing is shown yet and
-- the first line does not fit alone, which is cut.
pub data IsRead (fits : List ShownLine → ℕ → Bool) (max_bytes number last : ℕ)
    (before : List ShownLine) (rest : List Text) (result : List ShownLine) : Type 0 where
  whole :
      (k : ℕ)
      → k ≤ suc last - number
      → k ≤ length rest
      → ((j : ℕ) → j < k → fits (before ++ numbered number (take (suc j) rest)) (number + j) ≡ true)
      → (k ≡ suc last - number)
        ⊎ ((k ≡ length rest)
            ⊎ ((0 < length before + k)
                × (k < length rest)
                × (fits (before ++ numbered number (take (suc k) rest)) (number + k) ≡ false)))
      → result ≡ before ++ numbered number (take k rest)
      → IsRead fits max_bytes number last before rest result
  cut :
      (line : Text) (others : List Text)
      → before ≡ []
      → rest ≡ line ∷ others
      → number ≤ last
      → fits (whole_line number line ∷ []) number ≡ false
      → result ≡ cut_line max_bytes number line ∷ []
      → IsRead fits max_bytes number last before rest result

append_none : (xs : List ShownLine) → xs ++ [] ≡ xs
append_none [] = refl
append_none (x ∷ xs) = ap (λ r. x ∷ r) (append_none xs)

append_one : (xs ys : List ShownLine) (x : ShownLine) → (xs ++ (x ∷ [])) ++ ys ≡ xs ++ (x ∷ ys)
append_one [] ys x = refl
append_one (y ∷ xs) ys x = ap (λ r. y ∷ r) (append_one xs ys x)

module _ (fits : List ShownLine → ℕ → Bool) (max_bytes start last : ℕ) where
  finished :
      (number : ℕ) (lines : List ShownLine) → IsRead fits max_bytes number last lines [] lines
  finished number lines =
      whole 0 (omega arith) (omega arith) (λ j h. absurd (omega (arith, h))) (inr (inl refl))
        (sym (append_none lines))

  past_last :
      (number : ℕ) (lines : List ShownLine) (rest : List Text)
      → last < number
      → IsRead fits max_bytes number last lines rest lines
  past_last number lines rest h =
      whole 0 (omega arith) (omega arith) (λ j l. absurd (omega (arith, l)))
        (inl (omega (arith, h))) (sym (append_none lines))

  -- The fitting of a line after the others, put the other way.
  moved :
      (number j : ℕ) (lines : List ShownLine) (line : Text) (rest : List Text) (b : Bool)
      → fits
          ((lines ++ (whole_line number line ∷ [])) ++ numbered (suc number) (take (suc j) rest))
          (suc number + j)
        ≡ b
      → fits (lines ++ numbered number (take (suc (suc j)) (line ∷ rest))) (number + suc j) ≡ b
  moved number j lines line rest b h =
      let e =
        append_one lines (numbered (suc number) (take (suc j) rest)) (whole_line number line) in
      let n : suc number + j ≡ number + suc j = omega arith in cc (e, n, h)

  one_more :
      (number : ℕ) (lines : List ShownLine) (line : Text) (rest : List Text)
      (result : List ShownLine)
      → number ≤ last
      → fits (lines ++ (whole_line number line ∷ [])) number ≡ true
      → IsRead fits max_bytes (suc number) last (lines ++ (whole_line number line ∷ [])) rest result
      → IsRead fits max_bytes number last lines (line ∷ rest) result
  one_more number lines line rest result le fit (whole k a b c d e) =
      whole (suc k) (omega (arith, a, le)) (omega (arith, b)) all_fit stops
        (cc (e, append_one lines (numbered (suc number) (take k rest)) (whole_line number line)))
    where
      all_fit :
          (j : ℕ)
          → j < suc k
          → fits (lines ++ numbered number (take (suc j) (line ∷ rest))) (number + j) ≡ true
      all_fit zero h =
          let n : number + 0 ≡ number = omega arith in
          subst (λ x. fits (lines ++ (whole_line number line ∷ [])) x ≡ true) (sym n) fit
      all_fit (suc j) h = moved number j lines line rest true (c j (omega (arith, h)))

      stops :
          (suc k ≡ suc last - number)
          ⊎ ((suc k ≡ length (line ∷ rest))
              ⊎ ((0 < length lines + suc k)
                  × (suc k < length (line ∷ rest))
                  × (fits
                        (lines ++ numbered number (take (suc (suc k)) (line ∷ rest)))
                        (number + suc k)
                      ≡ false)))
      stops = elim d [
        | inl x ↦ inl (omega (arith, x, le))
        | inr (inl x) ↦ inr (inl (omega (arith, x)))
        | inr (inr (x, y, z)) ↦
            inr (inr (omega arith, omega (arith, y), moved number k lines line rest false z))
      ]
  one_more number [] line rest result le fit (cut l others e f g i h) = ground (arith, e)
  one_more number (x ∷ lines) line rest result le fit (cut l others e f g i h) = ground (arith, e)

  too_long :
      (number : ℕ) (lines : List ShownLine) (line : Text) (rest : List Text)
      → number ≤ last
      → fits (lines ++ (whole_line number line ∷ [])) number ≡ false
      → IsRead fits max_bytes number last lines
          (line ∷ rest)
          (if is_nil lines then cut_line max_bytes number line ∷ [] else lines)
  too_long number [] line rest le fit = cut line rest refl refl le fit refl
  too_long number (x ∷ lines) line rest le fit =
      let n : number + 0 ≡ number = omega arith in
      whole 0 (omega arith) (omega arith) (λ j l. absurd (omega (arith, l)))
        (inr (
          inr (
            omega arith,
            omega arith,
            subst (λ y. fits ((x ∷ lines) ++ (whole_line number line ∷ [])) y ≡ false) (sym n) fit,
          )))
        (sym (append_none (x ∷ lines)))

  pub read_loop-IsRead :
      (number : ℕ) (lines : List ShownLine) (rest : List Text)
      → start ≤ number
      → IsRead fits max_bytes number last lines rest
          (read_loop fits max_bytes start last number lines rest)
  unfolding read_loop
  read_loop-IsRead number lines [] le = finished number lines
  read_loop-IsRead number lines (line ∷ rest) le =
      let proposed = lines ++ (whole_line number line ∷ []) in
      let ih = read_loop-IsRead (suc number) proposed rest (omega arith) in
      let past : ltb number start ≡ false = ground arith in
      rw past (elim (Bool-cases (ltb last number)) [
        | inl p ↦ rw p (past_last number lines (line ∷ rest) (ground (arith, p)))
        | inr p ↦
            let within : number ≤ last = ground (arith, p) in
            rw p (elim (Bool-cases (fits proposed number)) [
              | inl q ↦ rw q (
                  one_more number lines line rest
                    (read_loop fits max_bytes start last (suc number) proposed rest) within q ih)
              | inr q ↦ rw q (too_long number lines line rest within q)
            ])
      ])

  -- The lines before the first requested one are passed over.
  pub read_loop-drop :
      (skip number : ℕ) (rest : List Text)
      → number + skip ≡ start
      → read_loop fits max_bytes start last number [] rest
        ≡ read_loop fits max_bytes start last start [] (drop skip rest)
  unfolding read_loop
  read_loop-drop zero number rest e = let e' : number ≡ start = omega (arith, e) in rw e' refl
  read_loop-drop (suc skip) number [] e = refl
  read_loop-drop (suc skip) number (line ∷ rest) e =
      let before : ltb number start ≡ true = ground (arith, e) in
      rw before (read_loop-drop skip (suc number) rest (omega (arith, e)))
