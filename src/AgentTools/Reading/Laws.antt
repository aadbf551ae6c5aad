-- ===== src/AgentTools/Reading/Laws.antt =====
-- What `read_lines` shows of a file.
pub mod Loop
use csoj_judger.Prelude.{
  ℕ, zero, suc, ◌+◌, ◌-◌, ◌≤◌, ◌<◌, ◌≡◌, refl, ap, sym, subst, ◌⊎◌, inl, inr, Bool, true, false,
  not, ◌&&◌, Option, none, some, List, [], ◌∷◌, ◌++◌, length, take, drop, is_nil, leb, ltb, ◌==◌,
  if◌then◌else◌, arith, Bool-cases,
}
use csoj_judger.Prelude.Order.{Text}
use csoj_judger.Json.{obj}
use csoj_judger.AgentTools.Listing.{Library, Limits}
use csoj_judger.AgentTools.Reading.{
  ShownLine, whole_line, cut_line, read_loop, clipped, last_number, next_line, LinesRead,
  lines_read, lines_payload,
}
use csoj_judger.AgentTools.Reading.Laws.Loop.{
  numbered, IsRead, whole, cut, read_loop-IsRead, read_loop-drop,
}

last_number-numbered :
    (n : ℕ) (lines : List Text) (line : Text)
    → last_number (numbered n (line ∷ lines)) ≡ some (n + length lines)
last_number-numbered n [] line = ground arith
last_number-numbered n (l ∷ lines) line =
    let ih = last_number-numbered (suc n) lines l in ground (arith, ih)

length-take_exact : (k : ℕ) (xs : List Text) → k ≤ length xs → length (take k xs) ≡ k
length-take_exact zero xs h = refl
length-take_exact (suc k) [] h = absurd (omega (arith, h))
length-take_exact (suc k) (x ∷ xs) h = omega (arith, length-take_exact k xs (omega (arith, h)))

-- Where the next answer is to start, after `k` whole lines from `start` on: nowhere when nothing was
-- shown, when the range was shown, or when the limit of lines was.
abbrev pub continues : ℕ → ℕ → ℕ → ℕ → Option ℕ
continues start k last limit =
    if not (k == 0) && (leb (start + k) last && ltb k limit) then some (start + k) else none

next_line-numbered :
    (start k last limit : ℕ) (xs : List Text)
    → k ≤ length xs
    → 0 < start
    → start ≤ last
    → 0 < limit
    → next_line (clipped limit start last) (last_number (numbered start (take k xs)))
      ≡ continues start k last limit
next_line-numbered start zero last limit xs h p q r = refl
next_line-numbered start (suc k) last limit [] h p q r = absurd (omega (arith, h))
next_line-numbered start (suc k) last limit (x ∷ xs) h p q r =
    let e = last_number-numbered start (take k xs) x in
    let l : length (take k xs) ≡ k = length-take_exact k xs (omega (arith, h)) in
    rw e (rw l (ground (arith, p, q, r)))

-- The lines of the file from the first requested one on.
abbrev pub remaining : Library → List ℕ → ℕ → List Text
remaining lib content start = drop (start - 1) (lib.lines content)

-- The size of an answer with the first `k` of these lines, which names the next line.
abbrev pub prefix_size : Library → Text → Text → ℕ → List Text → ℕ → ℕ
prefix_size lib root_name path start rest k =
    lib.json_size
      (obj (lines_payload root_name path (numbered start (take k rest)) true (some (start + k))))

-- An answer: whole lines of the file, numbered as they stand in it, as many as fit; or the start of one
-- line, which does not fit alone.
pub data IsAnswer (lib : Library) (limits : Limits) (root_name path : Text) (start last : ℕ)
    (rest : List Text) (r : LinesRead) : Type 0 where
  whole_lines :
      (k : ℕ)
      → start + k ≤ suc last
      → k ≤ limits.max_read_lines
      → k ≤ length rest
      → ((j : ℕ)
          → j < k
          → prefix_size lib root_name path start rest (suc j) ≤ limits.max_response_bytes)
      → (start + k ≡ suc last)
        ⊎ ((k ≡ limits.max_read_lines)
            ⊎ ((k ≡ length rest)
                ⊎ ((0 < k)
                    × (k < length rest)
                    × (limits.max_response_bytes
                        < prefix_size lib root_name path start rest (suc k)))))
      → r.lines ≡ numbered start (take k rest)
      → r.next ≡ continues start k last limits.max_read_lines
      → IsAnswer lib limits root_name path start last rest r
  cut_first :
      (line : Text) (others : List Text)
      → rest ≡ line ∷ others
      → limits.max_response_bytes < prefix_size lib root_name path start rest 1
      → r.lines ≡ cut_line limits.max_response_bytes start line ∷ []
      → r.next ≡ continues start 1 last limits.max_read_lines
      → IsAnswer lib limits root_name path start last rest r

clipped_bounds :
    (limit start last : ℕ)
    → 0 < start
    → start ≤ last
    → 0 < limit
    → (start ≤ clipped limit start last)
      × (clipped limit start last ≤ last)
      × (suc (clipped limit start last) ≤ start + limit)
clipped_bounds limit start last p q r = ground arith

range_ends :
    (limit start last k : ℕ)
    → 0 < start
    → start ≤ last
    → 0 < limit
    → k ≡ suc (clipped limit start last) - start
    → (start + k ≡ suc last) ⊎ (k ≡ limit)
range_ends limit start last k p q r h = elim (Bool-cases (ltb limit ((last - start) + 1))) [
  | inl y ↦ inr (ground (arith, y, h))
  | inr n ↦ inl (ground (arith, n, h))
]

-- An answer of `read_lines` for a range, where the limit of lines is not zero, holds consecutive whole
-- lines of the file, from the first requested one on, under the numbers they have in the file. It ends only with the range, at the limit
-- of lines, at the end of the file, or before a line with which the answer would be too large; an answer
-- without lines is given only where the file ends before the range. Where the first line alone is too
-- large, and only there, the answer is a prefix of that line, marked as cut. The answer names the next
-- line to ask for exactly when it shows something, ends before the range does, and shows fewer lines
-- than the limit; so a request that was clipped to that limit is not marked.
pub lines_read-IsAnswer :
    (lib : Library) (limits : Limits) (root_name path : Text) (start last : ℕ) (content : List ℕ)
    → 0 < start
    → start ≤ last
    → 0 < limits.max_read_lines
    → IsAnswer lib limits root_name path start last
        (remaining lib content start)
        (lines_read lib limits root_name path start last content)
unfolding lines_read
lines_read-IsAnswer lib limits root_name path start last content p q r =
    let e =
      read_loop-drop fits limits.max_response_bytes start end_line (start - 1) 1 (lib.lines content)
        (omega (arith, p)) in
    go (read_loop fits limits.max_response_bytes start end_line 1 [] (lib.lines content)) (
      subst (IsRead fits limits.max_response_bytes start end_line [] (remaining lib content start))
        (sym e)
        (read_loop-IsRead fits limits.max_response_bytes start end_line start []
          (remaining lib content start) (omega arith)))
  where
    end_line : ℕ
    end_line = clipped limits.max_read_lines start last

    fits : List ShownLine → ℕ → Bool
    fits proposed number =
        leb (lib.json_size (obj (lines_payload root_name path proposed true (some (number + 1)))))
          limits.max_response_bytes

    size : ℕ → ℕ
    size = prefix_size lib root_name path start (remaining lib content start)

    size_of :
        (j : ℕ) (b : Bool)
        → fits (numbered start (take (suc j) (remaining lib content start))) (start + j) ≡ b
        → leb (size (suc j)) limits.max_response_bytes ≡ b
    size_of j b h = let n : (start + j) + 1 ≡ start + suc j = omega arith in rw n at h

    bounds : (start ≤ end_line) × (end_line ≤ last) × (suc end_line ≤ start + limits.max_read_lines)
    bounds = clipped_bounds limits.max_read_lines start last p q r

    ends : (k : ℕ) → k ≡ suc end_line - start → (start + k ≡ suc last) ⊎ (k ≡ limits.max_read_lines)
    ends k h = range_ends limits.max_read_lines start last k p q r h

    stops :
        (k : ℕ)
        → (k ≡ suc end_line - start)
          ⊎ ((k ≡ length (remaining lib content start))
              ⊎ ((0 < 0 + k)
                  × (k < length (remaining lib content start))
                  × (fits (numbered start (take (suc k) (remaining lib content start))) (start + k)
                      ≡ false)))
        → (start + k ≡ suc last)
          ⊎ ((k ≡ limits.max_read_lines)
              ⊎ ((k ≡ length (remaining lib content start))
                  ⊎ ((0 < k)
                      × (k < length (remaining lib content start))
                      × (limits.max_response_bytes < size (suc k)))))
    stops k (inl h) = elim (ends k h) [ inl x ↦ inl x | inr x ↦ inr (inl x) ]
    stops k (inr (inl h)) = inr (inr (inl h))
    stops k (inr (inr (a, b, c))) =
        let large = size_of k false c in
        inr (inr (inr (omega (arith, a), b, ground (arith, large))))

    go :
        (result : List ShownLine)
        → IsRead fits limits.max_response_bytes start end_line []
            (remaining lib content start)
            result
        → IsAnswer lib limits root_name path start last
            (remaining lib content start)
            (record { lines = result; next = next_line end_line (last_number result) })
    go result (whole k a b c d e) =
        whole_lines k (omega (arith, a, bounds.0, bounds.1)) (omega (arith, a, bounds.2)) b
          (λ j h. let small = size_of j true (c j h) in ground (arith, small)) (stops k d) e
          (subst
            (λ x. next_line end_line (last_number x) ≡ continues start k last limits.max_read_lines)
            (sym e)
            (next_line-numbered start k last limits.max_read_lines (remaining lib content start) b p
              q r))
    go result (cut line others e f g i h) =
        let i' : fits (numbered start (take 1 (line ∷ others))) (start + 0) ≡ false =
          let n : start + 0 ≡ start = omega arith in rw n i in
        let large =
          size_of 0 false
            (subst (λ x. fits (numbered start (take 1 x)) (start + 0) ≡ false) (sym f) i') in
        cut_first line others f (ground (arith, large)) h (
          subst
            (λ x. next_line end_line (last_number x) ≡ continues start 1 last limits.max_read_lines)
            (sym h) (ground (arith, p, q, r)))
