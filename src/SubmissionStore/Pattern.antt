-- ===== src/SubmissionStore/Pattern.antt =====
-- `matches_submission_pattern` of src/oj_checker/submission_store.py. The regular expression that it
-- builds is a list of items, and `re.fullmatch` on such an expression is a recursion on both.
pub mod Matching
pub mod Globs
use csoj_judger.Prelude.{
  ℕ, Bool, true, false, not, ◌&&◌, ◌||◌, List, [], ◌∷◌, any, is_nil, ◌==◌, if◌then◌else◌,
}
use csoj_judger.Prelude.Order.{Text}
use csoj_judger.Prelude.Text.{split, contains, starts_with_char}
use csoj_judger.SubmissionStore.Paths.{is_special}

-- `.*`, `[^/]*`, `[^/]` and an escaped character. A dot matches no newline.
pub data Item : Type 0 where
  any_text segment_text segment_char : Item
  literal : ℕ → Item

-- The `while` loop that translates the pattern.
unfoldable pub translate : Text → List Item
translate [] = []
translate (c ∷ []) =
    (if c == b'*' then segment_text else if c == b'?' then segment_char else literal c) ∷ []
translate (c ∷ d ∷ s) =
    let rest = translate s in
    let next = translate (d ∷ s) in
    if c == b'*' && d == b'*'
    then any_text ∷ rest
    else if c == b'*'
    then segment_text ∷ next
    else if c == b'?'
    then segment_char ∷ next
    else literal c ∷ next

abbrev pub newline : ℕ
newline = 10

-- `re.fullmatch(expression, path) is not None`.
unfoldable pub full_match : List Item → Text → Bool
full_match [] [] = true
full_match [] (c ∷ s) = false
full_match (any_text ∷ e) [] = full_match e []
full_match (any_text ∷ e) (c ∷ s) =
    full_match e (c ∷ s) || (not (c == newline) && full_match (any_text ∷ e) s)
full_match (segment_text ∷ e) [] = full_match e []
full_match (segment_text ∷ e) (c ∷ s) =
    full_match e (c ∷ s) || (not (c == b'/') && full_match (segment_text ∷ e) s)
full_match (segment_char ∷ e) [] = false
full_match (segment_char ∷ e) (c ∷ s) = not (c == b'/') && full_match e s
full_match (literal d ∷ e) [] = false
full_match (literal d ∷ e) (c ∷ s) = c == d && full_match e s

-- The guard: an absolute pattern, or one with an empty or dotted part, matches nothing.
abbrev pub is_refused : Text → Bool
is_refused pattern =
    is_nil pattern
    || starts_with_char b'/' pattern
    || contains b'\\' pattern
    || contains 0 pattern
    || any is_special (split b'/' pattern)

unfoldable pub matches_submission_pattern : Text → Text → Bool
matches_submission_pattern path pattern =
    if is_refused pattern then false else full_match (translate pattern) path
