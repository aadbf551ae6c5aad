-- ===== src/SubmissionStore/Pattern/Matching.antt =====
-- The matcher of submission patterns decides the meaning of the expression, and a pattern's single
-- stars never cross a directory.
use csoj_judger.Prelude.{
  ℕ, suc, ◌+◌, ◌≡◌, refl, ◌↔◌, ◌≢◌, not, ◌&&◌, ◌||◌, ◌⊎◌, inl, inr, Bool, true, false, List, [],
  ◌∷◌, arith, ◌==◌, Bool-cases, if◌then◌else◌,
}
use csoj_judger.Prelude.Order.{Text}
use csoj_judger.SubmissionStore.Pattern.{
  Item, any_text, segment_text, segment_char, literal, newline, translate, full_match, is_refused,
  matches_submission_pattern,
}

-- What an expression matches, by the usual rules.
pub data Matches : List Item → Text → Type 0 where
  done : Matches [] []
  any_stop : {e : List Item} {s : Text} → Matches e s → Matches (any_text ∷ e) s
  any_more :
      {e : List Item} {c : ℕ} {s : Text}
      → c ≢ newline
      → Matches (any_text ∷ e) s
      → Matches (any_text ∷ e) (c ∷ s)
  segment_stop : {e : List Item} {s : Text} → Matches e s → Matches (segment_text ∷ e) s
  segment_more :
      {e : List Item} {c : ℕ} {s : Text}
      → c ≢ b'/'
      → Matches (segment_text ∷ e) s
      → Matches (segment_text ∷ e) (c ∷ s)
  one_char :
      {e : List Item} {c : ℕ} {s : Text}
      → c ≢ b'/'
      → Matches e s
      → Matches (segment_char ∷ e) (c ∷ s)
  exactly :
      {e : List Item} {c d : ℕ} {s : Text} → c ≡ d → Matches e s → Matches (literal d ∷ e) (c ∷ s)

ne_of_test : (a b : ℕ) → (a == b) ≡ false → a ≢ b
ne_of_test a b h e = ground arith

or-cases : (a b c : Bool) → (a || (not b && c)) ≡ true → (a ≡ true) ⊎ ((b ≡ false) × (c ≡ true))
or-cases a b c h = ground arith

full_match_sound : (e : List Item) (s : Text) → full_match e s ≡ true → Matches e s
unfolding full_match
full_match_sound [] [] h = done
full_match_sound [] (c ∷ s) h = cc
full_match_sound (any_text ∷ e) [] h = any_stop (full_match_sound e [] h)
full_match_sound (any_text ∷ e) (c ∷ s) h =
    elim (or-cases (full_match e (c ∷ s)) (c == newline) (full_match (any_text ∷ e) s) h) [
      | inl p ↦ any_stop (full_match_sound e (c ∷ s) p)
      | inr p ↦ any_more (ne_of_test c newline p.0) (full_match_sound (any_text ∷ e) s p.1)
    ]
full_match_sound (segment_text ∷ e) [] h = segment_stop (full_match_sound e [] h)
full_match_sound (segment_text ∷ e) (c ∷ s) h =
    elim (or-cases (full_match e (c ∷ s)) (c == b'/') (full_match (segment_text ∷ e) s) h) [
      | inl p ↦ segment_stop (full_match_sound e (c ∷ s) p)
      | inr p ↦ segment_more (ne_of_test c b'/' p.0) (full_match_sound (segment_text ∷ e) s p.1)
    ]
full_match_sound (segment_char ∷ e) [] h = cc
full_match_sound (segment_char ∷ e) (c ∷ s) h =
    one_char (ne_of_test c b'/' (ground arith)) (full_match_sound e s (ground arith))
full_match_sound (literal d ∷ e) [] h = cc
full_match_sound (literal d ∷ e) (c ∷ s) h =
    exactly (ground arith) (full_match_sound e s (ground arith))

-- A star that stops matches what the rest matches.
stop :
    (i : Item) (e : List Item) (s : Text)
    → (i ≡ any_text) ⊎ (i ≡ segment_text)
    → full_match e s ≡ true
    → full_match (i ∷ e) s ≡ true
unfolding full_match
stop any_text e [] h k = k
stop any_text e (c ∷ s) h k = ground arith
stop segment_text e [] h k = k
stop segment_text e (c ∷ s) h k = ground arith
stop segment_char e s h k = absurd (ground arith)
stop (literal d) e s h k = absurd (ground arith)

full_match_complete : {e : List Item} {s : Text} → Matches e s → full_match e s ≡ true
unfolding full_match
full_match_complete done = refl
full_match_complete (any_stop {e = e} {s = s} m) =
    stop any_text e s (inl refl) (full_match_complete m)
full_match_complete (any_more h m) = ground (arith, full_match_complete m)
full_match_complete (segment_stop {e = e} {s = s} m) =
    stop segment_text e s (inr refl) (full_match_complete m)
full_match_complete (segment_more h m) = ground (arith, full_match_complete m)
full_match_complete (one_char h m) = ground (arith, full_match_complete m)
full_match_complete (exactly h m) = ground (arith, full_match_complete m)

-- A path is accepted exactly when the pattern is not refused by the guard and its expression
-- matches the whole path: `**` any text without a newline, `*` any text without a slash, `?` one
-- character but a slash, and every other character itself.
pub matches_submission_pattern_iff :
    (path pattern : Text)
    → (matches_submission_pattern path pattern ≡ true)
      ↔ ((is_refused pattern ≡ false) × Matches (translate pattern) path)
unfolding matches_submission_pattern
matches_submission_pattern_iff path pattern = elim (Bool-cases (is_refused pattern)) [
  | inl p ↦ (λ h. absurd (cc (rw p at h)), λ h. absurd (cc (p, h.0)))
  | inr p ↦ (
    λ h. (p, full_match_sound (translate pattern) path (rw p at h)),
    λ h. rw p (full_match_complete h.1),
  )
]

-- The number of slashes in a text.
abbrev pub depth : Text → ℕ
depth [] = 0
depth (c ∷ s) = let rest = depth s in if c == b'/' then suc rest else rest

abbrev pub item_depth : Item → ℕ
item_depth (literal d) = if d == b'/' then 1 else 0
item_depth _ = 0

abbrev pub expression_depth : List Item → ℕ
expression_depth [] = 0
expression_depth (i ∷ e) = item_depth i + expression_depth e

abbrev pub has_any : List Item → Bool
has_any [] = false
has_any (any_text ∷ e) = true
has_any (_ ∷ e) = has_any e

Matches-depth :
    {e : List Item} {s : Text} → Matches e s → has_any e ≡ false → depth s ≡ expression_depth e
Matches-depth done h = refl
Matches-depth (any_stop m) h = absurd (cc h)
Matches-depth (any_more n m) h = absurd (cc h)
Matches-depth (segment_stop m) h = omega (arith, Matches-depth m h)
Matches-depth (segment_more n m) h = ground (arith, Matches-depth m h)
Matches-depth (one_char n m) h = ground (arith, Matches-depth m h)
Matches-depth (exactly e m) h = ground (arith, Matches-depth m h)

-- Whether two stars stand side by side.
abbrev pub has_double_star : Text → Bool
has_double_star [] = false
has_double_star (c ∷ []) = false
has_double_star (c ∷ d ∷ s) = (c == b'*' && d == b'*') || has_double_star (d ∷ s)

translate_plain :
    (pattern : Text)
    → has_double_star pattern ≡ false
    → (has_any (translate pattern) ≡ false) × (expression_depth (translate pattern) ≡ depth pattern)
unfolding translate
translate_plain [] h = (refl, refl)
translate_plain (c ∷ []) h = (ground arith, ground arith)
translate_plain (c ∷ d ∷ s) h =
    let ih : (has_any (translate (d ∷ s)) ≡ false)
        × (expression_depth (translate (d ∷ s)) ≡ depth (d ∷ s)) =
      translate_plain (d ∷ s) (ground arith) in
    (ground arith, ground arith)

-- A pattern without `**` matches only paths of its own depth: `*` and `?` never match a slash.
pub star_keeps_depth :
    (path pattern : Text)
    → has_double_star pattern ≡ false
    → matches_submission_pattern path pattern ≡ true
    → depth path ≡ depth pattern
star_keeps_depth path pattern plain h =
    let (quiet, same) = translate_plain pattern plain in
    omega (arith, Matches-depth ((matches_submission_pattern_iff path pattern).0 h).1 quiet, same)
