-- ===== src/SubmissionStore/Pattern/Globs.antt =====
-- What a submission pattern matches, told on the text of the pattern.
use csoj_judger.Prelude.{
  ℕ, ◌≡◌, refl, sym, subst, ◌≢◌, ◌↔◌, true, false, List, [], ◌∷◌, any, ◌==◌, Bool-cases, ◌⊎◌, inl,
  inr, arith,
}
use csoj_judger.Prelude.Order.{Text, nat_ord, list_ord}
use csoj_judger.Prelude.Result.{ok}
use csoj_judger.Prelude.Text.{split, join}
use csoj_judger.SubmissionStore.Paths.{safe_path_parts, is_unsafe, is_special}
use csoj_judger.SubmissionStore.Paths.Safety.{AreSafe, safe_path_parts_iff}
use csoj_judger.SubmissionStore.Pattern.{
  Item, any_text, segment_text, segment_char, literal, newline, translate, is_refused,
  matches_submission_pattern,
}
use csoj_judger.SubmissionStore.Pattern.Matching.{Matches, matches_submission_pattern_iff}

-- No star comes next.
abbrev pub NoStar : Text → Type 0
NoStar pattern = (rest : Text) → pattern ≢ b'*' ∷ rest

-- `**` matches any text without a newline, a star that is not one of two any text without a slash, `?`
-- one character but a slash, and any other character itself.
pub data IsGlob : Text → Text → Type 0 where
  ended : IsGlob [] []
  double_stop : {p s : Text} → IsGlob p s → IsGlob (b'*' ∷ b'*' ∷ p) s
  double_more :
      {p s : Text} {c : ℕ}
      → c ≢ newline
      → IsGlob (b'*' ∷ b'*' ∷ p) s
      → IsGlob (b'*' ∷ b'*' ∷ p) (c ∷ s)
  star_stop : {p s : Text} → NoStar p → IsGlob p s → IsGlob (b'*' ∷ p) s
  star_more :
      {p s : Text} {c : ℕ} → NoStar p → c ≢ b'/' → IsGlob (b'*' ∷ p) s → IsGlob (b'*' ∷ p) (c ∷ s)
  question : {p s : Text} {c : ℕ} → c ≢ b'/' → IsGlob p s → IsGlob (b'?' ∷ p) (c ∷ s)
  itself : {p s : Text} {c : ℕ} → c ≢ b'*' → c ≢ b'?' → IsGlob p s → IsGlob (c ∷ p) (c ∷ s)

ne_of_test : (a b : ℕ) → (a == b) ≡ false → a ≢ b
ne_of_test a b h e = ground arith

test_of_ne : (a b : ℕ) → a ≢ b → (a == b) ≡ false
test_of_ne a b h = ground (arith, h)

translate_star : (p : Text) → NoStar p → translate (b'*' ∷ p) ≡ segment_text ∷ translate p
unfolding translate
translate_star [] h = refl
translate_star (d ∷ p) h =
    let e : (d == b'*') ≡ false =
      test_of_ne d b'*' (λ e. h p (subst (λ x. d ∷ p ≡ x ∷ p) e refl)) in
    rw e refl

translate_question : (p : Text) → translate (b'?' ∷ p) ≡ segment_char ∷ translate p
unfolding translate
translate_question [] = refl
translate_question (d ∷ p) = refl

translate_itself :
    (c : ℕ) (p : Text)
    → (c == b'*') ≡ false
    → (c == b'?') ≡ false
    → translate (c ∷ p) ≡ literal c ∷ translate p
unfolding translate
translate_itself c [] a b = rw (a, b) refl
translate_itself c (d ∷ p) a b = rw (a, b) refl

Matches-IsGlob : {p s : Text} → IsGlob p s → Matches (translate p) s
unfolding translate
Matches-IsGlob ended = Matches.done
Matches-IsGlob (double_stop g) = Matches.any_stop (Matches-IsGlob g)
Matches-IsGlob (double_more n g) = Matches.any_more n (Matches-IsGlob g)
Matches-IsGlob (star_stop {p = p} {s = s} n g) =
    subst (λ e. Matches e s) (sym (translate_star p n)) (Matches.segment_stop (Matches-IsGlob g))
Matches-IsGlob (star_more {p = p} {s = s} {c = c} n d g) =
    let rest = subst (λ e. Matches e s) (translate_star p n) (Matches-IsGlob g) in
    subst (λ e. Matches e (c ∷ s)) (sym (translate_star p n)) (Matches.segment_more d rest)
Matches-IsGlob (question {p = p} {s = s} {c = c} d g) =
    subst (λ e. Matches e (c ∷ s)) (sym (translate_question p))
      (Matches.one_char d (Matches-IsGlob g))
Matches-IsGlob (itself {p = p} {s = s} {c = c} a b g) =
    subst (λ e. Matches e (c ∷ s))
      (sym (translate_itself c p (test_of_ne c b'*' a) (test_of_ne c b'?' b)))
      (Matches.exactly refl (Matches-IsGlob g))

-- The same for each of the four items.
double_of :
    (p : Text) (e : List Item) {s : Text}
    → Matches (any_text ∷ e) s
    → ((t : Text) → Matches e t → IsGlob p t)
    → IsGlob (b'*' ∷ b'*' ∷ p) s
double_of p e (Matches.any_stop {s = s} m) f = double_stop (f s m)
double_of p e (Matches.any_more n m) f = double_more n (double_of p e m f)

star_of :
    (p : Text) (e : List Item) {s : Text}
    → NoStar p
    → Matches (segment_text ∷ e) s
    → ((t : Text) → Matches e t → IsGlob p t)
    → IsGlob (b'*' ∷ p) s
star_of p e n (Matches.segment_stop {s = s} m) f = star_stop n (f s m)
star_of p e n (Matches.segment_more d m) f = star_more n d (star_of p e n m f)

question_of :
    (p : Text) (e : List Item) {s : Text}
    → Matches (segment_char ∷ e) s
    → ((t : Text) → Matches e t → IsGlob p t)
    → IsGlob (b'?' ∷ p) s
question_of p e (Matches.one_char {s = s} d m) f = question d (f s m)

itself_of :
    (c : ℕ) (p : Text) (e : List Item) {s : Text}
    → (c == b'*') ≡ false
    → (c == b'?') ≡ false
    → Matches (literal c ∷ e) s
    → ((t : Text) → Matches e t → IsGlob p t)
    → IsGlob (c ∷ p) s
itself_of c p e a b (Matches.exactly {s = s} same m) f =
    subst (λ x. IsGlob (c ∷ p) (x ∷ s)) (sym same)
      (itself (ne_of_test c b'*' a) (ne_of_test c b'?' b) (f s m))

-- A character that starts no `**`.
single_of :
    (c : ℕ) (p s : Text)
    → ((c ≡ b'*') → NoStar p)
    → Matches (translate (c ∷ p)) s
    → ((t : Text) → Matches (translate p) t → IsGlob p t)
    → IsGlob (c ∷ p) s
single_of c p s n m f = elim (Bool-cases (c == b'*')) [
  | inl y ↦
      let e : c ≡ b'*' = ground (arith, y) in
      let m' = subst (λ x. Matches (translate (x ∷ p)) s) e m in
      subst (λ x. IsGlob (x ∷ p) s) (sym e)
        (star_of p (translate p) (n e) (subst (λ x. Matches x s) (translate_star p (n e)) m') f)
  | inr a ↦ elim (Bool-cases (c == b'?')) [
    | inl y ↦
        let e : c ≡ b'?' = ground (arith, y) in
        let m' = subst (λ x. Matches (translate (x ∷ p)) s) e m in
        subst (λ x. IsGlob (x ∷ p) s) (sym e)
          (question_of p (translate p) (subst (λ x. Matches x s) (translate_question p) m') f)
    | inr b ↦
        itself_of c p (translate p) a b (subst (λ x. Matches x s) (translate_itself c p a b) m) f
  ]
]

IsGlob-Matches : (p s : Text) → Matches (translate p) s → IsGlob p s
unfolding translate
IsGlob-Matches [] [] m = ended
IsGlob-Matches [] (c ∷ s) m = elim m [ ]
IsGlob-Matches (c ∷ []) s m =
    single_of c [] s (λ e rest h. absurd (cc h)) m (λ t. IsGlob-Matches [] t)
IsGlob-Matches (c ∷ d ∷ p) s m =
    split_stars (λ t. IsGlob-Matches p t) (λ t. IsGlob-Matches (d ∷ p) t) (Bool-cases (c == b'*'))
      (Bool-cases (d == b'*'))
  where
    split_stars :
        ((t : Text) → Matches (translate p) t → IsGlob p t)
        → ((t : Text) → Matches (translate (d ∷ p)) t → IsGlob (d ∷ p) t)
        → ((c == b'*') ≡ true) ⊎ ((c == b'*') ≡ false)
        → ((d == b'*') ≡ true) ⊎ ((d == b'*') ≡ false)
        → IsGlob (c ∷ d ∷ p) s
    split_stars f g (inl y) (inl z) =
        let e : c ≡ b'*' = ground (arith, y) in
        let h : d ≡ b'*' = ground (arith, z) in
        let m' = subst (λ x. Matches (translate (x ∷ d ∷ p)) s) e m in
        let m'' = subst (λ x. Matches (translate (b'*' ∷ x ∷ p)) s) h m' in
        subst (λ x. IsGlob (x ∷ d ∷ p) s) (sym e)
          (subst (λ x. IsGlob (b'*' ∷ x ∷ p) s) (sym h) (double_of p (translate p) m'' f))
    split_stars f g (inl y) (inr n) =
        single_of c (d ∷ p) s (λ e rest same. ne_of_test d b'*' n (cc same)) m g
    split_stars f g (inr n) z =
        single_of c (d ∷ p) s (λ e rest same. absurd (ne_of_test c b'*' n e)) m g

-- The pattern is the join of safe parts: it is no absolute path and has no backslash, no NUL, and no
-- part that is empty, `.` or `..`.
abbrev pub IsSafePattern : Text → Type 0
IsSafePattern pattern = (parts : List Text) × AreSafe parts × (join b'/' parts ≡ pattern)

refused_iff : (pattern : Text) → (is_refused pattern ≡ false) ↔ IsSafePattern pattern
unfolding safe_path_parts
refused_iff pattern = (
  λ h.
      let a : is_unsafe pattern ≡ false = ground (arith, h) in
      let b : any is_special (split b'/' pattern) ≡ false = ground (arith, h) in
      let safe : safe_path_parts pattern ≡ ok (split b'/' pattern) = rw a (rw b refl) in
      let (parts, whole) = (safe_path_parts_iff pattern (split b'/' pattern)).0 safe in
      (split b'/' pattern, parts, whole),
  λ (parts, known, whole).
      let safe = (safe_path_parts_iff pattern parts).1 (known, whole) in
      accepted (Bool-cases (is_unsafe pattern)) (Bool-cases (any is_special (split b'/' pattern)))
        parts safe,
)
  where
    accepted :
        (is_unsafe pattern ≡ true) ⊎ (is_unsafe pattern ≡ false)
        → (any is_special (split b'/' pattern) ≡ true)
          ⊎ (any is_special (split b'/' pattern) ≡ false)
        → (parts : List Text) → safe_path_parts pattern ≡ ok parts
        → is_refused pattern ≡ false
    accepted (inl y) z parts h = absurd (cc (rw y at h))
    accepted (inr n) (inl y) parts h = absurd (cc (rw (n, y) at h))
    accepted (inr n) (inr m) parts h = ground (arith, n, m)

-- A path is accepted exactly when the pattern is the join of safe parts and matches the whole path:
-- `**` any text without a newline, a single `*` any text without a slash, `?` one character but a
-- slash, and every other character itself.
pub matches_submission_pattern-IsGlob :
    (path pattern : Text)
    → (matches_submission_pattern path pattern ≡ true)
      ↔ (IsSafePattern pattern × IsGlob pattern path)
matches_submission_pattern-IsGlob path pattern =
    let (forth, back) = matches_submission_pattern_iff path pattern in
    (
      λ h. let (a, b) = forth h in ((refused_iff pattern).0 a, IsGlob-Matches pattern path b),
      λ (a, b). back ((refused_iff pattern).1 a, Matches-IsGlob b),
    )
