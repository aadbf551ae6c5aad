-- ===== src/SubmissionStore/Paths/Safety.antt =====
-- Which manifest paths are accepted, and what their parts are.
use csoj_judger.Prelude.{
  ℕ, ◌≡◌, refl, subst, sym, ◌∙◌, ap, ◌↔◌, false, List, [], ◌∷◌, any, is_nil, arith, ◌==◌,
}
use csoj_judger.Prelude.Order.{Text}
use csoj_judger.Prelude.Result.{ok}
use csoj_judger.Prelude.Text.{split, join, contains, starts_with_char}
use csoj_judger.Prelude.Text.Split.{
  split-ne-nil, join-split, any-contains-split, split-join, contains-join,
}
use csoj_judger.SubmissionStore.Paths.{is_special, is_unsafe, safe_path_parts}

-- There is a part; none is empty, `.` or `..`, or holds a slash, a backslash or a NUL.
pub record AreSafe (parts : List Text) : Type 0 where
  pub present : is_nil parts ≡ false
  pub ordinary : any is_special parts ≡ false
  pub no_slash : any (contains b'/') parts ≡ false
  pub no_backslash : any (contains b'\\') parts ≡ false
  pub no_nul : any (contains 0) parts ≡ false

accepted :
    (path : Text) (parts : List Text)
    → safe_path_parts path ≡ ok parts
    → (is_unsafe path ≡ false)
      × (any is_special (split b'/' path) ≡ false)
      × (split b'/' path ≡ parts)
unfolding safe_path_parts
accepted path parts h = ground arith

-- Where the first part is neither empty nor holds a slash, the joined path is not absolute.
relative :
    (parts : List Text)
    → is_nil parts ≡ false
    → any is_special parts ≡ false
    → any (contains b'/') parts ≡ false
    → (is_nil (join b'/' parts) ≡ false) × (starts_with_char b'/' (join b'/' parts) ≡ false)
relative [] h s k = absurd (cc h)
relative ([] ∷ ps) h s k = absurd (cc s)
relative ((c ∷ p) ∷ []) h s k = (refl, ground arith)
relative ((c ∷ p) ∷ q ∷ ps) h s k = (refl, ground arith)

lacks :
    (c : ℕ) (path : Text)
    → (b'/' == c) ≡ false
    → contains c path ≡ false
    → any (contains c) (split b'/' path) ≡ false
lacks c path d h =
    sym (contains-join c b'/' (split b'/' path) d) ∙ ap (contains c) (join-split b'/' path) ∙ h

split-AreSafe :
    (path : Text)
    → is_unsafe path ≡ false
    → any is_special (split b'/' path) ≡ false
    → AreSafe (split b'/' path)
split-AreSafe path u s = record {
  present = split-ne-nil b'/' path;
  ordinary = s;
  no_slash = any-contains-split b'/' path;
  no_backslash = lacks b'\\' path refl (ground arith);
  no_nul = lacks 0 path refl (ground arith);
}

join_is_safe : (parts : List Text) → AreSafe parts → is_unsafe (join b'/' parts) ≡ false
join_is_safe parts safe =
    let (there, relative') = relative parts safe.present safe.ordinary safe.no_slash in
    ground (
      arith,
      there,
      relative',
      contains-join b'\\' b'/' parts refl,
      contains-join 0 b'/' parts refl,
      safe.no_backslash,
      safe.no_nul,
    )

-- A manifest path is accepted with some parts exactly when the parts are safe and, joined by
-- slashes, are the path.
pub safe_path_parts_iff :
    (path : Text) (parts : List Text)
    → (safe_path_parts path ≡ ok parts) ↔ (AreSafe parts × (join b'/' parts ≡ path))
unfolding safe_path_parts
safe_path_parts_iff path parts = (forth, back)
  where
    forth : safe_path_parts path ≡ ok parts → AreSafe parts × (join b'/' parts ≡ path)
    forth h =
        let (u, s, e) = accepted path parts h in
        subst (λ l. AreSafe l × (join b'/' l ≡ path)) e
          (split-AreSafe path u s, join-split b'/' path)

    back : AreSafe parts × (join b'/' parts ≡ path) → safe_path_parts path ≡ ok parts
    back (safe, e) =
        let same : split b'/' (join b'/' parts) ≡ parts =
          split-join b'/' parts safe.present safe.no_slash in
        subst (λ p. safe_path_parts p ≡ ok parts) e
          (rw (join_is_safe parts safe) (rw (same, safe.ordinary)))
