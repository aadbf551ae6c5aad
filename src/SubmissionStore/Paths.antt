-- ===== src/SubmissionStore/Paths.antt =====
-- The path rules of src/oj_checker/submission_store.py: manifest paths, submission ids, and which
-- names are sources.
pub mod Safety
use csoj_judger.Prelude.{
  ℕ, suc, ◌-◌, Bool, true, false, not, ◌&&◌, ◌||◌, Option, none, some, List, [], ◌∷◌, any, is_nil,
  leb, ◌==◌, if◌then◌else◌, reverse,
}
use csoj_judger.Prelude.Order.{Text, text, ◌===◌, list_ord, nat_ord}
use csoj_judger.Prelude.Result.{Result, ok, err, ◌>>=◌, ◌>>◌, raise_if}
use csoj_judger.Prelude.Text.{split, contains, starts_with_char}
use csoj_judger.SubmissionStore.Base.{StoreError, unsafe_submission_path, SourcePolicy, lower}

-- `part in {"", ".", ".."}`.
abbrev pub is_special : Text → Bool
is_special part = is_nil part || part === text "." || part === text ".."

-- What a path must not hold, before it is split.
abbrev pub is_unsafe : Text → Bool
is_unsafe path = is_nil path || starts_with_char b'/' path || contains b'\\' path || contains 0 path

unfoldable pub safe_path_parts : Text → Result StoreError (List Text)
safe_path_parts path =
    if is_unsafe path
    then err unsafe_submission_path
    else if any is_special (split b'/' path)
    then err unsafe_submission_path
    else ok (split b'/' path)

abbrev pub is_hex : ℕ → Bool
is_hex c = (leb b'0' c && leb c b'9') || (leb b'a' c && leb c b'f')

-- `n` hexadecimal digits, and a hyphen after each group but the last.
abbrev pub hex_groups : List ℕ → ℕ → Text → Bool
hex_groups [] n [] = n == 0
hex_groups [] n (c ∷ s) = not (n == 0) && (is_hex c && hex_groups [] (n - 1) s)
hex_groups (g ∷ gs) n [] = false
hex_groups (g ∷ gs) n (c ∷ s) =
    if n == 0 then c == b'-' && hex_groups gs g s else is_hex c && hex_groups (g ∷ gs) (n - 1) s

-- Whether `str(UUID(s)) == s`: the canonical form is 8-4-4-4-12 lower-case digits.
unfoldable pub is_canonical_uuid : Text → Bool
is_canonical_uuid s = hex_groups (4 ∷ 4 ∷ 4 ∷ 12 ∷ []) 8 s

unfoldable pub validate_submission_id : Text → Result StoreError (Unit {0})
unfolding is_canonical_uuid
validate_submission_id s = raise_if (not (is_canonical_uuid (lower s))) unsafe_submission_path

-- `s.rsplit(c, 1)[-1]` and `s[s.rfind(c):]`, each on the reversed text.
abbrev pub until : ℕ → Text → Text
until c [] = []
until c (d ∷ s) = let rest = until c s in if d == c then [] else d ∷ rest

abbrev pub base_name : Text → Text
base_name path = reverse (until b'/' (reverse path))

-- `Path(name).suffix`: from the last dot, if it is neither the first nor the last character.
abbrev pub after : ℕ → Text → Option Text
after c [] = none
after c (d ∷ s) = let rest = after c s in if d == c then some s else rest

abbrev pub suffix_of : Text → Option Text → Text
suffix_of ext none = []
suffix_of [] (some stem) = []
suffix_of ext (some []) = []
suffix_of ext (some (c ∷ stem)) = b'.' ∷ reverse ext

unfoldable pub suffix : Text → Text
suffix name = suffix_of (until b'.' (reverse name)) (after b'.' (reverse name))
