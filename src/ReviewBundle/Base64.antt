-- ===== src/ReviewBundle/Base64.antt =====
-- `base64.urlsafe_b64decode` of unpadded texts, as src/oj_checker/review_bundle.py calls it.
use csoj_judger.Prelude.{
  ℕ, ◌+◌, ◌-◌, ◌*◌, ◌/◌, ◌%◌, Bool, not, ◌&&◌, ◌||◌, Option, none, some, List, [], ◌∷◌, map, all,
  is_nil, leb, ◌==◌, if◌then◌else◌,
}
use csoj_judger.Prelude.Order.{Text}
use csoj_judger.Prelude.Result.{Result, ok, err}
use csoj_judger.ReviewBundle.Checks.{BundleError}

abbrev pub is_alphanumeric : ℕ → Bool
is_alphanumeric c =
    (leb b'A' c && leb c b'Z') || (leb b'a' c && leb c b'z') || (leb b'0' c && leb c b'9')

-- `_B64URL`.
abbrev pub is_b64url : ℕ → Bool
is_b64url c = is_alphanumeric c || c == b'_' || c == b'-'

-- The six bits of a character of the alphabet.
abbrev pub six_bits : ℕ → ℕ
six_bits c =
    if leb b'A' c && leb c b'Z'
    then c - b'A'
    else if leb b'a' c && leb c b'z'
    then 26 + (c - b'a')
    else if leb b'0' c && leb c b'9'
    then 52 + (c - b'0')
    else if c == b'-'
    then 62
    else 63

-- Four characters give three bytes; two or three at the end, one or two. One alone is an error.
unfoldable pub decode_groups : List ℕ → Option (List ℕ)
decode_groups [] = some []
decode_groups (a ∷ []) = none
decode_groups (a ∷ b ∷ []) = some ((a * 4 + b / 16) ∷ [])
decode_groups (a ∷ b ∷ c ∷ []) = some ((a * 4 + b / 16) ∷ (b % 16 * 16 + c / 4) ∷ [])
decode_groups (a ∷ b ∷ c ∷ d ∷ rest) = elim (decode_groups rest) [
  | none ↦ none
  | some bytes ↦ some ((a * 4 + b / 16) ∷ (b % 16 * 16 + c / 4) ∷ (c % 4 * 64 + d) ∷ bytes)
]

abbrev pub decoded : Option (List ℕ) → Result BundleError (List ℕ)
decoded none = err BundleError.bad_base64
decoded (some bytes) = ok bytes

-- `_decode_b64url`; the alphabet has no `=`.
unfoldable pub decode_b64url : Text → Result BundleError (List ℕ)
decode_b64url s =
    if is_nil s || not (all is_b64url s)
    then err BundleError.bad_base64
    else decoded (decode_groups (map six_bits s))
