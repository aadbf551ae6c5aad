-- ===== src/Similarity/Shingles.antt =====
-- `_delta_shingles`, `_jaccard` and `_minhash_signature` of src/oj_checker/similarity.py. A frozenset
-- is a list without repetitions. `find_tokens` stands for `findall` of the compiled token pattern and
-- `blake2b` for the 8-byte digest of a text as a number; both are the standard library's.
pub mod Symmetry
use csoj_judger.Prelude.{
  ℕ, zero, suc, ◌+◌, ◌-◌, ◌*◌, ◌%◌, ◌≤◌, ◌≡◌, refl, ap, min, Bool, true, false, not, ◌&&◌, ◌||◌,
  Option, none, some, List, [], ◌∷◌, ◌++◌, map, length, take, drop, is_nil, keep, ltb, ◌==◌,
  if◌then◌else◌, arith, Bool-cases, inl, inr,
}
use csoj_judger.Prelude.Order.{Text, text, ◌===◌, ===_iff, nat_ord, list_ord}
use csoj_judger.Similarity.Data.{BaselineDeltaFile, BaselineDelta, SimilarityPolicy, Fraction}

abbrev pub Shingle : Type 0
Shingle = List Text

abbrev pub has : List Shingle → Shingle → Bool
has [] x = false
has (y ∷ ys) x = y === x || has ys x

-- `frozenset(xs)`.
unfoldable pub to_set : List Shingle → List Shingle
to_set [] = []
to_set (x ∷ xs) = let rest = to_set xs in if has rest x then rest else x ∷ rest

abbrev pub file_tokens : Text → List Text → List Text
file_tokens path [] = []
file_tokens path (t ∷ ts) = text "__file__" ∷ path ∷ t ∷ ts

-- The tokens of the added texts, each file's behind a mark and its path.
unfoldable pub delta_tokens : (Text → List Text) → List BaselineDeltaFile → List Text
delta_tokens find_tokens [] = []
delta_tokens find_tokens (f ∷ fs) =
    file_tokens f.path (find_tokens f.added_text) ++ delta_tokens find_tokens fs

-- The `count` windows of `size` tokens.
abbrev pub windows : ℕ → ℕ → List Text → List Shingle
windows zero size tokens = []
windows (suc count) size [] = []
windows (suc count) size (t ∷ ts) = take size (t ∷ ts) ∷ windows count size ts

abbrev pub shingles_of : ℕ → List Text → List Shingle
shingles_of size tokens =
    if is_nil tokens
    then []
    else if ltb (length tokens) size
    then tokens ∷ []
    else to_set (windows (length tokens + 1 - size) size tokens)

unfoldable pub delta_shingles : (Text → List Text) → BaselineDelta → SimilarityPolicy → List Shingle
unfolding delta_tokens to_set
delta_shingles find_tokens delta policy =
    shingles_of policy.shingle_size (delta_tokens find_tokens delta.files)

-- `first & second` and `first | second`, on lists without repetitions.
abbrev pub meet : List Shingle → List Shingle → List Shingle
meet xs ys = keep (λ x. has ys x) xs

abbrev pub join_sets : List Shingle → List Shingle → List Shingle
join_sets xs ys = xs ++ keep (λ y. not (has xs y)) ys

unfoldable pub jaccard : List Shingle → List Shingle → Fraction
jaccard first second =
    if is_nil (join_sets first second)
    then record { num = 0; den = 1 }
    else record { num = length (meet first second); den = length (join_sets first second) }

abbrev pub minhash_prime : ℕ
minhash_prime = 18446744073709551557

abbrev pub or_one : ℕ → ℕ
or_one n = if n == 0 then 1 else n

abbrev pub multiplier : ℕ → ℕ
multiplier index = or_one ((0x9E3779B185EBCA87 * (index + 1)) % minhash_prime)

abbrev pub offset : ℕ → ℕ
offset index = (0xC2B2AE3D27D4EB4F * (index + 1)) % minhash_prime

-- `min(...)` over the values; the code takes it of shingles that are not empty.
unfoldable pub least : ℕ → List ℕ → ℕ
least index [] = minhash_prime
least index (v ∷ vs) = min ((multiplier index * v + offset index) % minhash_prime) (least index vs)

abbrev pub join_shingle : Shingle → Text
join_shingle [] = []
join_shingle (t ∷ []) = t
join_shingle (t ∷ u ∷ ts) = t ++ (0 ∷ join_shingle (u ∷ ts))

-- The rounds of the loop that are left, from an index on.
unfoldable pub signature_from : ℕ → ℕ → List ℕ → List ℕ
signature_from zero index vs = []
signature_from (suc rounds) index vs = least index vs ∷ signature_from rounds (suc index) vs

unfoldable pub minhash_signature : (Text → ℕ) → List Shingle → ℕ → List ℕ
unfolding least signature_from
minhash_signature blake2b shingles num_permutations =
    signature_from num_permutations 0 (map (λ s. blake2b (join_shingle s)) shingles)
