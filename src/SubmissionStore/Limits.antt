-- ===== src/SubmissionStore/Limits.antt =====
-- The byte limits and patterns that src/oj_checker/submission_store.py reads from a lab definition.
use csoj_judger.Prelude.{
  ℕ, zero, suc, ◌≤◌, ◌<◌, ◌⊎◌, le→leb, ◌≡◌, refl, true, Bool, Option, none, some, List, [], ◌∷◌,
  ◌++◌, max, any, Memᴰ, arith, inl, inr, mem-append_left, mem-append_right, if◌then◌else◌,
}
use csoj_judger.Prelude.Int.{ℤ, pos, negsuc, positive?}
use csoj_judger.Prelude.Order.{one_of, Text, text}
use csoj_judger.Json
use csoj_judger.Json.{Json, int, str, Fields, mapping?, list?}
use csoj_judger.SubmissionStore.Base.{SourcePolicy}
use csoj_judger.SubmissionStore.Paths.{base_name, suffix}
use csoj_judger.SubmissionStore.Base.{lower}
use csoj_judger.SubmissionStore.Pattern.{matches_submission_pattern}

-- `spec.submissions`, each step guarded by `isinstance(..., Mapping)`.
abbrev pub step : Option Fields → Text → Option Fields
step none key = none
step (some d) key = mapping? (Json.get d key)

unfoldable pub lab_home : Fields → Option Fields
lab_home lab_definition =
    step (step (step (some lab_definition) (text "spec")) (text "submissions")) (text "home")

-- `value for value in values if isinstance(value, str)`.
abbrev pub strings : List Json → List Text
strings [] = []
strings (str s ∷ xs) = s ∷ strings xs
strings (_ ∷ xs) = strings xs

abbrev pub strings_of : Option (List Json) → List Text
strings_of none = []
strings_of (some values) = strings values

abbrev pub patterns_at : Option Fields → Text → List Text
patterns_at none key = []
patterns_at (some home) key = strings_of (list? (Json.get home key))

unfoldable pub lab_patterns : Fields → Text → List Text
lab_patterns lab_definition key = patterns_at (lab_home lab_definition) key

unfoldable pub lab_required_patterns : Fields → List Text
lab_required_patterns lab_definition = lab_patterns lab_definition (text "required")

unfoldable pub lab_allowed_patterns : Fields → List Text
lab_allowed_patterns lab_definition = lab_patterns lab_definition (text "allow")

unfoldable pub lab_file_patterns : Fields → List Text
lab_file_patterns lab_definition =
    patterns_at (lab_home lab_definition) (text "required")
    ++ patterns_at (lab_home lab_definition) (text "allow")

unfoldable pub is_source_path : Text → SourcePolicy → Fields → Bool
is_source_path path policy lab_definition =
    if one_of policy.source_names (base_name path)
    then true
    else if one_of policy.source_suffixes (lower (suffix (base_name path)))
    then true
    else any (λ pattern. matches_submission_pattern path pattern) (lab_file_patterns lab_definition)

-- `isinstance(limit, int) and not isinstance(limit, bool) and limit > 0`.
abbrev pub valid_limit : Option Json → List ℕ
valid_limit (some (int (pos n))) = if positive? (pos n) then n ∷ [] else []
valid_limit _ = []

abbrev pub field_of : Option Fields → Text → Option Json
field_of none key = none
field_of (some channel) key = Json.get channel key

abbrev pub channel_limit : Option Fields → Text → Text → List ℕ
channel_limit submissions channel key = valid_limit (field_of (step submissions channel) key)

-- The limits that the two channels of the lab set under a key.
unfoldable pub declared_limits : Fields → Text → List ℕ
declared_limits lab_definition key =
    let submissions = step (step (some lab_definition) (text "spec")) (text "submissions") in
    channel_limit submissions (text "home") key ++ channel_limit submissions (text "upload") key

-- `max(limits)`, of a list that is not empty.
abbrev pub maximum : ℕ → List ℕ → ℕ
maximum n [] = n
maximum n (m ∷ ms) = max n (maximum m ms)

-- The value of a budget, which the caller has found positive.
abbrev pub budget : ℤ → ℕ
budget (pos n) = n
budget (negsuc n) = 0

unfoldable pub effective_source_limits : SourcePolicy → Fields → ℕ × ℕ
effective_source_limits policy lab_definition = (
  maximum (budget policy.max_file_bytes) (declared_limits lab_definition (text "maxFileBytes")),
  maximum (budget policy.max_total_bytes) (declared_limits lab_definition (text "maxTotalBytes")),
)

le-maximum : (n : ℕ) (ms : List ℕ) → n ≤ maximum n ms
le-maximum n [] = omega arith
le-maximum n (m ∷ ms) = omega (arith, le-maximum m ms)

mem-le-maximum : (n : ℕ) (ms : List ℕ) {m : ℕ} → Memᴰ m ms → m ≤ maximum n ms
mem-le-maximum n (k ∷ ms) (Memᴰ.head e) = rw e (omega (arith, le-maximum k ms))
mem-le-maximum n (k ∷ ms) (Memᴰ.tail m) = omega (arith, mem-le-maximum k ms m)
mem-le-maximum n [] m = elim m [ ]

-- `spec.submissions.<channel>.<key>` of a lab definition.
abbrev pub lab_limit : Fields → Text → Text → Option Json
lab_limit lab channel key =
    field_of (step (step (step (some lab) (text "spec")) (text "submissions")) channel) key

mem-valid_limit :
    (o : Option Json) (n : ℕ) → 0 < n → o ≡ some (int (pos n)) → Memᴰ n (valid_limit o)
mem-valid_limit o n h e = rw e (rw (le→leb 1 n h) (Memᴰ.head refl))

declared-le :
    (lab : Fields) (channel key : Text) (n m : ℕ)
    → (channel ≡ text "home") ⊎ (channel ≡ text "upload")
    → lab_limit lab channel key ≡ some (int (pos n))
    → n ≤ maximum m (declared_limits lab key)
unfolding declared_limits
declared-le lab channel key zero m which e = omega arith
declared-le lab channel key (suc n) m (inl home) e =
    mem-le-maximum m (declared_limits lab key)
      (mem-append_left _ (mem-valid_limit _ (suc n) (omega arith) (rw home at e)))
declared-le lab channel key (suc n) m (inr upload) e =
    mem-le-maximum m (declared_limits lab key)
      (mem-append_right _ (mem-valid_limit _ (suc n) (omega arith) (rw upload at e)))

-- The checker's limits lie neither below its own policy's nor below any integer limit that the lab
-- definition sets for its `home` or its `upload` channel.
pub effective_source_limits_floor :
    (policy : SourcePolicy) (lab : Fields)
    → (budget policy.max_file_bytes ≤ (effective_source_limits policy lab).0)
      × (budget policy.max_total_bytes ≤ (effective_source_limits policy lab).1)
      × ((channel : Text) (n : ℕ)
          → (channel ≡ text "home") ⊎ (channel ≡ text "upload")
          → (lab_limit lab channel (text "maxFileBytes") ≡ some (int (pos n))
              → n ≤ (effective_source_limits policy lab).0)
            × (lab_limit lab channel (text "maxTotalBytes") ≡ some (int (pos n))
                → n ≤ (effective_source_limits policy lab).1))
unfolding effective_source_limits
effective_source_limits_floor policy lab = (
  le-maximum (budget policy.max_file_bytes) (declared_limits lab (text "maxFileBytes")),
  le-maximum (budget policy.max_total_bytes) (declared_limits lab (text "maxTotalBytes")),
  λ channel n which. (
    declared-le lab channel (text "maxFileBytes") n (budget policy.max_file_bytes) which,
    declared-le lab channel (text "maxTotalBytes") n (budget policy.max_total_bytes) which,
  ),
)
