-- ===== src/SubmissionStore/Base.antt =====
-- The data of src/oj_checker/submission_store.py, and the exceptions that it raises.
use csoj_judger.Prelude.{
  ℕ, ◌+◌, Bool, true, false, ◌&&◌, Option, none, some, List, [], ◌∷◌, leb, ◌==◌, if◌then◌else◌, map,
}
use csoj_judger.Prelude.Int.{ℤ, pos}
use csoj_judger.Prelude.Order.{Text, text}

-- `UnsafeSubmissionPath`, `SubmissionFileError`, and the `ValueError` of the byte budgets.
pub data StoreError : Type 0 where
  unsafe_submission_path submission_file_error budget_not_positive : StoreError

pub data OmissionReason : Type 0 where
  file_budget total_budget : OmissionReason

pub record SourcePolicy : Type 0 where
  pub max_file_bytes : ℤ
  pub max_total_bytes : ℤ
  pub source_suffixes : List Text
  pub source_names : List Text

unfoldable pub default_policy : SourcePolicy
default_policy = record {
  max_file_bytes = pos 256000;
  max_total_bytes = pos 1000000;
  source_suffixes = map text (
      ".c" ∷ ".cc" ∷ ".cpp" ∷ ".cxx" ∷ ".cu" ∷ ".h" ∷ ".hpp" ∷ ".py" ∷ ".sh" ∷ ".cmake" ∷ ".yaml"
      ∷ ".yml" ∷ ".toml" ∷ ".json" ∷ []);
  source_names =
      map text ("CMakeLists.txt" ∷ "Makefile" ∷ "makefile" ∷ "compile.sh" ∷ "run.sh" ∷ []);
}

pub record SourceFile : Type 0 where
  pub path : Text
  pub declared_bytes : ℕ
  pub declared_sha256 : Option Text
  pub content : Text
  pub bytes_read : ℕ
  pub omission_reason : Option OmissionReason

-- The property `truncated`.
abbrev pub truncated : SourceFile → Bool
truncated f = elim f.omission_reason [ none ↦ false | some r ↦ true ]

pub record SourceBundle : Type 0 where
  pub submission_id : Text
  pub files : List SourceFile
  pub total_bytes_read : ℕ
  pub declared_paths : List Text
  pub required_patterns : List Text
  pub allowed_patterns : List Text

-- `str.lower`, as far as its result can be an ASCII text: the Kelvin sign becomes a `k`.
abbrev pub lower_char : ℕ → ℕ
lower_char c = if leb b'A' c && leb c b'Z' then c + 32 else if c == 8490 then b'k' else c

abbrev pub lower : Text → Text
lower s = map lower_char s
