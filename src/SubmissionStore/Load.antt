-- ===== src/SubmissionStore/Load.antt =====
-- `NfsSubmissionStore.load_bundle` of src/oj_checker/submission_store.py. `decode` stands for
-- `bytes.decode("utf-8", "replace")` of the standard library, `roots` for the mounted roots.
pub mod Budget
pub mod Manifest
use csoj_judger.Prelude.{
  ℕ, zero, suc, ◌+◌, ◌-◌, Bool, true, false, not, ◌||◌, Option, none, some, List, [], ◌∷◌, map,
  length, leb, min, ◌==◌, if◌then◌else◌,
}
use csoj_judger.Prelude.Int.{ℤ, pos, negsuc, positive?}
use csoj_judger.Prelude.Order.{Text, text, nat_ord, list_ord}
use csoj_judger.Prelude.Sort.{sort_by}
use csoj_judger.Prelude.Result.{Result, ok, err, ◌>>=◌, ◌>>◌, raise_if}
use csoj_judger.Json
use csoj_judger.Json.{Json, null, int, str, arr, obj, Fields, elements}
use csoj_judger.Domain.{Submission}
use csoj_judger.Catalog.{member}
use csoj_judger.SubmissionStore.Base.{
  StoreError, unsafe_submission_path, budget_not_positive, OmissionReason, file_budget,
  total_budget, SourcePolicy, SourceFile, SourceBundle,
}
use csoj_judger.SubmissionStore.Paths.{safe_path_parts, validate_submission_id}
use csoj_judger.SubmissionStore.Limits.{
  effective_source_limits, is_source_path, lab_required_patterns, lab_allowed_patterns,
}
use csoj_judger.SubmissionStore.Files.{Node, read_file_from_roots, validate_file_from_roots}

-- One entry of the manifest, after its checks.
pub record ManifestEntry : Type 0 where
  pub path : Text
  pub parts : List Text
  pub declared_bytes : ℕ
  pub declared_sha256 : Option Text

abbrev pub manifest_path : Option Json → Result StoreError Text
manifest_path (some (str path)) = ok path
manifest_path _ = err unsafe_submission_path

-- `entry.get("size", 0)`: a non-negative integer that is no `bool`.
abbrev pub manifest_size : Option Json → Result StoreError ℕ
manifest_size none = ok 0
manifest_size (some (int (pos n))) = ok n
manifest_size (some _) = err unsafe_submission_path

abbrev pub manifest_sha256 : Option Json → Result StoreError (Option Text)
manifest_sha256 none = ok none
manifest_sha256 (some null) = ok none
manifest_sha256 (some (str s)) = ok (some s)
manifest_sha256 (some _) = err unsafe_submission_path

abbrev pub manifest_object : Json → Result StoreError Fields
manifest_object (obj entry) = ok entry
manifest_object _ = err unsafe_submission_path

unfoldable pub read_entry : List Text → Json → Result StoreError ManifestEntry
read_entry seen value = do
  entry ← manifest_object value
  path ← manifest_path (Json.get entry (text "path"))
  parts ← safe_path_parts path
  raise_if (member path seen) unsafe_submission_path
  declared_bytes ← manifest_size (Json.get entry (text "size"))
  declared_sha256 ← manifest_sha256 (Json.get entry (text "sha256"))
  ok (record {
    path = path;
    parts = parts;
    declared_bytes = declared_bytes;
    declared_sha256 = declared_sha256;
  })

-- The loop over the manifest; `seen` holds the paths of the entries so far.
unfoldable pub read_entries : List Text → List Json → Result StoreError (List ManifestEntry)
read_entries seen [] = ok []
read_entries seen (value ∷ values) = do
  e ← read_entry seen value
  rest ← read_entries (e.path ∷ seen) values
  ok (e ∷ rest)

abbrev pub manifest_list : Option Json → Result StoreError (List Json)
manifest_list none = ok []
manifest_list (some (arr xs)) = ok (elements xs)
manifest_list (some _) = err unsafe_submission_path

-- What stays the same over the reading loop.
pub record Reading : Type 0 where
  pub roots : List (Option Node)
  pub decode : List ℕ → Text
  pub policy : SourcePolicy
  pub submission : Submission
  pub max_file_bytes : ℕ
  pub max_total_bytes : ℕ

abbrev pub omission : ℕ → ℕ → Bool → Option OmissionReason
omission max_file remaining false = none
omission max_file remaining true =
    if leb max_file remaining then some file_budget else some total_budget

-- The body of the loop for a source path: the file's record, and the bytes read.
unfoldable pub read_source : Reading → ℕ → ManifestEntry → Result StoreError SourceFile
read_source r total e =
    let remaining = r.max_total_bytes - total in
    let skipped : Result StoreError SourceFile = (do
      validate_file_from_roots r.roots r.submission.id e.parts
      ok (record {
        path = e.path;
        declared_bytes = e.declared_bytes;
        declared_sha256 = e.declared_sha256;
        content = [];
        bytes_read = 0;
        omission_reason = some total_budget;
      })) in
    let read : Result StoreError SourceFile = (do
      (bytes, cut) ←
          read_file_from_roots r.roots r.submission.id e.parts (min r.max_file_bytes remaining)
      ok (record {
        path = e.path;
        declared_bytes = e.declared_bytes;
        declared_sha256 = e.declared_sha256;
        content = r.decode bytes;
        bytes_read = length bytes;
        omission_reason = omission r.max_file_bytes remaining cut;
      })) in
    if leb r.max_total_bytes total then skipped else read

unfoldable pub read_sources :
    Reading → ℕ → List ManifestEntry → Result StoreError (List SourceFile × ℕ)
read_sources r total [] = ok ([], total)
read_sources r total (e ∷ es) =
    let step : Result StoreError (List SourceFile × ℕ) = (do
      f ← read_source r total e
      (fs, final) ← read_sources r (total + f.bytes_read) es
      ok (f ∷ fs, final)) in
    let next : Result StoreError (List SourceFile × ℕ) = read_sources r total es in
    if is_source_path e.path r.policy r.submission.lab_definition then step else next

abbrev pub entry_path : ManifestEntry → Text
entry_path e = e.path

abbrev pub bundle_of : Reading → List ManifestEntry → List SourceFile × ℕ → SourceBundle
bundle_of r entries result = record {
  submission_id = r.submission.id;
  files = result.0;
  total_bytes_read = result.1;
  declared_paths = map entry_path (sort_by entry_path entries);
  required_patterns = lab_required_patterns r.submission.lab_definition;
  allowed_patterns = lab_allowed_patterns r.submission.lab_definition;
}

-- The reading loop and the bundle. The entries are sorted by path: no two share one, so the other
-- places of the sorted tuples never count.
unfoldable pub read_bundle : Reading → List ManifestEntry → Result StoreError SourceBundle
read_bundle r entries = do
  result ← read_sources r 0 (sort_by entry_path entries)
  ok (bundle_of r entries result)

abbrev pub reading : List (Option Node) → (List ℕ → Text) → SourcePolicy → Submission → Reading
reading roots decode policy submission =
    let limits = effective_source_limits policy submission.lab_definition in
    record {
      roots = roots;
      decode = decode;
      policy = policy;
      submission = submission;
      max_file_bytes = limits.0;
      max_total_bytes = limits.1;
    }

abbrev pub over_budget : SourcePolicy → Bool
over_budget policy = not (positive? policy.max_file_bytes) || not (positive? policy.max_total_bytes)

-- The checks before the loop: the entries of the manifest.
unfoldable pub load_entries : SourcePolicy → Submission → Result StoreError (List ManifestEntry)
load_entries policy submission = do
  raise_if (over_budget policy) budget_not_positive
  validate_submission_id submission.id
  values ← manifest_list (Json.get submission.input_manifest (text "files"))
  read_entries [] values

unfoldable pub load_bundle :
    List (Option Node)
    → (List ℕ → Text)
    → SourcePolicy
    → Submission
    → Result StoreError SourceBundle
load_bundle roots decode policy submission = do
  entries ← load_entries policy submission
  read_bundle (reading roots decode policy submission) entries
