-- ===== src/Examples/Store.antt =====
-- A small submission tree, through the path rules and the loader.
use csoj_judger.Prelude.{ℕ, ◌≤◌, ◌≡◌, refl, ◌↔◌, ◌⊎◌, true, Option, none, some, List, [], ◌∷◌}
use csoj_judger.Prelude.Int.{pos}
use csoj_judger.Prelude.Order.{Text, text, nat_ord, list_ord}
use csoj_judger.Prelude.Sort.{sort_by}
use csoj_judger.Prelude.Text.{split, join}
use csoj_judger.Prelude.Result.{ok, err}
use csoj_judger.Json
use csoj_judger.Json.{Json, Fields, end, field, obj, arr, str, int, cons, nil}
use csoj_judger.Domain.{Submission}
use csoj_judger.SubmissionStore.Base.{SourceBundle, default_policy, unsafe_submission_path}
use csoj_judger.SubmissionStore.Paths.{safe_path_parts, validate_submission_id, suffix}
use csoj_judger.SubmissionStore.Paths.Safety.{AreSafe, safe_path_parts_iff}
use csoj_judger.SubmissionStore.Pattern.{translate, full_match, matches_submission_pattern}
use csoj_judger.SubmissionStore.Pattern.Matching.{depth, star_keeps_depth}
use csoj_judger.SubmissionStore.Pattern.Globs.{
  IsSafePattern, IsGlob, matches_submission_pattern-IsGlob,
}
use csoj_judger.SubmissionStore.Limits.{
  budget, lab_limit, effective_source_limits, declared_limits, effective_source_limits_floor,
  is_source_path, lab_required_patterns, lab_allowed_patterns, lab_patterns, lab_home,
}
use csoj_judger.SubmissionStore.Files.{
  Node, directory, file, entry, find, open_directory, open_regular, open_parts,
  open_regular_file_beneath, open_regular_file_from_roots, read_prefix, read_file_from_roots,
  validate_file_from_roots,
}
use csoj_judger.SubmissionStore.Files
use csoj_judger.SubmissionStore.Load.{
  ManifestEntry, reading, entry_path, read_entry, read_entries, read_source, read_sources,
  read_bundle, load_entries, load_bundle,
}
use csoj_judger.SubmissionStore.Load.Manifest.{AreFresh, read_entries-AreFresh}
use csoj_judger.SubmissionStore.Load.Budget.{AreRead, total_of, load_bundle_within_budget}

abbrev path : Text
path = text "src/main.cpp"

safe_path_parts_iff_example : (safe_path_parts path ≡ ok (text "src" ∷ text "main.cpp" ∷ [])) ↔ (
    AreSafe (text "src" ∷ text "main.cpp" ∷ [])
    × (join b'/' (text "src" ∷ text "main.cpp" ∷ []) ≡ path))
safe_path_parts_iff_example = safe_path_parts_iff path (text "src" ∷ text "main.cpp" ∷ [])

climbing_is_refused : safe_path_parts (text "src/../x") ≡ err unsafe_submission_path
unfolding safe_path_parts split
climbing_is_refused = refl

abbrev pattern_text : Text
pattern_text = text "src/*.cpp"

main_matches : matches_submission_pattern path pattern_text ≡ true
unfolding matches_submission_pattern translate full_match split
main_matches = refl

matches_submission_pattern-IsGlob_example :
    (matches_submission_pattern path pattern_text ≡ true)
    ↔ (IsSafePattern pattern_text × IsGlob pattern_text path)
matches_submission_pattern-IsGlob_example = matches_submission_pattern-IsGlob path pattern_text

star_keeps_depth_example : depth path ≡ depth pattern_text
star_keeps_depth_example = star_keeps_depth path pattern_text refl main_matches

abbrev lab : Fields
lab =
    field (text "spec")
      (obj (
        field (text "submissions")
          (obj (field (text "home") (obj (field (text "maxFileBytes") (int (pos 400000)) end)) end))
          end))
      end

effective_source_limits_floor_example :
    (budget default_policy.max_file_bytes ≤ (effective_source_limits default_policy lab).0)
    × (budget default_policy.max_total_bytes ≤ (effective_source_limits default_policy lab).1)
    × ((channel : Text) (n : ℕ)
        → (channel ≡ text "home") ⊎ (channel ≡ text "upload")
        → (lab_limit lab channel (text "maxFileBytes") ≡ some (int (pos n))
            → n ≤ (effective_source_limits default_policy lab).0)
          × (lab_limit lab channel (text "maxTotalBytes") ≡ some (int (pos n))
              → n ≤ (effective_source_limits default_policy lab).1))
effective_source_limits_floor_example = effective_source_limits_floor default_policy lab

lab_limit_in_force : (effective_source_limits default_policy lab).0 ≡ 400000
unfolding effective_source_limits declared_limits Json.get default_policy
lab_limit_in_force = refl

abbrev values : List Json
values = obj (field (text "path") (str path) (field (text "size") (int (pos 3)) end)) ∷ []

abbrev main_entry : ManifestEntry
main_entry = record {
  path = path;
  parts = text "src" ∷ text "main.cpp" ∷ [];
  declared_bytes = 3;
  declared_sha256 = none;
}

values_read : read_entries [] values ≡ ok (main_entry ∷ [])
unfolding read_entries read_entry safe_path_parts split Json.get
values_read = refl

read_entries-AreFresh_example : AreFresh [] (main_entry ∷ [])
read_entries-AreFresh_example = read_entries-AreFresh [] values (main_entry ∷ []) values_read

abbrev id : Text
id = text "0a1b2c3d-0000-4000-8000-0123456789ab"

abbrev root : Option Node
root = some (
    directory (
      entry (text "submissions")
        (directory (
          entry id
            (directory (
              entry (text "input")
                (directory (
                  entry (text "src")
                    (directory (entry (text "main.cpp") (file (1 ∷ 2 ∷ 3 ∷ [])) Files.end))
                    Files.end))
                Files.end))
            Files.end))
        Files.end))

abbrev submission : Submission
submission = record {
  id = id;
  owner = text "ann";
  lab_id = text "lab2";
  score = pos 80;
  input_digest = text "d1";
  submitted_at = 10;
  input_manifest =
      field (text "files") (arr (cons (obj (field (text "path") (str path) end)) nil)) end;
  lab_definition = end;
  active_run_id = none;
  run_state = none;
  run_result_info = end;
  run_failure_class = none;
  run_failure_reason = none;
  run_score = none;
  run_performance = none;
  run_finished_at = none;
  status = text "Success";
  is_valid = true;
}

abbrev bundle : SourceBundle
bundle = record {
  submission_id = id;
  files =
      (record {
        path = path;
        declared_bytes = 0;
        declared_sha256 = none;
        content = 1 ∷ 2 ∷ 3 ∷ [];
        bytes_read = 3;
        omission_reason = none;
      })
      ∷ [];
  total_bytes_read = 3;
  declared_paths = path ∷ [];
  required_patterns = [];
  allowed_patterns = [];
}

abbrev ascii : List ℕ → Text
ascii bytes = bytes

bundle_loaded : load_bundle (root ∷ []) ascii default_policy submission ≡ ok bundle
unfolding load_bundle load_entries read_bundle read_entries read_entry safe_path_parts split
    Json.get read_sources read_source default_policy effective_source_limits declared_limits
    validate_submission_id is_source_path suffix read_file_from_roots read_prefix
    open_regular_file_from_roots open_regular_file_beneath sort_by lab_required_patterns
    lab_allowed_patterns lab_patterns lab_home
bundle_loaded = refl

load_bundle_within_budget_example :
    (entries : List ManifestEntry) × (load_entries default_policy submission ≡ ok entries)
    × (bundle.total_bytes_read ≡ total_of bundle.files)
    × (bundle.total_bytes_read
        ≤ (effective_source_limits default_policy submission.lab_definition).1)
    × AreRead
        (reading (root ∷ []) ascii default_policy submission)
        (sort_by entry_path entries)
        bundle.files
load_bundle_within_budget_example =
    load_bundle_within_budget (root ∷ []) ascii default_policy submission bundle bundle_loaded
