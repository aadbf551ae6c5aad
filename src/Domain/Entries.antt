-- ===== src/Domain/Entries.antt =====
-- The dictionaries of submissions and tasks in a manifest: `Submission.to_manifest_entry` and
-- `AuditTask.to_dict` of src/oj_checker/domain.py. `isoformat` gives the text of an instant.
use csoj_judger.Prelude.{ℕ, Option, none, some, List, [], ◌∷◌, map}
use csoj_judger.Prelude.Int.{ℤ}
use csoj_judger.Prelude.Order.{Text, text}
use csoj_judger.Json.{Json, null, int, real, str, arr, obj, Fields, fields, items}
use csoj_judger.Domain.{
  Submission, AuditTask, AuditTaskKind, single_review, exact_duplicate, plagiarism_review,
}

-- `AuditTaskKind.value`.
abbrev pub kind_text : AuditTaskKind → Text
kind_text single_review = text "single_review"
kind_text exact_duplicate = text "exact_duplicate"
kind_text plagiarism_review = text "plagiarism_review"

abbrev pub optional_str : Option Text → Json
optional_str none = null
optional_str (some s) = str s

abbrev pub optional_real : Option Text → Json
optional_real none = null
optional_real (some r) = real r

abbrev pub optional_int : Option ℤ → Json
optional_int none = null
optional_int (some n) = int n

abbrev pub texts : List Text → Json
texts ts = arr (items (map str ts))

abbrev pub optional_time : (ℕ → Text) → Option ℕ → Json
optional_time isoformat none = null
optional_time isoformat (some t) = str (isoformat t)

unfoldable pub manifest_entry : (ℕ → Text) → Submission → Text → Fields
manifest_entry isoformat s lab_definition_key = fields (
    (text "id", str s.id)
    ∷ (text "owner", str s.owner)
    ∷ (text "lab_id", str s.lab_id)
    ∷ (text "score", int s.score)
    ∷ (text "input_digest", str s.input_digest)
    ∷ (text "submitted_at", str (isoformat s.submitted_at))
    ∷ (text "input_manifest", obj s.input_manifest)
    ∷ (text "lab_definition_key", str lab_definition_key)
    ∷ (
      text "active_run",
      obj (
          fields (
            (text "id", optional_int s.active_run_id)
            ∷ (text "state", optional_str s.run_state)
            ∷ (text "result_info", obj s.run_result_info)
            ∷ (text "failure_class", optional_str s.run_failure_class)
            ∷ (text "failure_reason", optional_str s.run_failure_reason)
            ∷ (text "score", optional_int s.run_score)
            ∷ (text "performance", optional_real s.run_performance)
            ∷ (text "finished_at", optional_time isoformat s.run_finished_at)
            ∷ [])),
    )
    ∷ [])

unfoldable pub task_dict : AuditTask → Fields
task_dict t = fields (
    (text "key", str t.key)
    ∷ (text "kind", str (kind_text t.kind))
    ∷ (text "lab_id", str t.lab_id)
    ∷ (text "submission_ids", texts t.submission_ids)
    ∷ (text "input_digest", str t.input_digest)
    ∷ (text "input_digests", texts t.input_digests)
    ∷ (text "source_delta_digests", texts t.source_delta_digests)
    ∷ (text "similarity_signal", optional_str t.similarity_signal)
    ∷ (text "jaccard", optional_real t.jaccard)
    ∷ [])
