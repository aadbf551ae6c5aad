-- ===== src/AgentExecution.antt =====
-- src/oj_checker/agent_execution.py: one review run, from the verified bundle to the stored report.
-- The stages that other modules carry out are functions of a `Ports` record.
pub mod Outcomes
use csoj_judger.Prelude.{
  ℕ, suc, Bool, true, false, not, ◌&&◌, ◌||◌, Option, none, some, List, [], ◌∷◌, ◌++◌, is_nil,
  if◌then◌else◌,
}
use csoj_judger.Prelude.Int.{pos}
use csoj_judger.Prelude.Order.{Text, text, ◌===◌, nat_ord, list_ord}
use csoj_judger.Json
use csoj_judger.Json.{
  Json, null, bool, int, str, arr, obj, Fields, fields, items, elements, json_eq, mapping?, list?,
  str?,
}

-- The classes of exceptions that the stages raise; `limit` is an `AgentReviewLimitError` with its
-- code, `review_error` any other `AgentReviewError`.
pub data Raised : Type 0 where
  file_not_found runtime_error unsupported_lab value_error os_error : Raised
  submission_file_error unsafe_submission_path : Raised
  model_configuration transient review_error : Raised
  limit : Text → Raised
  other : Raised

pub data Attempt (A : Type 0) : Type 0 where
  returns : A → Attempt A
  raises : Raised → Attempt A

pub record Basis : Type 0 where
  pub upstream_commit : Text
  pub tree_digest : Text
  pub document_digest : Text
  pub source_path : Text
  pub document_path : Text
  pub document : Text

pub record Reference : Type 0 where
  pub repository : Text
  pub revision : Text
  pub tree_digest : Text

-- The reviewer's report and trace, and the prepared workspace.
pub record Reviewed : Type 0 where
  pub report : Fields
  pub trace : Fields
  pub workspace : Fields

-- A bundle that `submission_from_review_bundle` accepts, with the lab of that submission.
pub record VerifiedReviewBundle : Type 0 where
  pub payload : Fields
  pub payload_digest : Text
  pub key_id : Text
  pub lab_id : Text

-- `load_basis` is the Git basis provider, `load_snapshots` the reference provider, `review` the
-- preparation of the workspace and the agent's review under a policy; `decimal` prints an index.
pub record Ports : Type 0 where
  pub load_basis : Text → Text → Attempt Basis
  pub load_snapshots : List Text → Attempt (List Reference)
  pub review : Text → Attempt Reviewed
  pub lab4_review_policy : Text
  pub decimal : ℕ → Text
  pub completed_at : Text

-- What `execute` does: it returns a report, raises `AgentRunFailure` with a code, or lets another
-- exception through.
pub data Execution : Type 0 where
  reported : Fields → Execution
  run_failure : Text → Execution
  escaped : Raised → Execution

abbrev pub is_lab4 : Text → Bool
is_lab4 lab_id = lab_id === text "lab4-cpu" || lab_id === text "lab4-gpu"

-- The revisions of the requested references; `none` where one is invalid.
abbrev pub revision_of : Json → Option Text
revision_of (obj d) = str? (Json.get d (text "revision"))
revision_of _ = none

abbrev pub add_revision : Option Text → Option (List Text) → Option (List Text)
add_revision (some r) (some rs) = some (r ∷ rs)
add_revision none rs = none
add_revision (some r) none = none

abbrev pub revisions_of : List Json → Option (List Text)
revisions_of [] = some []
revisions_of (x ∷ xs) = add_revision (revision_of x) (revisions_of xs)

abbrev pub load_revisions : Ports → Option (List Text) → Attempt (List Reference)
load_revisions ports none = raises value_error
load_revisions ports (some revisions) = ports.load_snapshots revisions

-- `_load_references`.
unfoldable pub load_references : Ports → Text → List Json → Attempt (List Reference)
load_references ports lab_id raw =
    if is_nil raw
    then returns []
    else if not (is_lab4 lab_id)
    then raises value_error
    else load_revisions ports (revisions_of raw)

abbrev pub reference_entries : Ports → ℕ → List Reference → List Json
reference_entries ports index [] = []
reference_entries ports index (r ∷ rs) =
    obj (
      fields (
        (text "repository", str r.repository)
        ∷ (text "revision", str r.revision)
        ∷ (text "tree_digest", str r.tree_digest)
        ∷ (text "path_prefix", str (text "public/" ++ ports.decimal index))
        ∷ []))
    ∷ reference_entries ports (suc index) rs

unfoldable pub expected_basis : Ports → Basis → List Reference → Json
expected_basis ports basis references = obj (
    fields (
      (text "commit", str basis.upstream_commit)
      ∷ (text "tree_digest", str basis.tree_digest)
      ∷ (text "document_digest", str basis.document_digest)
      ∷ (text "source_path", str basis.source_path)
      ∷ (text "document_path", str basis.document_path)
      ∷ (text "public_references", arr (items (reference_entries ports 0 references)))
      ∷ []))

-- `except (FileNotFoundError, RuntimeError, UnsupportedLabError, ValueError)` of the first stage;
-- `UnsafeSubmissionPath` and `UnsupportedLabError` are `ValueError`s, the submission and review errors
-- are `RuntimeError`s.
abbrev pub basis_failure : Raised → Execution
basis_failure os_error = escaped os_error
basis_failure other = escaped other
basis_failure _ = run_failure (text "BASELINE_MISSING")

-- The `except` clauses of the review stage. A `FileNotFoundError` is an `OSError`, an unsupported lab
-- a `ValueError`; a plain `RuntimeError` is caught by none.
abbrev pub review_failure : Raised → Execution
review_failure submission_file_error = run_failure (text "WORKSPACE_INVALID")
review_failure unsafe_submission_path = run_failure (text "WORKSPACE_INVALID")
review_failure model_configuration = run_failure (text "MODEL_CONFIGURATION_ERROR")
review_failure transient = run_failure (text "MODEL_UNAVAILABLE")
review_failure (limit code) = run_failure code
review_failure review_error = run_failure (text "RESULT_INVALID")
review_failure os_error = run_failure (text "WORKSPACE_INVALID")
review_failure file_not_found = run_failure (text "WORKSPACE_INVALID")
review_failure value_error = run_failure (text "WORKSPACE_INVALID")
review_failure unsupported_lab = run_failure (text "WORKSPACE_INVALID")
review_failure runtime_error = escaped runtime_error
review_failure other = escaped other

pub data Decision : Type 0 where
  compliant violation inconclusive : Decision

abbrev pub decision_text : Decision → Text
decision_text compliant = text "compliant"
decision_text violation = text "violation"
decision_text inconclusive = text "inconclusive"

abbrev pub decide : Text → Option Decision
decide s =
    if s === text "compliant"
    then some compliant
    else if s === text "violation"
    then some violation
    else if s === text "inconclusive"
    then some inconclusive
    else none

-- `decision not in {...}`: another hashable value than these texts is in no such set.
abbrev pub decision_of : Option Text → Option Decision
decision_of none = none
decision_of (some s) = decide s

abbrev pub compliant_of : Decision → Json
compliant_of compliant = bool true
compliant_of violation = bool false
compliant_of inconclusive = null

abbrev pub state_of : Decision → Text
state_of inconclusive = text "inconclusive"
state_of _ = text "completed"

-- `d.get(key)`, with a default.
abbrev pub get_or : Fields → Text → Json → Json
get_or d key default = elim (Json.get d key) [ none ↦ default | some v ↦ v ]

abbrev pub report_fields :
    Ports → VerifiedReviewBundle → Reviewed → Fields → Fields → Decision → Fields
report_fields ports bundle r submission basis decision = fields (
    (text "schema_version", int (pos 1))
    ∷ (
      text "submission",
      obj (
          fields (
            (text "id", get_or submission (text "id") null)
            ∷ (text "owner", get_or submission (text "owner") null)
            ∷ (text "lab_id", get_or submission (text "lab_id") null)
            ∷ (text "score", get_or submission (text "score") null)
            ∷ [])),
    )
    ∷ (text "state", str (state_of decision))
    ∷ (text "decision", str (decision_text decision))
    ∷ (text "compliant", compliant_of decision)
    ∷ (text "confidence", get_or r.report (text "confidence") null)
    ∷ (text "summary", get_or r.report (text "summary") null)
    ∷ (text "violations", get_or r.report (text "violations") (arr (items [])))
    ∷ (
      text "evidence",
      obj (
          fields (
            (text "review_strategy", str (text "agent-tools-v1"))
            ∷ (text "workspace_complete", bool true)
            ∷ (text "workspace", obj r.workspace)
            ∷ (text "trace", obj r.trace)
            ∷ (text "limitations", get_or r.report (text "limitations") (arr (items [])))
            ∷ (text "requires_human_review", bool true)
            ∷ (text "bundle_digest", str bundle.payload_digest)
            ∷ (text "bundle_key_id", str bundle.key_id)
            ∷ [])),
    )
    ∷ (
      text "provenance",
      obj (
          fields (
            (text "review_key", str bundle.payload_digest)
            ∷ (text "completed_at", str ports.completed_at)
            ∷ (text "basis_commit", get_or basis (text "commit") null)
            ∷ (text "rules_version", get_or bundle.payload (text "rules_version") null)
            ∷ (text "prompt_version", get_or bundle.payload (text "prompt_version") null)
            ∷ (text "schema_version", get_or bundle.payload (text "result_schema_version") null)
            ∷ (text "model", get_or bundle.payload (text "model") null)
            ∷ [])),
    )
    ∷ [])

abbrev pub report_with :
    Ports → VerifiedReviewBundle → Reviewed → Fields → Fields → Option Decision → Execution
report_with ports bundle r submission basis none = run_failure (text "RESULT_INVALID")
report_with ports bundle r submission basis (some decision) =
    reported (report_fields ports bundle r submission basis decision)

-- The set of decisions cannot be asked for a list or a dictionary: that raises `TypeError`.
abbrev pub is_hashable : Option Json → Bool
is_hashable (some (arr vs)) = false
is_hashable (some (obj d)) = false
is_hashable _ = true

-- `_normalized_report`, with the mappings that its caller has checked. A verified payload has the
-- keys that are read by subscription.
unfoldable pub normalized_report :
    Ports → VerifiedReviewBundle → Fields → Fields → Reviewed → Execution
normalized_report ports bundle submission basis r =
    if is_hashable (Json.get r.report (text "decision"))
    then report_with ports bundle r submission basis
        (decision_of (str? (Json.get r.report (text "decision"))))
    else escaped other

abbrev pub policy_for : Ports → Text → Basis → Text
policy_for ports lab_id basis =
    if is_lab4 lab_id
    then basis.document ++ (10 ∷ 10 ∷ ports.lab4_review_policy)
    else basis.document

abbrev pub finish_review :
    Ports → VerifiedReviewBundle → Fields → Fields → Attempt Reviewed → Execution
finish_review ports bundle submission basis (returns r) =
    normalized_report ports bundle submission basis r
finish_review ports bundle submission basis (raises e) = review_failure e

-- After both loads: the request's basis must be the loaded one.
abbrev pub check_basis :
    Ports → VerifiedReviewBundle → Fields → Fields → Basis → List Reference → Execution
check_basis ports bundle submission raw basis references =
    if json_eq (obj raw) (expected_basis ports basis references)
    then finish_review ports bundle submission raw
        (ports.review (policy_for ports bundle.lab_id basis))
    else run_failure (text "BASELINE_MISSING")

abbrev pub with_references :
    Ports → VerifiedReviewBundle → Fields → Fields → Basis → Attempt (List Reference) → Execution
with_references ports bundle submission raw basis (returns references) =
    check_basis ports bundle submission raw basis references
with_references ports bundle submission raw basis (raises e) = basis_failure e

abbrev pub with_basis :
    Ports → VerifiedReviewBundle → Fields → Fields → List Json → Attempt Basis → Execution
with_basis ports bundle submission raw references (returns basis) =
    with_references ports bundle submission raw basis
      (load_references ports bundle.lab_id references)
with_basis ports bundle submission raw references (raises e) = basis_failure e

abbrev pub with_request :
    Ports → VerifiedReviewBundle → Fields → Fields → Option Text → Option (List Json) → Execution
with_request ports bundle submission raw (some revision) (some references) =
    with_basis ports bundle submission raw references (ports.load_basis revision bundle.lab_id)
with_request ports bundle submission raw (some revision) none =
    run_failure (text "BASELINE_MISSING")
with_request ports bundle submission raw none references = run_failure (text "BASELINE_MISSING")

abbrev pub with_mappings : Ports → VerifiedReviewBundle → Option Fields → Option Fields → Execution
with_mappings ports bundle none raw = run_failure (text "WORKSPACE_INVALID")
with_mappings ports bundle (some submission) none = run_failure (text "BASELINE_MISSING")
with_mappings ports bundle (some submission) (some raw) =
    with_request ports bundle submission raw (str? (Json.get raw (text "commit")))
      (list? (Json.get raw (text "public_references")))

unfoldable pub execute : Ports → VerifiedReviewBundle → Execution
execute ports bundle =
    with_mappings ports bundle (mapping? (Json.get bundle.payload (text "submission")))
      (mapping? (Json.get bundle.payload (text "basis")))
