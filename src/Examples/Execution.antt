-- ===== src/Examples/Execution.antt =====
-- A review of lab 2 that finds no violation.
use csoj_judger.Prelude.{◌≡◌, refl, [], ◌∷◌}
use csoj_judger.Prelude.Order.{text, nat_ord, list_ord}
use csoj_judger.Json
use csoj_judger.Json.{Fields, str, obj, arr, nil, field, end, fields}
use csoj_judger.AgentExecution.{
  Ports, returns, VerifiedReviewBundle, reported, execute, report_fields, Reviewed, compliant,
  normalized_report, load_references, expected_basis,
}
use csoj_judger.AgentExecution.Outcomes.{IsReview, execute_reports-IsReview}

abbrev answer : Reviewed
answer = record {
  report = field (text "decision") (str (text "compliant")) end;
  trace = end;
  workspace = end;
}

abbrev ports : Ports
ports = record {
  load_basis = λ revision lab_id. returns (record {
    upstream_commit = revision;
    tree_digest = text "t";
    document_digest = text "d";
    source_path = text "src";
    document_path = text "doc";
    document = text "rules";
  });
  load_snapshots = λ revisions. returns [];
  review = λ policy. returns answer;
  lab4_review_policy = [];
  decimal = λ n. [];
  completed_at = text "now";
}

abbrev submission : Fields
submission = field (text "id") (str (text "s1")) end

abbrev basis : Fields
basis = fields (
    (text "public_references", arr nil)
    ∷ (text "commit", str (text "c"))
    ∷ (text "tree_digest", str (text "t"))
    ∷ (text "document_digest", str (text "d"))
    ∷ (text "source_path", str (text "src"))
    ∷ (text "document_path", str (text "doc"))
    ∷ [])

abbrev bundle : VerifiedReviewBundle
bundle = record {
  payload = field (text "submission") (obj submission) (field (text "basis") (obj basis) end);
  payload_digest = text "p";
  key_id = text "k";
  lab_id = text "lab2";
}

it_reports :
    execute ports bundle ≡ reported (report_fields ports bundle answer submission basis compliant)
unfolding execute normalized_report load_references expected_basis Json.get
it_reports = refl

execute_reports-IsReview_example :
    IsReview ports bundle (report_fields ports bundle answer submission basis compliant)
execute_reports-IsReview_example =
    execute_reports-IsReview ports bundle
      (report_fields ports bundle answer submission basis compliant) it_reports
