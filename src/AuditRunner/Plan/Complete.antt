-- ===== src/AuditRunner/Plan/Complete.antt =====
-- A plan leaves nothing out.
use csoj_judger.Prelude.{◌≡◌, ◌≢◌, true, false, none, List, [], Memᴰ, is_nil}
use csoj_judger.Prelude.Order.{Text, nat_ord, pair_ord, list_ord}
use csoj_judger.Json.{Json}
use csoj_judger.Domain.{Submission, SnapshotRequest, all_qualifying, AuditRequest, AuditTask}
use csoj_judger.Catalog.{is_eligible, owner_lab}
use csoj_judger.Catalog.Best.{IsAtMost}
use csoj_judger.AuditRunner.Duplicates.{group_key, single_review_task}
use csoj_judger.AuditRunner.Duplicates.Pairs.Complete.{IsAbout}

-- What the runner asks the catalog for.
abbrev pub snapshot_of : AuditRequest → SnapshotRequest
snapshot_of request = record {
  policy = all_qualifying;
  cutoff = request.cutoff;
  min_score = request.min_score;
  labs = request.labs;
  owners = request.owners;
  limit = none;
  submission_ids = [];
}

module _ (task_key : Json → Text) where
  -- The catalog's submissions that are eligible are all in the plan: there is a single review of an
  -- eligible submission of the catalog with the same owner and lab that ranks at least as high.
  abbrev pub CoversReviews : List Submission → AuditRequest → List AuditTask → Type 0
  CoversReviews catalog request tasks =
      (x : Submission)
      → Memᴰ x catalog
      → is_eligible x (snapshot_of request) ≡ true
      → (s : Submission) × Memᴰ s catalog
        × (is_eligible s (snapshot_of request) ≡ true)
        × Memᴰ (single_review_task task_key s) tasks
        × (owner_lab s ≡ owner_lab x)
        × IsAtMost x s

  abbrev pub CoversDuplicates : List Submission → AuditRequest → List AuditTask → Type 0
  CoversDuplicates catalog request tasks =
      (x y : Submission)
      → Memᴰ x catalog
      → Memᴰ y catalog
      → is_eligible x (snapshot_of request) ≡ true
      → is_eligible y (snapshot_of request) ≡ true
      → group_key x ≡ group_key y
      → is_nil x.input_digest ≡ false
      → x.owner ≢ y.owner
      → (t : AuditTask) × Memᴰ t tasks × IsAbout catalog (group_key x) x.owner y.owner t
