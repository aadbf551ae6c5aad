-- ===== src/Catalog.antt =====
-- src/oj_checker/catalog.py: the in-memory catalog, the choice of each owner's best submission.
-- A `dict` of Python is a `Dict`, in insertion order. The proofs are in the children.
pub mod Best
pub mod Snapshot
use csoj_judger.Prelude.{
  ℕ, Bool, true, not, ◌&&◌, ◌||◌, Option, none, some, List, [], ◌∷◌, length, ◌-◌, suc, is_nil, keep,
  take, if◌then◌else◌,
}
use csoj_judger.Prelude.Int.{ℤ, pos, negsuc, int_ord}
use csoj_judger.Prelude.Order.{Text, text, Ord, ◌<=◌, ◌<<◌, ◌===◌, nat_ord, pair_ord, list_ord}
use csoj_judger.Prelude.Dict.{Dict, get, put, values}
use csoj_judger.Prelude.Sort.{sort_by}
use csoj_judger.Domain.{
  SelectionPolicy, all_qualifying, Submission, SnapshotRequest, SubmissionSnapshot,
}

-- `x in xs`.
abbrev pub member : Text → List Text → Bool
member x [] = not true
member x (y ∷ ys) = x === y || member x ys

-- `x == y or ...`: an empty filter lets everything through.
abbrev pub allowed : List Text → Text → Bool
allowed xs x = is_nil xs || member x xs

unfoldable pub is_eligible : Submission → SnapshotRequest → Bool
is_eligible item request =
    item.status === text "Success"
    && (item.is_valid
        && (request.min_score <= item.score
            && (item.submitted_at <= request.cutoff
                && (allowed request.labs item.lab_id
                    && (allowed request.owners item.owner
                        && allowed request.submission_ids item.id)))))

abbrev pub Rank : Type 0
Rank = ℤ × (ℕ × Text)

abbrev pub rank : Submission → Rank
rank item = (item.score, (item.submitted_at, item.id))

abbrev pub owner_lab : Submission → Text × Text
owner_lab item = (item.owner, item.lab_id)

abbrev pub Best : Type 0
Best = Dict (Text × Text) Submission

-- `current is None or _rank(item) > _rank(current)`.
abbrev pub improves : Submission → Option Submission → Bool
improves item none = true
improves item (some current) = rank current << rank item

-- One round of the loop over the submissions.
unfoldable pub best_step : Best → Submission → Best
best_step best item =
    if improves item (get best (owner_lab item)) then put best (owner_lab item) item else best

unfoldable pub best_loop : Best → List Submission → Best
unfolding best_step
best_loop best [] = best
best_loop best (item ∷ items) = best_loop (best_step best item) items

abbrev pub best_key : Submission → Text × (Text × Text)
best_key item = (item.owner, (item.lab_id, item.id))

unfoldable pub best_per_owner_lab : List Submission → List Submission
best_per_owner_lab submissions = sort_by best_key (values (best_loop [] submissions))

abbrev pub eligible : List Submission → SnapshotRequest → List Submission
eligible submissions request = keep (λ item. is_eligible item request) submissions

abbrev pub select : SelectionPolicy → List Submission → List Submission
select SelectionPolicy.best_per_owner_lab items = best_per_owner_lab items
select all_qualifying items = items

abbrev pub snapshot_key : Submission → Text × (Text × (ℕ × Text))
snapshot_key item = (item.owner, (item.lab_id, (item.submitted_at, item.id)))

-- `selected[:limit]`; a negative limit would count from the end.
abbrev pub limited : Option ℤ → List Submission → List Submission
limited none items = items
limited (some (pos n)) items = take n items
limited (some (negsuc n)) items = take (length items - suc n) items

unfoldable pub snapshot : List Submission → SnapshotRequest → SubmissionSnapshot
snapshot submissions request = record {
  policy = request.policy;
  cutoff = request.cutoff;
  submissions =
      limited request.limit
        (sort_by snapshot_key (select request.policy (eligible submissions request)));
}
