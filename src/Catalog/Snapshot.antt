-- ===== src/Catalog/Snapshot.antt =====
-- What a snapshot of src/oj_checker/catalog.py holds.
use csoj_judger.Prelude.{
  suc, ◌-◌, ◌≡◌, true, Option, none, some, List, Memᴰ, length, mem_of_take, mem_of_keep, mem-keep,
}
use csoj_judger.Prelude.Int.{ℤ, pos, negsuc}
use csoj_judger.Prelude.Order.{nat_ord, pair_ord, list_ord}
use csoj_judger.Prelude.Sort.{
  sort_by, IsSorted, sort_by-IsSorted, take-IsSorted, mem_of_sort_by, mem-sort_by,
}
use csoj_judger.Domain.{SelectionPolicy, all_qualifying, Submission, SnapshotRequest}
use csoj_judger.Catalog.{
  is_eligible, eligible, owner_lab, best_per_owner_lab, select, snapshot_key, limited, snapshot,
}
use csoj_judger.Catalog.Best.{IsAtMost, best_per_owner_lab_correct}

mem_of_limited :
    (limit : Option ℤ) (items : List Submission) {s : Submission}
    → Memᴰ s (limited limit items)
    → Memᴰ s items
mem_of_limited none items m = m
mem_of_limited (some (pos n)) items m = mem_of_take n items m
mem_of_limited (some (negsuc n)) items m = mem_of_take (length items - suc n) items m

limited-IsSorted :
    (limit : Option ℤ) (items : List Submission)
    → IsSorted snapshot_key items
    → IsSorted snapshot_key (limited limit items)
limited-IsSorted none items h = h
limited-IsSorted (some (pos n)) items h = take-IsSorted snapshot_key n items h
limited-IsSorted (some (negsuc n)) items h =
    take-IsSorted snapshot_key (length items - suc n) items h

mem_of_select :
    (policy : SelectionPolicy) (items : List Submission) {s : Submission}
    → Memᴰ s (select policy items)
    → Memᴰ s items
mem_of_select SelectionPolicy.best_per_owner_lab items {s} m =
    (best_per_owner_lab_correct items).0 s m
mem_of_select all_qualifying items m = m

-- Under either policy and any limit, each submission of a snapshot stands in the catalog and is
-- eligible for the request, and the snapshot is in the order of owner, lab, submission time and id.
pub snapshot_sound :
    (catalog : List Submission) (request : SnapshotRequest)
    → ((s : Submission)
        → Memᴰ s (snapshot catalog request).submissions
        → Memᴰ s catalog × (is_eligible s request ≡ true))
      × IsSorted snapshot_key (snapshot catalog request).submissions
unfolding snapshot
snapshot_sound catalog request = (
  λ s m.
      mem_of_keep (λ item. is_eligible item request) catalog
        (mem_of_select request.policy (eligible catalog request) (
          mem_of_sort_by snapshot_key (select request.policy (eligible catalog request)) (
            mem_of_limited request.limit
              (sort_by snapshot_key (select request.policy (eligible catalog request))) m))),
  limited-IsSorted request.limit
      (sort_by snapshot_key (select request.policy (eligible catalog request)))
      (sort_by-IsSorted snapshot_key (select request.policy (eligible catalog request))),
)

-- What the policy promises of an eligible submission.
abbrev pub IsRepresented : SelectionPolicy → Submission → List Submission → Type 0
IsRepresented SelectionPolicy.best_per_owner_lab x items =
    (s : Submission) × Memᴰ s items × (owner_lab s ≡ owner_lab x) × IsAtMost x s
IsRepresented all_qualifying x items = Memᴰ x items

represented :
    (policy : SelectionPolicy) (items : List Submission) {x : Submission}
    → Memᴰ x items
    → IsRepresented policy x (sort_by snapshot_key (select policy items))
represented SelectionPolicy.best_per_owner_lab items {x} m =
    let (s, n, same, le) = (best_per_owner_lab_correct items).2 x m in
    (s, mem-sort_by snapshot_key (best_per_owner_lab items) n, same, le)
represented all_qualifying items m = mem-sort_by snapshot_key items m

-- With no limit, no eligible submission of the catalog is lost: it stands in the snapshot itself, or,
-- under the policy that keeps one submission for each owner and lab, one of its owner and lab that
-- ranks at least as high does.
pub snapshot_complete :
    (catalog : List Submission) (request : SnapshotRequest) (x : Submission)
    → request.limit ≡ none
    → Memᴰ x catalog
    → is_eligible x request ≡ true
    → IsRepresented request.policy x (snapshot catalog request).submissions
unfolding snapshot
snapshot_complete catalog request x unlimited m h = simp unlimited (
    represented request.policy (eligible catalog request)
      (mem-keep (λ item. is_eligible item request) catalog m h))
