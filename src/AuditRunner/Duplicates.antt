-- ===== src/AuditRunner/Duplicates.antt =====
-- `_exact_duplicate_tasks` of src/oj_checker/runner.py: the pairs of submissions of one lab whose
-- inputs have one digest.
pub mod Groups
pub mod Representatives
pub mod Pairs
use csoj_judger.Prelude.{
  ℕ, Option, none, some, List, [], ◌∷◌, ◌++◌, map, is_nil, length, ltb, if◌then◌else◌,
}
use csoj_judger.Prelude.Order.{Text, text, ◌<=◌, nat_ord, pair_ord, list_ord}
use csoj_judger.Prelude.Dict.{Dict, get, put, values}
use csoj_judger.Prelude.Sort.{sort_by}
use csoj_judger.Json.{Json, str, obj, Fields, fields, arr, items}
use csoj_judger.Domain.{Submission, AuditTask, single_review, exact_duplicate}

abbrev pub Groups : Type 0
Groups = Dict (Text × Text) (List Submission)

abbrev pub group_key : Submission → Text × Text
group_key s = (s.lab_id, s.input_digest)

-- `groups[key]` of a `defaultdict(list)`.
abbrev pub group_of : Option (List Submission) → List Submission
group_of none = []
group_of (some members) = members

unfoldable pub add_to_group : Groups → Submission → Groups
add_to_group groups s =
    if is_nil s.input_digest
    then groups
    else put groups (group_key s) (group_of (get groups (group_key s)) ++ (s ∷ []))

unfoldable pub group_all : Groups → List Submission → Groups
group_all groups [] = groups
group_all groups (s ∷ rest) = group_all (add_to_group groups s) rest

abbrev pub Representatives : Type 0
Representatives = Dict Text Submission

-- `representatives.setdefault(member.owner, member)`.
unfoldable pub set_default : Representatives → Submission → Representatives
set_default chosen s = elim (get chosen s.owner) [
  | none ↦ put chosen s.owner s
  | some first ↦ chosen
]

unfoldable pub choose_all : Representatives → List Submission → Representatives
choose_all chosen [] = chosen
choose_all chosen (s ∷ rest) = choose_all (set_default chosen s) rest

-- `itertools.combinations(xs, 2)`.
abbrev pub pairs_with {ℓ} : {A : Type ℓ} → A → List A → List (A × A)
pairs_with x [] = []
pairs_with x (y ∷ ys) = (x, y) ∷ pairs_with x ys

unfoldable pub combinations {ℓ} : {A : Type ℓ} → List A → List (A × A)
combinations [] = []
combinations (x ∷ xs) = pairs_with x xs ++ combinations xs

abbrev pub time_key : Submission → ℕ × Text
time_key s = (s.submitted_at, s.id)

-- `sorted((first, second), key=...)`.
abbrev pub in_order : Submission × Submission → Submission × Submission
in_order (a, b) = if time_key a <= time_key b then (a, b) else (b, a)

module _ (task_key : Json → Text) where
  abbrev pub pair_payload : Text → Text → Text → Text → Json
  pair_payload lab_id digest first second = obj (
      fields (
        (text "kind", str (text "exact_duplicate"))
        ∷ (text "lab_id", str lab_id)
        ∷ (text "input_digest", str digest)
        ∷ (text "submission_ids", arr (items (str first ∷ str second ∷ [])))
        ∷ []))

  -- A task of the pair, oldest first.
  abbrev pub pair_task : Text → Text → Submission × Submission → AuditTask
  pair_task lab_id digest (a, b) = record {
    key = task_key (pair_payload lab_id digest a.id b.id);
    kind = exact_duplicate;
    lab_id = lab_id;
    submission_ids = a.id ∷ b.id ∷ [];
    input_digest = digest;
    input_digests = [];
    source_delta_digests = [];
    similarity_signal = none;
    jaccard = none;
  }

  abbrev pub tasks_of : Text → Text → List (Submission × Submission) → List AuditTask
  tasks_of lab_id digest [] = []
  tasks_of lab_id digest (p ∷ ps) = pair_task lab_id digest (in_order p) ∷ tasks_of lab_id digest ps

  abbrev pub group_tasks : Text → Text → Representatives → List AuditTask
  group_tasks lab_id digest chosen =
      if ltb (length chosen) 2
      then []
      else tasks_of lab_id digest
          (combinations (sort_by (λ (s : Submission). s.owner) (values chosen)))

  unfoldable pub all_group_tasks : Groups → List AuditTask
  all_group_tasks [] = []
  all_group_tasks (((lab_id, digest), members) ∷ rest) =
      group_tasks lab_id digest (choose_all [] (sort_by time_key members)) ++ all_group_tasks rest

  unfoldable pub exact_duplicate_tasks : List Submission → List AuditTask
  exact_duplicate_tasks submissions = all_group_tasks (group_all [] submissions)

  -- `_single_review_task`.
  unfoldable pub single_review_task : Submission → AuditTask
  single_review_task s = record {
    key = task_key (
        obj (
          fields (
            (text "kind", str (text "single_review"))
            ∷ (text "submission_id", str s.id)
            ∷ (text "input_digest", str s.input_digest)
            ∷ [])));
    kind = single_review;
    lab_id = s.lab_id;
    submission_ids = s.id ∷ [];
    input_digest = s.input_digest;
    input_digests = [];
    source_delta_digests = [];
    similarity_signal = none;
    jaccard = none;
  }
