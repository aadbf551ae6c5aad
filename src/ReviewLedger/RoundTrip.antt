-- ===== src/ReviewLedger/RoundTrip.antt =====
-- What is recorded in the ledger stays and is found again.
use csoj_judger.Prelude.{
  ℕ, ◌≡◌, refl, subst, ◌≢◌, ◌∙◌, ◌&&◌, Bool, true, false, Option, none, some, arith, Bool-cases,
  inl, inr, if◌then◌else◌,
}
use csoj_judger.Prelude.Order.{Text, text, ◌===◌, nat_ord, list_ord, ===_iff}
use csoj_judger.Prelude.Dict
use csoj_judger.Prelude.Dict.{Dict, put, get-put}
use csoj_judger.Prelude.Result.{Result, ok, err}
use csoj_judger.Json
use csoj_judger.Json.{
  Json, str, bool, obj, null, int, real, arr, Fields, end, field, json_eq, mapping?, str?,
}
use csoj_judger.ReviewLedger.{
  Codec, ReviewIdentity, CompletedReview, LedgerError, not_conclusive, conflict, Files, FilePath,
  equals, is_true, review_dict, lookup, lookup_at, lookup_text, review_from, stored_review,
  identity_dict, key, write_over, write_create_only, payload_of, record_at, record_review, path,
}

-- What the ledger had is unchanged, and the target holds the payload.
abbrev pub HasRecorded : Files → Files → FilePath → Text → Type 0
HasRecorded files later target payload =
    ((p : FilePath) (content : Text)
      → Dict.get files p ≡ some content
      → Dict.get later p ≡ some content)
    × (Dict.get later target ≡ some payload)

pub write_create_only-HasRecorded :
    (files later : Files) (target at : FilePath) (payload : Text)
    → write_create_only files target payload ≡ (later, ok at)
    → (target ≡ at) × HasRecorded files later target payload
unfolding write_create_only
write_create_only-HasRecorded files later target at payload = go (Dict.get files target) refl
  where
    go :
        (o : Option Text)
        → Dict.get files target ≡ o
        → write_over files target payload o ≡ (later, ok at)
        → (target ≡ at) × HasRecorded files later target payload
    go none e h =
        let same : put files target payload ≡ later = ground (arith, h) in
        let get_later : (p : FilePath)
            → Dict.get later p ≡ (if target === p then some payload else Dict.get files p) =
          λ p. cc (same, get-put files target p payload) in
        (
          ground (arith, h),
          (
            λ p content q. ground (arith, get_later p, ===_iff target p, e, q),
            ground (arith, get_later target, (===_iff target target).1 refl),
          ),
        )
    go (some old) e h = elim (Bool-cases (old === payload)) [
      | inl q ↦
          let same : files ≡ later = ground (arith, q, h) in
          let equal : old ≡ payload = (===_iff old payload).0 q in
          (ground (arith, q, h), (λ p content r. cc (same, r), cc (same, e, equal)))
      | inr q ↦ ground (arith, q, h)
    ]

-- A review that was recorded is conclusive, its path holds exactly its text, and every file that the
-- ledger had before is unchanged: a second, different result for a key is refused.
pub record_review-HasRecorded :
    (c : Codec) (files later : Files) (review : CompletedReview) (target : FilePath)
    → record_review c files review ≡ (later, ok target)
    → (review.conclusive ≡ true)
      × (path c review.identity ≡ ok target)
      × HasRecorded files later target (payload_of c review)
unfolding record_review
record_review-HasRecorded c files later review target h = check review.conclusive refl h
  where
    go :
        (o : Result LedgerError FilePath)
        → path c review.identity ≡ o
        → record_at c files review o ≡ (later, ok target)
        → (path c review.identity ≡ ok target)
          × HasRecorded files later target (payload_of c review)
    go (err e) q h = ground arith
    go (ok t) q h =
        let (same, was) =
          write_create_only-HasRecorded files later t target (payload_of c review) h in
        (cc (q, same), subst (λ x. HasRecorded files later x (payload_of c review)) same was)

    check :
        (b : Bool)
        → review.conclusive ≡ b
        → (if b
            then record_at c files review (path c review.identity)
            else (files, err not_conclusive))
          ≡ (later, ok target)
        → (review.conclusive ≡ true)
          × (path c review.identity ≡ ok target)
          × HasRecorded files later target (payload_of c review)
    check true p h = let (a, b) = go (path c review.identity) refl h in (p, a, b)
    check false p h = ground arith

-- What recording does, for each of its results: the ledger afterwards, and why.
pub data IsOutcome (c : Codec) (files later : Files) (review : CompletedReview)
    : Result LedgerError FilePath → Type 0 where
  recorded :
      (target : FilePath)
      → review.conclusive ≡ true
      → path c review.identity ≡ ok target
      → HasRecorded files later target (payload_of c review)
      → ((p : FilePath) → p ≢ target → Dict.get later p ≡ Dict.get files p)
      → IsOutcome c files later review (ok target)
  inconclusive :
      review.conclusive ≡ false
      → later ≡ files
      → IsOutcome c files later review (err not_conclusive)
  no_path :
      (e : LedgerError)
      → review.conclusive ≡ true
      → path c review.identity ≡ err e
      → later ≡ files
      → IsOutcome c files later review (err e)
  conflicting :
      (target : FilePath) (old : Text)
      → review.conclusive ≡ true
      → path c review.identity ≡ ok target
      → Dict.get files target ≡ some old
      → old ≢ payload_of c review
      → later ≡ files
      → IsOutcome c files later review (err conflict)

written-IsOutcome :
    (c : Codec) (files : Files) (review : CompletedReview) (target : FilePath)
    → review.conclusive ≡ true
    → path c review.identity ≡ ok target
    → IsOutcome c files
        (write_create_only files target (payload_of c review)).0
        review
        (write_create_only files target (payload_of c review)).1
unfolding write_create_only
written-IsOutcome c files review target p q = go (Dict.get files target) refl
  where
    go :
        (o : Option Text)
        → Dict.get files target ≡ o
        → IsOutcome c files
            (write_over files target (payload_of c review) o).0
            review
            (write_over files target (payload_of c review) o).1
    go none e =
        let payload = payload_of c review in
        recorded target p q
          (write_create_only-HasRecorded files (put files target payload) target target payload
            (rw e refl)).1
          (λ x d.
            let off : (target === x) ≡ false = ground (arith, ===_iff target x, d) in
            get-put files target x payload ∙ rw off refl)
    go (some old) e = elim (Bool-cases (old === payload_of c review)) [
      | inl y ↦ rw y (
          recorded target p q
            (write_create_only-HasRecorded files files target target (payload_of c review)
              (rw e (rw y refl))).1
            (λ x d. refl))
      | inr n ↦
          let differs : old ≢ payload_of c review =
            ground (arith, ===_iff old (payload_of c review), n) in
          rw n (conflicting target old p q e differs refl)
    ]

-- Recording has four outcomes. A conclusive review with a safe path whose file is missing or holds
-- exactly its text is recorded: the path then holds its text, and every other file is as before. In the
-- three others nothing changes in the ledger: the review is not conclusive, it has no safe path, or the
-- path holds a different text, which is a conflict.
pub record_review-IsOutcome :
    (c : Codec) (files : Files) (review : CompletedReview)
    → IsOutcome c files (record_review c files review).0 review (record_review c files review).1
unfolding record_review
record_review-IsOutcome c files review = check review.conclusive refl
  where
    at :
        (o : Result LedgerError FilePath)
        → review.conclusive ≡ true
        → path c review.identity ≡ o
        → IsOutcome c files (record_at c files review o).0 review (record_at c files review o).1
    at (err e) p q = no_path e p q refl
    at (ok target) p q = written-IsOutcome c files review target p q

    check :
        (b : Bool)
        → review.conclusive ≡ b
        → IsOutcome c files
            (if b
              then record_at c files review (path c review.identity)
              else (files, err not_conclusive)).0
            review
            (if b
              then record_at c files review (path c review.identity)
              else (files, err not_conclusive)).1
    check true p = at (path c review.identity) p refl
    check false p = inconclusive p refl

-- The loaded dictionary has each entry of the dumped one, with an equal value.
abbrev pub agrees : Fields → Fields → Bool
agrees stored end = true
agrees stored (field k v d) = equals (Json.get stored k) v && agrees stored d

equals_str : (o : Option Json) (s : Text) → equals o (str s) ≡ true → o ≡ some (str s)
equals_str none s h = ground arith
equals_str (some null) s h = ground arith
equals_str (some (bool b)) s h = ground arith
equals_str (some (int i)) s h = ground arith
equals_str (some (real r)) s h = ground arith
equals_str (some (arr xs)) s h = ground arith
equals_str (some (obj d)) s h = ground arith
equals_str (some (str t)) s h = let e : t ≡ s = (===_iff t s).0 h in cc e

equals-true : (o : Option Json) → equals o (bool true) ≡ true → is_true o ≡ true
equals-true none h = ground arith
equals-true (some null) h = ground arith
equals-true (some (bool true)) h = refl
equals-true (some (bool false)) h = ground arith
equals-true (some (int i)) h = ground arith
equals-true (some (real r)) h = ground arith
equals-true (some (arr xs)) h = ground arith
equals-true (some (obj d)) h = ground arith
equals-true (some (str t)) h = ground arith

equals_obj :
    (o : Option Json) (d : Fields)
    → equals o (obj d) ≡ true
    → (e : Fields) × (o ≡ some (obj e)) × (json_eq (obj e) (obj d) ≡ true)
equals_obj none d h = ground arith
equals_obj (some null) d h = ground arith
equals_obj (some (bool b)) d h = ground arith
equals_obj (some (int i)) d h = ground arith
equals_obj (some (real r)) d h = ground arith
equals_obj (some (arr xs)) d h = ground arith
equals_obj (some (str t)) d h = ground arith
equals_obj (some (obj e)) d h = (e, refl, h)

-- The review that `lookup` finds, next to the recorded one.
pub data IsSame (review found : CompletedReview) : Type 0 where
  is_same :
      found.identity ≡ review.identity
      → found.completed_at ≡ review.completed_at
      → found.model_response_digest ≡ review.model_response_digest
      → found.conclusive ≡ true
      → json_eq (obj found.verdict) (obj review.verdict) ≡ true
      → json_eq (obj found.evidence) (obj review.evidence) ≡ true
      → IsSame review found

abbrev made : ReviewIdentity → ℕ → Fields → Text → Fields → CompletedReview
made i at verdict digest evidence = record {
  identity = i;
  completed_at = at;
  verdict = verdict;
  model_response_digest = digest;
  conclusive = true;
  evidence = evidence;
}

made-IsSame :
    (review : CompletedReview) (verdict evidence : Fields)
    → json_eq (obj verdict) (obj review.verdict) ≡ true
    → json_eq (obj evidence) (obj review.evidence) ≡ true
    → IsSame review
        (made review.identity review.completed_at verdict review.model_response_digest evidence)
made-IsSame review verdict evidence v e = is_same refl refl refl refl v e

-- A lookup of a file whose parts are in order.
lookup-made :
    (c : Codec) (later : Files) (i : ReviewIdentity) (target : FilePath) (content : Text)
    (stored : Fields) (at : ℕ) (verdict : Fields) (digest : Text) (evidence : Fields) (stamp : Text)
    → path c i ≡ ok target
    → Dict.get later target ≡ some content
    → c.loads content ≡ some (obj stored)
    → equals (Json.get stored (text "identity")) (obj (identity_dict i)) ≡ true
    → equals (Json.get stored (text "review_key")) (str (key c i)) ≡ true
    → is_true (Json.get stored (text "conclusive")) ≡ true
    → Json.get stored (text "verdict") ≡ some (obj verdict)
    → Json.get stored (text "completed_at") ≡ some (str stamp)
    → c.fromisoformat stamp ≡ some at
    → Json.get stored (text "model_response_digest") ≡ some (str digest)
    → Json.get stored (text "evidence") ≡ some (obj evidence)
    → lookup c later i ≡ ok (some (made i at verdict digest evidence))
unfolding lookup
lookup-made c later i target content stored at verdict digest evidence stamp p has l e2 e1 f6 f4 f3
      time f5 f7 =
    let w1 : stored_review c i stored ≡ ok (some (made i at verdict digest evidence)) =
      rw f4 (rw f3 (rw time (rw f5 (rw f7 refl)))) in
    let w2 : review_from c i (some stored) ≡ ok (some (made i at verdict digest evidence)) =
      rw e2 (rw e1 (rw f6 w1)) in
    let w3 : lookup_text c i (some content) ≡ ok (some (made i at verdict digest evidence)) =
      rw (l, lookup_text) w2 in
    let w4 : lookup_at c later i (ok target) ≡ ok (some (made i at verdict digest evidence)) =
      rw has w3 in
    rw p w4

-- After a review was recorded, a lookup of its identity finds a review with its identity, time and
-- response digest, with an equal verdict and equal evidence, where `json.loads` gives an equal
-- dictionary for the recorded text and `fromisoformat` the instant of the recorded timestamp.
pub lookup-record_review :
    (c : Codec) (files later : Files) (review : CompletedReview) (target : FilePath)
    (stored : Fields)
    → record_review c files review ≡ (later, ok target)
    → c.loads (payload_of c review) ≡ some (obj stored)
    → agrees stored (review_dict c review) ≡ true
    → c.fromisoformat (c.isoformat review.completed_at) ≡ some review.completed_at
    → (found : CompletedReview) × (lookup c later review.identity ≡ ok (some found))
      × IsSame review found
lookup-record_review c files later review target stored h loaded same time =
    let (conclusive, at, (keeps, has)) = record_review-HasRecorded c files later review target h in
    let i = review.identity in
    let e1 : equals (Json.get stored (text "review_key")) (str (key c i)) ≡ true =
      ground (arith, same) in
    let e2 : equals (Json.get stored (text "identity")) (obj (identity_dict i)) ≡ true =
      ground (arith, same) in
    let e3 : equals (Json.get stored (text "completed_at")) (str (c.isoformat review.completed_at))
        ≡ true =
      ground (arith, same) in
    let e4 : equals (Json.get stored (text "verdict")) (obj review.verdict) ≡ true =
      ground (arith, same) in
    let e5 : equals (Json.get stored (text "model_response_digest"))
          (str review.model_response_digest)
        ≡ true =
      ground (arith, same) in
    let e6 : equals (Json.get stored (text "conclusive")) (bool review.conclusive) ≡ true =
      ground (arith, same) in
    let e7 : equals (Json.get stored (text "evidence")) (obj review.evidence) ≡ true =
      ground (arith, same) in
    let f3 =
      equals_str (Json.get stored (text "completed_at")) (c.isoformat review.completed_at) e3 in
    let (verdict, f4, g4) = equals_obj (Json.get stored (text "verdict")) review.verdict e4 in
    let f5 =
      equals_str (Json.get stored (text "model_response_digest")) review.model_response_digest e5 in
    let f6 = equals-true (Json.get stored (text "conclusive")) (cc (e6, conclusive)) in
    let (evidence, f7, g7) = equals_obj (Json.get stored (text "evidence")) review.evidence e7 in
    let e6t : is_true (Json.get stored (text "conclusive")) ≡ true = f6 in
    (
      made i review.completed_at verdict review.model_response_digest evidence,
      lookup-made c later i target (payload_of c review) stored review.completed_at verdict
          review.model_response_digest evidence (c.isoformat review.completed_at) at has loaded e2
          e1 e6t f4 f3 time f5 f7,
      made-IsSame review verdict evidence g4 g7,
    )
