-- ===== src/Similarity/Target/Laws.antt =====
-- What `detect_for_submission` reports.
use csoj_judger.Prelude.{
  ℕ, suc, ◌≤◌, ◌≡◌, refl, sym, ap, subst, ◌∙◌, ◌≢◌, ◌↔◌, inl, inr, true, false, Option, none, some,
  List, [], ◌∷◌, Memᴰ, arith, Bool-cases, keep, mem_of_keep,
}
use csoj_judger.Prelude.Order.{
  Text, ◌<=◌, ◌===◌, ===_iff, nat_ord, list_ord, pair_ord, antisym_le, le_of_not_le,
}
use csoj_judger.Prelude.Sort.{sort_by, mem_of_sort_by, mem-sort_by}
use csoj_judger.Prelude.Result.{ok}
use csoj_judger.Similarity.Data.{
  SimilarityDocument, SimilarityPolicy, SimilaritySignal, SimilarityCandidate, CandidateSet,
  seniority, candidate, corpus_order,
}
use csoj_judger.Similarity.Shingles.{Shingle, delta_shingles, jaccard}
use csoj_judger.Similarity.Shingles.Symmetry.{jaccard_comm, delta_shingles-IsDistinct}
use csoj_judger.Similarity.Target.{
  Position, enumerate, signal_of, is_skipped, candidate_for, with_signal, add_some, target_loop,
  is_target, candidate_ids, target_set, detect_target, detect_for_submission,
}

===_comm : (a b : Text) → (a === b) ≡ (b === a)
===_comm a b = ground (arith, ===_iff a b, ===_iff b a)

signal_of_comm :
    (policy : SimilarityPolicy) (x y : SimilarityDocument) (a b : List Shingle)
    → jaccard a b ≡ jaccard b a
    → signal_of policy x y a b ≡ signal_of policy y x b a
unfolding signal_of
signal_of_comm policy x y a b h = rw h (
    ground (
      arith,
      ===_comm x.submission.input_digest y.submission.input_digest,
      ===_comm x.delta.digest y.delta.digest,
    ))

candidate_comm :
    (x y : SimilarityDocument) (signal : SimilaritySignal) (a b : List Shingle)
    → x.submission.id ≢ y.submission.id
    → x.submission.lab_id ≡ y.submission.lab_id
    → jaccard a b ≡ jaccard b a
    → candidate x y signal (jaccard a b) ≡ candidate y x signal (jaccard b a)
unfolding candidate
candidate_comm x y signal a b h k e = elim (Bool-cases (seniority x <= seniority y)) [
  | inl p ↦ elim (Bool-cases (seniority y <= seniority x)) [
    | inl q ↦ absurd (h (ap (λ (s : ℕ × Text). s.1) (same_rank p q)))
    | inr q ↦ rw p (rw q (rw (k, e)))
  ]
  | inr p ↦ rw p (rw (le_of_not_le (seniority x) (seniority y) p) (rw (k, e)))
]
  where
    same_rank :
        (seniority x <= seniority y) ≡ true
        → (seniority y <= seniority x) ≡ true
        → seniority x ≡ seniority y
    same_rank p q = antisym_le (seniority x) (seniority y) p q

with_signal_comm :
    (x y : SimilarityDocument) (a b : List Shingle)
    → x.submission.id ≢ y.submission.id
    → x.submission.lab_id ≡ y.submission.lab_id
    → jaccard a b ≡ jaccard b a
    → (o : Option SimilaritySignal)
    → with_signal x y (jaccard a b) o ≡ with_signal y x (jaccard b a) o
with_signal_comm x y a b h k same none = refl
with_signal_comm x y a b h k same (some signal) = ap some (candidate_comm x y signal a b h k same)

-- Of two documents of one lab with different ids, each reports the other with the same candidate,
-- or neither reports the other: what is found does not depend on which of them is the target.
pub candidate_for_comm :
    (find_tokens : Text → List Text) (policy : SimilarityPolicy) (x y : SimilarityDocument)
    → x.submission.id ≢ y.submission.id
    → x.submission.lab_id ≡ y.submission.lab_id
    → candidate_for find_tokens policy x y ≡ candidate_for find_tokens policy y x
unfolding candidate_for
candidate_for_comm find_tokens policy x y h k =
    let a = delta_shingles find_tokens x.delta policy in
    let b = delta_shingles find_tokens y.delta policy in
    let same =
      jaccard_comm a b (delta_shingles-IsDistinct find_tokens x.delta policy)
        (delta_shingles-IsDistinct find_tokens y.delta policy) in
    with_signal_comm x y a b h k same (signal_of policy x y a b)
    ∙ ap (with_signal y x (jaccard b a)) (signal_of_comm policy x y a b same)

mem_of_enumerate :
    (n : ℕ) (ds : List SimilarityDocument) {p : Position} → Memᴰ p (enumerate n ds) → Memᴰ p.1 ds
mem_of_enumerate n [] m = elim m [ ]
mem_of_enumerate n (d ∷ ds) (Memᴰ.head e) = Memᴰ.head (ap (λ (p : Position). p.1) e)
mem_of_enumerate n (d ∷ ds) (Memᴰ.tail m) = Memᴰ.tail (mem_of_enumerate (suc n) ds m)

mem-enumerate :
    (n : ℕ) (ds : List SimilarityDocument) {d : SimilarityDocument}
    → Memᴰ d ds
    → (i : ℕ) × Memᴰ (i, d) (enumerate n ds)
mem-enumerate n [] m = elim m [ ]
mem-enumerate n (e ∷ ds) (Memᴰ.head p) = (n, Memᴰ.head (ap (λ d. (n, d)) p))
mem-enumerate n (e ∷ ds) (Memᴰ.tail m) = let (i, r) = mem-enumerate (suc n) ds m in (i, Memᴰ.tail r)

le_of_mem-enumerate :
    (n : ℕ) (ds : List SimilarityDocument) {p : Position} → Memᴰ p (enumerate n ds) → n ≤ p.0
le_of_mem-enumerate n [] m = elim m [ ]
le_of_mem-enumerate n (d ∷ ds) {p} (Memᴰ.head e) =
    let same : p.0 ≡ n = ap (λ (q : Position). q.0) e in omega arith
le_of_mem-enumerate n (d ∷ ds) {p} (Memᴰ.tail m) = omega (arith, le_of_mem-enumerate (suc n) ds m)

-- An index stands for one document.
enumerate_unique :
    (n : ℕ) (ds : List SimilarityDocument) {p q : Position}
    → Memᴰ p (enumerate n ds)
    → Memᴰ q (enumerate n ds)
    → p.0 ≡ q.0
    → p.1 ≡ q.1
enumerate_unique n [] m k h = elim m [ ]
enumerate_unique n (d ∷ ds) (Memᴰ.head e) (Memᴰ.head f) h = ap (λ (p : Position). p.1) (e ∙ sym f)
enumerate_unique n (d ∷ ds) {p} {q} (Memᴰ.head e) (Memᴰ.tail k) h =
    let same : p.0 ≡ n = ap (λ (r : Position). r.0) e in
    absurd (omega (arith, le_of_mem-enumerate (suc n) ds k))
enumerate_unique n (d ∷ ds) {p} {q} (Memᴰ.tail m) (Memᴰ.head f) h =
    let same : q.0 ≡ n = ap (λ (r : Position). r.0) f in
    absurd (omega (arith, le_of_mem-enumerate (suc n) ds m))
enumerate_unique n (d ∷ ds) (Memᴰ.tail m) (Memᴰ.tail k) h = enumerate_unique (suc n) ds m k h

module _ (find_tokens : Text → List Text) (policy : SimilarityPolicy) (target : Position) where
  loop_sound :
      (others : List Position) {c : SimilarityCandidate}
      → Memᴰ c (target_loop find_tokens policy target others)
      → (o : Position) × Memᴰ o others
        × (is_skipped target o ≡ false)
        × (candidate_for find_tokens policy target.1 o.1 ≡ some c)
  unfolding target_loop
  loop_sound [] m = elim m [ ]
  loop_sound (o ∷ others) {c} m = elim (Bool-cases (is_skipped target o)) [
    | inl p ↦ later (loop_sound others (rw p at m))
    | inr p ↦
        taken p (candidate_for find_tokens policy target.1 o.1) refl (loop_sound others) (rw p at m)
  ]
    where
      Found : List Position → Type 0
      Found os =
          (q : Position) × Memᴰ q os
          × (is_skipped target q ≡ false)
          × (candidate_for find_tokens policy target.1 q.1 ≡ some c)

      later : Found others → Found (o ∷ others)
      later (q, n, s, e) = (q, Memᴰ.tail n, s, e)

      taken :
          is_skipped target o ≡ false
          → (found : Option SimilarityCandidate)
          → candidate_for find_tokens policy target.1 o.1 ≡ found
          → (Memᴰ c (target_loop find_tokens policy target others) → Found others)
          → Memᴰ c (add_some found (target_loop find_tokens policy target others))
          → Found (o ∷ others)
      taken p none e ih n = later (ih n)
      taken p (some d) e ih (Memᴰ.head q) = (o, Memᴰ.head refl, p, e ∙ ap some (sym q))
      taken p (some d) e ih (Memᴰ.tail n) = later (ih n)

  loop_complete :
      (others : List Position) {o : Position} {c : SimilarityCandidate}
      → Memᴰ o others
      → is_skipped target o ≡ false
      → candidate_for find_tokens policy target.1 o.1 ≡ some c
      → Memᴰ c (target_loop find_tokens policy target others)
  unfolding target_loop
  loop_complete [] m s e = elim m [ ]
  loop_complete (q ∷ others) {o} {c} (Memᴰ.head p) s e =
      rw (subst (λ z. is_skipped target z ≡ false) p s) (
        rw (subst (λ (z : Position). candidate_for find_tokens policy target.1 z.1 ≡ some c) p e)
          (Memᴰ.head refl))
  loop_complete (q ∷ others) {o} {c} (Memᴰ.tail m) s e = elim (Bool-cases (is_skipped target q)) [
    | inl p ↦ rw p (loop_complete others m s e)
    | inr p ↦
        rw p (onto (candidate_for find_tokens policy target.1 q.1) (loop_complete others m s e))
  ]
    where
      onto :
          (found : Option SimilarityCandidate)
          → Memᴰ c (target_loop find_tokens policy target others)
          → Memᴰ c (add_some found (target_loop find_tokens policy target others))
      onto none n = n
      onto (some d) n = Memᴰ.tail n

-- What makes a candidate of a target and another document.
abbrev pub Reports :
    (Text → List Text)
    → SimilarityPolicy
    → SimilarityDocument
    → SimilarityDocument
    → SimilarityCandidate
    → Type 0
Reports find_tokens policy target other c =
    (other.submission.lab_id ≡ target.submission.lab_id)
    × (other.submission.owner ≢ target.submission.owner)
    × (candidate_for find_tokens policy target other ≡ some c)

not-skipped :
    (t o : Position)
    → is_skipped t o ≡ false
    → (o.1.submission.lab_id ≡ t.1.submission.lab_id)
      × (o.1.submission.owner ≢ t.1.submission.owner)
not-skipped (i, t) (j, o) h = (
  ground (arith, ===_iff o.submission.lab_id t.submission.lab_id),
  λ e. ground (arith, ===_iff o.submission.owner t.submission.owner),
)

skipped_not :
    (t o : Position)
    → o.0 ≢ t.0
    → o.1.submission.lab_id ≡ t.1.submission.lab_id
    → o.1.submission.owner ≢ t.1.submission.owner
    → is_skipped t o ≡ false
skipped_not (i, t) (j, o) h lab owner = ground (
  arith,
  ===_iff o.submission.lab_id t.submission.lab_id,
  ===_iff o.submission.owner t.submission.owner,
)

-- Where the search for a target succeeds, the target is a document of the corpus with the wanted id,
-- and a candidate is reported exactly when some document of the target's lab and of another owner
-- makes it with the target: nothing else is reported, and no such document is passed over.
pub detect_for_submission_iff :
    (find_tokens : Text → List Text) (id : Text) (documents : List SimilarityDocument)
    (policy : SimilarityPolicy) (found : CandidateSet)
    → detect_for_submission find_tokens id documents policy ≡ ok found
    → (target : SimilarityDocument) × Memᴰ target documents
      × (target.submission.id ≡ id)
      × ((c : SimilarityCandidate)
          → Memᴰ c found.candidates ↔ (
              (other : SimilarityDocument) × Memᴰ other documents
              × Reports find_tokens policy target other c))
unfolding detect_for_submission
detect_for_submission_iff find_tokens id documents policy found h =
    go (keep (is_target id) (enumerate 0 ordered)) h
      (λ p m. mem_of_keep (is_target id) (enumerate 0 ordered) m)
  where
    ordered : List SimilarityDocument
    ordered = sort_by corpus_order documents

    Meaning : SimilarityDocument → CandidateSet → Type 0
    Meaning target set =
        (c : SimilarityCandidate)
        → Memᴰ c set.candidates ↔ (
            (other : SimilarityDocument) × Memᴰ other documents
            × Reports find_tokens policy target other c)

    reported :
        (t : Position) (c : SimilarityCandidate)
        → Memᴰ c (sort_by candidate_ids (target_loop find_tokens policy t (enumerate 0 ordered)))
        → (other : SimilarityDocument) × Memᴰ other documents
          × Reports find_tokens policy t.1 other c
    reported t c m =
        let (o, n, s, e) = loop_sound find_tokens policy t (enumerate 0 ordered) (
          mem_of_sort_by candidate_ids (target_loop find_tokens policy t (enumerate 0 ordered))
            m) in
        let (lab, owner) = not-skipped t o s in
        (o.1, mem_of_sort_by corpus_order documents (mem_of_enumerate 0 ordered n), (lab, owner, e))

    kept :
        (t : Position) (c : SimilarityCandidate)
        → Memᴰ t (enumerate 0 ordered)
        → ((other : SimilarityDocument) × Memᴰ other documents
            × Reports find_tokens policy t.1 other c)
        → Memᴰ c (sort_by candidate_ids (target_loop find_tokens policy t (enumerate 0 ordered)))
    kept t c at (other, m, (lab, owner, e)) =
        let (j, n) = mem-enumerate 0 ordered (mem-sort_by corpus_order documents m) in
        let apart : j ≢ t.0 =
          λ same. owner (ap (λ d. d.submission.owner) (enumerate_unique 0 ordered n at same)) in
        mem-sort_by candidate_ids (target_loop find_tokens policy t (enumerate 0 ordered)) (
          loop_complete find_tokens policy t (enumerate 0 ordered) n
            (skipped_not t (j, other) apart lab owner) e)

    go :
        (l : List Position)
        → detect_target find_tokens policy ordered l ≡ ok found
        → ((p : Position) → Memᴰ p l → Memᴰ p (enumerate 0 ordered) × (is_target id p ≡ true))
        → (target : SimilarityDocument) × Memᴰ target documents
          × (target.submission.id ≡ id)
          × Meaning target found
    go [] q sub = absurd (cc q)
    go (t ∷ u ∷ l) q sub = absurd (cc q)
    go (t ∷ []) q sub =
        let (at, same_id) = sub t (Memᴰ.head refl) in
        let e : target_set find_tokens policy ordered t ≡ found = cc q in
        (
          t.1,
          mem_of_sort_by corpus_order documents (mem_of_enumerate 0 ordered at),
          (===_iff t.1.submission.id id).0 same_id,
          subst (Meaning t.1) e (λ c. (reported t c, kept t c at)),
        )
