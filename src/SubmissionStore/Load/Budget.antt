-- ===== src/SubmissionStore/Load/Budget.antt =====
-- `load_bundle` keeps the byte budgets, and a file that it does not mark as truncated is whole.
use csoj_judger.Prelude.{
  ℕ, suc, ◌+◌, ◌-◌, ◌≤◌, ◌≡◌, refl, inl, inr, Bool, false, Option, none, some, List, [], ◌∷◌, Memᴰ,
  arith, Bool-cases, length, take, min, leb, length-take_le, take_short, subst, sym, ap,
}
use csoj_judger.Prelude.Order.{Text, nat_ord, list_ord}
use csoj_judger.Prelude.Sort.{sort_by}
use csoj_judger.Prelude.Result.{Result, ok, err, ◌>>=◌, returned}
use csoj_judger.Domain.{Submission}
use csoj_judger.SubmissionStore.Base.{
  StoreError, total_budget, SourcePolicy, SourceFile, SourceBundle,
}
use csoj_judger.SubmissionStore.Limits.{effective_source_limits, is_source_path}
use csoj_judger.SubmissionStore.Files.{
  Node, open_regular_file_from_roots, read_prefix, read_file_from_roots, validate_file_from_roots,
}
use csoj_judger.SubmissionStore.Load.{
  ManifestEntry, Reading, omission, read_source, read_sources, entry_path, bundle_of, read_bundle,
  reading, load_entries, load_bundle,
}

-- What the loop promises of one file that it read.
pub record IsRead (r : Reading) (total : ℕ) (e : ManifestEntry) (f : SourceFile) : Type 0 where
  pub same_path : f.path ≡ e.path
  pub within_file : f.bytes_read ≤ r.max_file_bytes
  pub within_total : total + f.bytes_read ≤ r.max_total_bytes
  pub whole :
      f.omission_reason ≡ none
      → (bytes : List ℕ) × (open_regular_file_from_roots r.roots r.submission.id e.parts ≡ ok bytes)
        × (f.content ≡ r.decode bytes)
        × (f.bytes_read ≡ length bytes)

-- A read prefix is no longer than the limit, and is the whole content unless it is cut.
read_prefix_lem :
    (limit : ℕ) (content : List ℕ)
    → (length (read_prefix limit content).0 ≤ limit)
      × ((read_prefix limit content).1 ≡ false → (read_prefix limit content).0 ≡ content)
unfolding read_prefix
read_prefix_lem limit content =
    (length-take_le limit (take (suc limit) content), λ h. take_short limit content (ground arith))

omission-eq-none : (n m : ℕ) (cut : Bool) → omission n m cut ≡ none → cut ≡ false
omission-eq-none n m cut h = ground arith

read_source-IsRead :
    (r : Reading) (total : ℕ) (e : ManifestEntry) (f : SourceFile)
    → total ≤ r.max_total_bytes
    → read_source r total e ≡ ok f
    → IsRead r total e f
unfolding read_source validate_file_from_roots read_file_from_roots
read_source-IsRead r total e f room h = elim (Bool-cases (leb r.max_total_bytes total)) [
  | inl full ↦ skipped (open_regular_file_from_roots r.roots r.submission.id e.parts) (rw full at h)
  | inr space ↦
      read (open_regular_file_from_roots r.roots r.submission.id e.parts) refl (rw space at h)
]
  where
    skip : SourceFile
    skip = record {
      path = e.path;
      declared_bytes = e.declared_bytes;
      declared_sha256 = e.declared_sha256;
      content = [];
      bytes_read = 0;
      omission_reason = some total_budget;
    }

    made : List ℕ × Bool → SourceFile
    made p = record {
      path = e.path;
      declared_bytes = e.declared_bytes;
      declared_sha256 = e.declared_sha256;
      content = r.decode p.0;
      bytes_read = length p.0;
      omission_reason = omission r.max_file_bytes (r.max_total_bytes - total) p.1;
    }

    is_skip : f ≡ skip → IsRead r total e f
    is_skip q = subst (IsRead r total e) (sym q) (record {
      same_path = refl;
      within_file = omega arith;
      within_total = omega arith;
      whole = λ n. absurd (cc n);
    })

    fine : Result StoreError (Unit {0})
    fine = ok tt

    skipped :
        (o : Result StoreError (List ℕ))
        → ((o >>= λ content. fine) >>= λ u. ok skip) ≡ ok f
        → IsRead r total e f
    skipped (ok bytes) q = is_skip (cc q)
    skipped (err x) q = absurd (cc q)

    limit : ℕ
    limit = min r.max_file_bytes (r.max_total_bytes - total)

    is_made :
        (content : List ℕ)
        → open_regular_file_from_roots r.roots r.submission.id e.parts ≡ ok content
        → IsRead r total e (made (read_prefix limit content))
    is_made content opened =
        let (short, all) = read_prefix_lem limit content in
        record {
          same_path = refl;
          within_file = omega (arith, short);
          within_total = omega (arith, short, room);
          whole = λ n.
              let same = all (omission-eq-none _ _ _ n) in
              (content, opened, ap r.decode same, ap length same);
        }

    read :
        (o : Result StoreError (List ℕ))
        → open_regular_file_from_roots r.roots r.submission.id e.parts ≡ o
        → ((o >>= λ content. ok (read_prefix limit content)) >>= λ p. ok (made p)) ≡ ok f
        → IsRead r total e f
    read (ok bytes) opened q =
        let same : made (read_prefix limit bytes) ≡ f = cc q in
        subst (IsRead r total e) same (is_made bytes opened)
    read (err x) opened q = absurd (cc q)

abbrev pub total_of : List SourceFile → ℕ
total_of [] = 0
total_of (f ∷ fs) = f.bytes_read + total_of fs

-- Each file of the loop's result was read for an entry of the manifest, at some total so far.
abbrev pub AreRead : Reading → List ManifestEntry → List SourceFile → Type 0
AreRead r es [] = Unit
AreRead r es (f ∷ fs) =
    ((e : ManifestEntry) × Memᴰ e es × ((total : ℕ) × IsRead r total e f)) × AreRead r es fs

AreRead-weaken :
    (r : Reading) (e : ManifestEntry) (es : List ManifestEntry) (fs : List SourceFile)
    → AreRead r es fs
    → AreRead r (e ∷ es) fs
AreRead-weaken r e es [] h = tt
AreRead-weaken r e es (f ∷ fs) h = ((h.0.0, Memᴰ.tail h.0.1, h.0.2), AreRead-weaken r e es fs h.1)

abbrev Read : Reading → ℕ → List ManifestEntry → List SourceFile × ℕ → Type 0
Read r total es (fs, final) =
    (final ≡ total + total_of fs) × (final ≤ r.max_total_bytes) × AreRead r es fs

read_sources-Read :
    (r : Reading) (total : ℕ) (es : List ManifestEntry) (res : List SourceFile × ℕ)
    → total ≤ r.max_total_bytes
    → read_sources r total es ≡ ok res
    → Read r total es res
unfolding read_sources
read_sources-Read r total [] res room h =
    let e : ◌≡◌ {A = List SourceFile × ℕ} ([], total) res = cc h in
    subst (Read r total []) e (omega arith, room, tt)
read_sources-Read r total (e ∷ es) res room h =
    elim (Bool-cases (is_source_path e.path r.policy r.submission.lab_definition)) [
      | inl source ↦ take_file (λ t p. read_sources-Read r t es p) (rw source at h)
      | inr other ↦ weaken (read_sources-Read r total es res room (rw other at h))
    ]
  where
    weaken : Read r total es res → Read r total (e ∷ es) res
    weaken (sum, fits, each) = (sum, fits, AreRead-weaken r e es res.0 each)

    Rest : Type 0
    Rest =
        (t : ℕ) (p : List SourceFile × ℕ)
        → t ≤ r.max_total_bytes
        → read_sources r t es ≡ ok p
        → Read r t es p

    joined :
        (f : SourceFile) (p : List SourceFile × ℕ)
        → IsRead r total e f
        → Read r (total + f.bytes_read) es p
        → Read r total (e ∷ es) (f ∷ p.0, p.1)
    joined f p first (sum, fits, each) =
        (omega arith, fits, ((e, Memᴰ.head refl, (total, first)), AreRead-weaken r e es p.0 each))

    add_file : SourceFile → List SourceFile × ℕ → Result StoreError (List SourceFile × ℕ)
    add_file f p = ok (f ∷ p.0, p.1)

    take_file :
        Rest
        → (read_source r total e >>= λ f. read_sources r (total + f.bytes_read) es >>= add_file f)
          ≡ ok res
        → Read r total (e ∷ es) res
    take_file ih q =
        let (f, read, q') =
          returned (read_source r total e)
            (λ f. read_sources r (total + f.bytes_read) es >>= add_file f) q in
        let (p, rest, q'') = returned (read_sources r (total + f.bytes_read) es) (add_file f) q' in
        let first = read_source-IsRead r total e f room read in
        let same : (f ∷ p.0, p.1) ≡ res = cc q'' in
        subst (Read r total (e ∷ es)) same
          (joined f p first (ih (total + f.bytes_read) p first.within_total rest))

-- A bundle that is loaded holds as many bytes as its files were read, no more than the total limit
-- in force; each of its files was read for an accepted entry of the manifest, stays within the file
-- limit in force, and, if it is not marked as omitted, is the whole content of the regular file that
-- was opened at the entry's path, decoded.
pub load_bundle_within_budget :
    (roots : List (Option Node)) (decode : List ℕ → Text) (policy : SourcePolicy)
    (submission : Submission) (bundle : SourceBundle)
    → load_bundle roots decode policy submission ≡ ok bundle
    → (entries : List ManifestEntry) × (load_entries policy submission ≡ ok entries)
      × (bundle.total_bytes_read ≡ total_of bundle.files)
      × (bundle.total_bytes_read ≤ (effective_source_limits policy submission.lab_definition).1)
      × AreRead (reading roots decode policy submission) (sort_by entry_path entries) bundle.files
unfolding load_bundle read_bundle
load_bundle_within_budget roots decode policy submission bundle h =
    let r = reading roots decode policy submission in
    let (entries, loaded, h') = returned (load_entries policy submission) (read_bundle r) h in
    let (result, read, h'') =
      returned (read_sources r 0 (sort_by entry_path entries)) (made r entries) h' in
    let (sum, fits, each) =
      read_sources-Read r 0 (sort_by entry_path entries) result (omega arith) read in
    let same : bundle_of r entries result ≡ bundle = cc h'' in
    subst (Within r entries) same (entries, loaded, omega (arith, sum), fits, each)
  where
    made : Reading → List ManifestEntry → List SourceFile × ℕ → Result StoreError SourceBundle
    made r entries result = ok (bundle_of r entries result)

    Within : Reading → List ManifestEntry → SourceBundle → Type 0
    Within r entries b =
        (es : List ManifestEntry) × (load_entries policy submission ≡ ok es)
        × (b.total_bytes_read ≡ total_of b.files)
        × (b.total_bytes_read ≤ r.max_total_bytes)
        × AreRead r (sort_by entry_path es) b.files
