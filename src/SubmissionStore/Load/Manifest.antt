-- ===== src/SubmissionStore/Load/Manifest.antt =====
-- The entries that `load_bundle` accepts have safe parts, and no two the same path.
use csoj_judger.Prelude.{◌≡◌, subst, false, List, [], ◌∷◌, arith}
use csoj_judger.Prelude.Order.{Text, nat_ord, list_ord}
use csoj_judger.Prelude.Result.{Result, ok, ◌>>=◌, returned}
use csoj_judger.Json.{Json}
use csoj_judger.Catalog.{member}
use csoj_judger.SubmissionStore.Base.{StoreError}
use csoj_judger.SubmissionStore.Paths.{safe_path_parts}
use csoj_judger.SubmissionStore.Load.{ManifestEntry, read_entry, read_entries}

-- Each entry has the parts of its path, and a path that neither stands in `seen` nor repeats.
abbrev pub AreFresh : List Text → List ManifestEntry → Type 0
AreFresh seen [] = Unit
AreFresh seen (e ∷ es) =
    (safe_path_parts e.path ≡ ok e.parts)
    × (member e.path seen ≡ false)
    × AreFresh (e.path ∷ seen) es

read_entry-safe :
    (seen : List Text) (value : Json) (e : ManifestEntry)
    → read_entry seen value ≡ ok e
    → (safe_path_parts e.path ≡ ok e.parts) × (member e.path seen ≡ false)
unfolding read_entry
read_entry-safe seen value e h = ground arith

-- In a loaded manifest each entry's parts are the safe parts of its path, and no path repeats one
-- that was seen before.
pub read_entries-AreFresh :
    (seen : List Text) (values : List Json) (es : List ManifestEntry)
    → read_entries seen values ≡ ok es
    → AreFresh seen es
unfolding read_entries
read_entries-AreFresh seen [] es h = let e : [] ≡ es = cc h in subst (AreFresh seen) e tt
read_entries-AreFresh seen (value ∷ values) es h =
    let (e, read, h') = returned (read_entry seen value) add h in
    let (rest, more, h'') = returned (read_entries (e.path ∷ seen) values) (onto e) h' in
    let same : e ∷ rest ≡ es = cc h'' in
    let (parts, new) = read_entry-safe seen value e read in
    subst (AreFresh seen) same (parts, new, read_entries-AreFresh (e.path ∷ seen) values rest more)
  where
    onto : ManifestEntry → List ManifestEntry → Result StoreError (List ManifestEntry)
    onto e rest = ok (e ∷ rest)

    add : ManifestEntry → Result StoreError (List ManifestEntry)
    add e = read_entries (e.path ∷ seen) values >>= onto e
