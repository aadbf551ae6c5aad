-- ===== src/ReportStore/Manifests.antt =====
-- The first manifest of a run stays.
use csoj_judger.Prelude.{
  ℕ, suc, ◌==◌, ◌&&◌, ◌≡◌, ◌≢◌, ◌∙◌, sym, refl, ap, ◌↔◌, ◌⊎◌, inl, inr, Bool, true, false, Option,
  none, some, Bool-cases, arith, if◌then◌else◌,
}
use csoj_judger.Prelude.Order.{Text, text, ◌===◌, ===_iff, nat_ord, list_ord}
use csoj_judger.Prelude.Dict
use csoj_judger.Prelude.Dict.{put, get-put}
use csoj_judger.Prelude.Result.{ok, err}
use csoj_judger.Json
use csoj_judger.Json.{Json, str, obj, Fields, end, field, field_count, within, json_eq}
use csoj_judger.ReviewLedger.{Files, FilePath, is_safe_component}
use csoj_judger.ReportStore.{
  ReportError, Printer, Manifest, report_text, manifest_dict, manifest_path, identity_of,
  manifest_over, write_manifest,
}

-- An entry of a dictionary.
pub data IsEntry (k : Text) (v : Json) : Fields → Type 0 where
  here : {d : Fields} → IsEntry k v (field k v d)
  there : {j : Text} {w : Json} {d : Fields} → IsEntry k v d → IsEntry k v (field j w d)

-- The number of entries other than the time.
abbrev pub other_entries : Fields → ℕ
other_entries end = 0
other_entries (field k v d) =
    let rest = other_entries d in if k === text "generated_at" then rest else suc rest

-- The time aside, the dictionaries have equally many entries, and each entry of the first has an equal
-- value in the second.
pub data Agree (stored proposed : Fields) : Type 0 where
  agree :
      other_entries stored ≡ other_entries proposed
      → ((k : Text) (v : Json)
          → IsEntry k v stored
          → k ≢ text "generated_at"
          → (w : Json) × (Json.get proposed k ≡ some w) × (json_eq v w ≡ true))
      → Agree stored proposed

module _ (p : Printer) where
  manifest_kept :
      (files later : Files) (m : Manifest)
      → Dict.get files (manifest_path p m.run_id) ≡ none
      → write_manifest p files m ≡ (later, ok m)
      → (is_safe_component m.run_id ≡ true)
        × (Dict.get later (manifest_path p m.run_id) ≡ some (report_text p (manifest_dict p m)))
  unfolding write_manifest
  manifest_kept files later m new h = go (is_safe_component m.run_id) refl h
    where
      target : FilePath
      target = manifest_path p m.run_id

      content : Text
      content = report_text p (manifest_dict p m)

      over :
          (o : Option Text)
          → o ≡ none
          → manifest_over p files m o ≡ (later, ok m)
          → put files target content ≡ later
      over none e h = ap (λ x. x.0) h
      over (some old) e h = absurd (cc e)

      go :
          (b : Bool)
          → is_safe_component m.run_id ≡ b
          → (if b
              then manifest_over p files m (Dict.get files target)
              else (files, err ReportError.unsafe_run_id))
            ≡ (later, ok m)
          → (is_safe_component m.run_id ≡ true) × (Dict.get later target ≡ some content)
      go true s h =
          let same = over (Dict.get files target) new h in
          let got : Dict.get (put files target content) target ≡ some content =
            rw (get-put files target target content, (===_iff target target).1 refl) refl in
          (s, cc (got, same))
      go false s h = absurd (cc h)

  write_over_first :
      (files later : Files) (m again : Manifest) (stored : Fields)
      → Dict.get files (manifest_path p m.run_id) ≡ none
      → write_manifest p files m ≡ (later, ok m)
      → again.run_id ≡ m.run_id
      → p.codec.loads (report_text p (manifest_dict p m)) ≡ some (obj stored)
      → Json.get stored (text "generated_at") ≡ some (str (p.codec.isoformat m.generated_at))
      → p.codec.fromisoformat (p.codec.isoformat m.generated_at) ≡ some m.generated_at
      → write_manifest p later again ≡ (
        later,
        if json_eq (obj (identity_of p stored)) (obj (identity_of p (manifest_dict p again)))
            then ok (record again { generated_at = m.generated_at })
            else err ReportError.different_manifest,
      )
  unfolding write_manifest
  write_over_first files later m again stored new h same loaded time iso =
      let (safe, kept) = manifest_kept files later m new h in
      rw (same, safe, kept, loaded, time, iso) refl

  field_count-identity_of : (d : Fields) → field_count (identity_of p d) ≡ other_entries d
  field_count-identity_of end = refl
  field_count-identity_of (field k v d) = elim (Bool-cases (k === text "generated_at")) [
    | inl y ↦ rw y (field_count-identity_of d)
    | inr n ↦ rw n (ap suc (field_count-identity_of d))
  ]

  get-identity_of :
      (d : Fields) (k : Text)
      → k ≢ text "generated_at"
      → Json.get (identity_of p d) k ≡ Json.get d k
  unfolding Json.get
  get-identity_of end k h = refl
  get-identity_of (field j v d) k h = elim (Bool-cases (j === text "generated_at")) [
    | inl y ↦
        let e : j ≡ text "generated_at" = (===_iff j (text "generated_at")).0 y in
        let off : (j === k) ≡ false = differs e in rw y (rw off (get-identity_of d k h))
    | inr n ↦ rw n (ap (λ o. if j === k then some v else o) (get-identity_of d k h))
  ]
    where
      differs : j ≡ text "generated_at" → (j === k) ≡ false
      differs e = elim (Bool-cases (j === k)) [
        | inl y ↦ absurd (h (sym ((===_iff j k).0 y) ∙ e))
        | inr n ↦ n
      ]

  -- What `within` asks of the entries besides the time.
  abbrev AreCovered : Fields → Fields → Type 0
  AreCovered d e =
      (k : Text) (v : Json)
      → IsEntry k v d
      → k ≢ text "generated_at"
      → (w : Json) × (Json.get e k ≡ some w) × (json_eq v w ≡ true)

  value_found :
      (o : Option Json) (v : Json)
      → (elim o [ none ↦ false | some w ↦ json_eq v w ]) ≡ true
      → (w : Json) × (o ≡ some w) × (json_eq v w ≡ true)
  value_found none v h = absurd (cc h)
  value_found (some w) v h = (w, refl, h)

  both : (a : Bool) {b : Bool} → (a && b) ≡ true → (a ≡ true) × (b ≡ true)
  both true h = (refl, h)
  both false h = absurd (cc h)

  covers_of_within :
      (d e : Fields) → within (identity_of p d) (identity_of p e) ≡ true → AreCovered d e
  covers_of_within end e h k v i d = elim i [ ]
  covers_of_within (field j u d) e h k v IsEntry.here off =
      let kept : (k === text "generated_at") ≡ false = not_equal off in
      let (a, b) = both _ (rw kept at h) in
      let (w, g, q) = value_found (Json.get (identity_of p e) k) v a in
      (w, sym (get-identity_of e k off) ∙ g, q)
    where
      not_equal : k ≢ text "generated_at" → (k === text "generated_at") ≡ false
      not_equal off = elim (Bool-cases (k === text "generated_at")) [
        | inl y ↦ absurd (off ((===_iff k (text "generated_at")).0 y))
        | inr n ↦ n
      ]
  covers_of_within (field j u d) e h k v (IsEntry.there i) off =
      elim (Bool-cases (j === text "generated_at")) [
        | inl y ↦ covers_of_within d e (rw y at h) k v i off
        | inr n ↦ covers_of_within d e (both _ (rw n at h)).1 k v i off
      ]

  within_of_covers :
      (d e : Fields) → AreCovered d e → within (identity_of p d) (identity_of p e) ≡ true
  within_of_covers end e c = refl
  within_of_covers (field j u d) e c =
      let rest = within_of_covers d e (λ k v i off. c k v (IsEntry.there i) off) in
      elim (Bool-cases (j === text "generated_at")) [
        | inl y ↦ rw y rest
        | inr n ↦
            let off : j ≢ text "generated_at" =
              λ same. absurd (cc (n, (===_iff j (text "generated_at")).1 same)) in
            let (w, g, q) = c j u IsEntry.here off in
            let found : Json.get (identity_of p e) j ≡ some w = get-identity_of e j off ∙ g in
            rw n (rw found (rw (q, rest) refl))
      ]

  -- The comparison of the manifests.
  compared_iff :
      (stored proposed : Fields)
      → (json_eq (obj (identity_of p stored)) (obj (identity_of p proposed)) ≡ true)
        ↔ Agree stored proposed
  compared_iff stored proposed = (
    λ h.
        let (a, b) =
          both (field_count (identity_of p stored) == field_count (identity_of p proposed)) h in
        let n : field_count (identity_of p stored) ≡ field_count (identity_of p proposed) =
          ground (arith, a) in
        agree (sym (field_count-identity_of stored) ∙ n ∙ field_count-identity_of proposed)
          (covers_of_within stored proposed b),
    back,
  )
    where
      back :
          Agree stored proposed
          → json_eq (obj (identity_of p stored)) (obj (identity_of p proposed)) ≡ true
      back (agree n c) =
          let same : field_count (identity_of p stored) ≡ field_count (identity_of p proposed) =
            field_count-identity_of stored ∙ n ∙ sym (field_count-identity_of proposed) in
          let count : (field_count (identity_of p stored) == field_count (identity_of p proposed))
              ≡ true =
            ground (arith, same) in
          rw count (within_of_covers stored proposed c)

  -- What a second manifest of a run meets: the files do not change, and it gets the time of the first one
  -- exactly when it agrees with what is stored.
  abbrev pub Rewritten : Files → Manifest → ℕ → Fields → Type 0
  Rewritten files again first stored =
      ((write_manifest p files again ≡ (files, ok (record again { generated_at = first })))
        × Agree stored (manifest_dict p again))
      ⊎ ((write_manifest p files again ≡ (files, err ReportError.different_manifest))
          × (¬ Agree stored (manifest_dict p again)))

  -- Once a new run's manifest is written, to write a manifest for that run again changes no file. It
  -- returns the manifest with the first one's time if, the time aside, the stored dictionary has as many
  -- entries as that of the manifest and each stored entry has an equal value there, and is refused if
  -- not; `json.loads` is to give a dictionary with the written time for the written text, and
  -- `fromisoformat` the instant of the written time.
  pub write_manifest_again :
      (files later : Files) (m again : Manifest) (stored : Fields)
      → Dict.get files (manifest_path p m.run_id) ≡ none
      → write_manifest p files m ≡ (later, ok m)
      → again.run_id ≡ m.run_id
      → p.codec.loads (report_text p (manifest_dict p m)) ≡ some (obj stored)
      → Json.get stored (text "generated_at") ≡ some (str (p.codec.isoformat m.generated_at))
      → p.codec.fromisoformat (p.codec.isoformat m.generated_at) ≡ some m.generated_at
      → Rewritten later again m.generated_at stored
  write_manifest_again files later m again stored new h same loaded time iso =
      let proposed = manifest_dict p again in
      let e = write_over_first files later m again stored new h same loaded time iso in
      elim (Bool-cases (json_eq (obj (identity_of p stored)) (obj (identity_of p proposed)))) [
        | inl y ↦ inl (rw y at e, (compared_iff stored proposed).0 y)
        | inr n ↦ inr (rw n at e, λ a. absurd (cc (n, (compared_iff stored proposed).1 a)))
      ]
