-- ===== src/ReportDelivery/Checks.antt =====
-- app/report_delivery.py, `freeze_body` and `verify_body`, one after the other.
use law_review_local.Common.{
  Bool, Option, String, ◌&&◌, ℕ, ◌≡◌, List, some, true, ◌∷◌, some≢none, str_eq, all, arith, ap, sym,
  suc, some_inj, none, str_eq_iff, str_eq_refl, false, [], refl, subst, ◌∙◌,
}
use law_review_local.ReportDelivery.{
  DeliveryLibrary, and_then, verify_body, Version, Body, load_body, only_if, Disk, Sheet, Rendered,
  text_matches, Files, version_of, files_match, check_files, freeze_body, matches, after_load,
  attachment_matches, read_file, blocks_of, frozen_body, after_source, frozen_files, block_of,
}
use law_review_local.ReportDelivery.Frozen.{
  NamesApart, freeze_body-specs, with_directory, files_match-frozen,
}

and_true : (a b : Bool) → (a && b) ≡ true → (a ≡ true) × (b ≡ true)
and_true a b h = (ground (arith, h), ground (arith, h))

and_then-eq-some {ℓ κ} :
    {A : Type ℓ} {B : Type κ} (o : Option A) (f : A → Option B) (b : B)
    → and_then o f ≡ some b
    → (a : A) × (o ≡ some a) × (f a ≡ some b)
and_then-eq-some none f b h = absurd (some≢none (sym h))
and_then-eq-some (some a) f b h = (a, refl, h)

only_if-eq-some {ℓ} :
    {A : Type ℓ} (b : Bool) (o : Option A) (a : A)
    → only_if b o ≡ some a
    → (b ≡ true) × (o ≡ some a)
only_if-eq-some true o a h = (refl, h)
only_if-eq-some false o a h = absurd (some≢none (sym h))

module _ {Source : Type 0} (l : DeliveryLibrary Source) where
  verify_body-passes :
      (directory : String) (source : Source) (body : Body) (d : Disk) (fs : Files)
      → l.read_body (l.body_json body) ≡ some body
      → l.read_source (l.source_json source) ≡ some source
      → l.inside directory ≡ true
      → d.artifacts directory ≡ some fs
      → files_match l fs body ≡ true
      → all (attachment_matches l d) body.attachments ≡ true
      → verify_body l (version_of l directory source body) d ≡ some (body, source)
  unfolding verify_body load_body
  verify_body-passes directory source body d fs json_body json_source inside at files attached =
      rw json_body (
        rw (str_eq_refl (l.content_digest body)) (
          rw json_source (
            rw (str_eq_refl (l.source_digest source))
              (rw inside (rw at (rw files (rw attached refl)))))))

  -- A body that has just been frozen passes its check, with the body and the source that were frozen,
  -- where JSON gives both back from their texts, the directory lies under the artifacts' root and no two
  -- files in it share a name.
  pub verify_body-freeze_body :
      (pretty : Body → String) (directory : String) (source : Source) (sheet : Sheet) (d d' : Disk)
      (body : Body)
      → NamesApart l source sheet
      → l.read_body (l.body_json body) ≡ some body
      → l.read_source (l.source_json source) ≡ some source
      → l.inside directory ≡ true
      → freeze_body l pretty directory source sheet d ≡ some (body, d')
      → verify_body l (version_of l directory source body) d' ≡ some (body, source)
  verify_body-freeze_body pretty directory source sheet d d' body apart json_body json_source inside
        h =
      let (specs, attached, same, disk) =
        freeze_body-specs l pretty directory source sheet d d' body h in
      let frozen = frozen_body l source sheet specs in
      let files = frozen_files l pretty source sheet frozen in
      let d1 = with_directory l d directory files in
      let here : d1.artifacts directory ≡ some files = rw (str_eq_refl directory) refl in
      subst (λ z. verify_body l (version_of l directory source body) z ≡ some (body, source)) disk
        (verify_body-passes directory source body d1 files json_body json_source inside here
          (subst (λ z. files_match l files z ≡ true) same
            (files_match-frozen l pretty source sheet specs apart))
          (subst (λ (z : Body). all (attachment_matches l d1) z.attachments ≡ true) same attached))

  -- The rendered texts and the sheet, as the files of a directory hold them.
  abbrev pub Holds : ℕ → List Rendered → Files → Type 0
  Holds i [] fs = Unit {0}
  Holds i (r ∷ rs) fs =
      (read_file (l.block_file i r.archive_name) fs ≡ some r.text) × Holds (suc i) rs fs

  matching_text :
      ((x y : String) → l.sha256 x ≡ l.sha256 y → x ≡ y)
      → (t : String) (o : Option String) → text_matches l (l.size t) (l.sha256 t) o ≡ true
      → o ≡ some t
  matching_text apart t none h = cc
  matching_text apart t (some u) h =
      let same : str_eq (l.sha256 u) (l.sha256 t) ≡ true = ground (arith, h) in
      ap (λ z. some z) (apart u t ((str_eq_iff (l.sha256 u) (l.sha256 t)).0 same))

  matching_blocks :
      ((x y : String) → l.sha256 x ≡ l.sha256 y → x ≡ y)
      → (i : ℕ) (rs : List Rendered) (fs : Files)
      → all (λ b. matches l fs b.written) (blocks_of l i rs) ≡ true
      → Holds i rs fs
  matching_blocks apart i [] fs h = tt
  matching_blocks apart i (r ∷ rs) fs h =
      let (one, rest) = and_true (matches l fs (block_of l i r).written) _ h in
      (
        matching_text apart r.text (read_file (l.block_file i r.archive_name) fs) one,
        matching_blocks apart (suc i) rs fs rest,
      )

  check_files-match :
      (v : Version) (d : Disk) (body checked : Body) (source checked_source : Source)
      (o : Option Files)
      → check_files l v d body source o ≡ some (checked, checked_source)
      → (fs : Files) × (o ≡ some fs) × (files_match l fs body ≡ true) × (body ≡ checked)
  check_files-match v d body checked source checked_source none h = absurd (some≢none (sym h))
  check_files-match v d body checked source checked_source (some fs) h =
      let (files, rest) = only_if-eq-some (files_match l fs body) _ (checked, checked_source) h in
      let (attached, same) =
        only_if-eq-some (all (attachment_matches l d) body.attachments) _ (checked, checked_source)
          rest in
      (fs, refl, files, ap (λ z. z.0) (some_inj same))

  verify_body-match :
      (v : Version) (d : Disk) (checked : Body) (checked_source : Source)
      → verify_body l v d ≡ some (checked, checked_source)
      → (load_body l v ≡ some checked)
        × ((fs : Files) × (d.artifacts v.artifact_dir ≡ some fs)
            × (files_match l fs checked ≡ true))
  unfolding verify_body
  verify_body-match v d checked checked_source h =
      let (b, loaded, rest1) =
        and_then-eq-some (load_body l v) (after_load l v d) (checked, checked_source) h in
      let (s, read_source, rest2) =
        and_then-eq-some (l.read_source v.source_json) (after_source l v d b)
          (checked, checked_source) rest1 in
      let (hash, rest3) =
        only_if-eq-some (str_eq (l.source_digest s) v.source_hash)
          (only_if (l.inside v.artifact_dir) (check_files l v d b s (d.artifacts v.artifact_dir)))
          (checked, checked_source) rest2 in
      let (inside, rest4) =
        only_if-eq-some (l.inside v.artifact_dir)
          (check_files l v d b s (d.artifacts v.artifact_dir)) (checked, checked_source) rest3 in
      let (fs, at, files, same) =
        check_files-match v d b checked s checked_source (d.artifacts v.artifact_dir) rest4 in
      (loaded ∙ ap (λ z. some z) same, (fs, at, subst (λ z. files_match l fs z ≡ true) same files))

  load_body-frozen :
      (directory : String) (source : Source) (body checked : Body)
      → l.read_body (l.body_json body) ≡ some body
      → load_body l (version_of l directory source body) ≡ some checked
      → checked ≡ body
  unfolding load_body
  load_body-frozen directory source body checked json_body h =
      let (b, read, digest) =
        and_then-eq-some (l.read_body (l.body_json body))
          (λ z. only_if (str_eq (l.content_digest z) (l.content_digest body)) (some z)) checked h in
      let (matching, same) =
        only_if-eq-some (str_eq (l.content_digest b) (l.content_digest body)) (some b) checked
          digest in
      sym (some_inj same) ∙ some_inj (sym read ∙ json_body)

  -- If a check of a frozen version passes, whatever has happened to the files since the freeze, then its
  -- directory holds each rendered text and the transaction sheet as they were frozen, and the check gives
  -- the frozen body, where SHA-256 tells texts apart and JSON gives the body back from its text.
  pub verify_body-Holds :
      (pretty : Body → String) (directory : String) (source checked_source : Source) (sheet : Sheet)
      (d d' later : Disk) (body checked : Body)
      → ((x y : String) → l.sha256 x ≡ l.sha256 y → x ≡ y)
      → l.read_body (l.body_json body) ≡ some body
      → freeze_body l pretty directory source sheet d ≡ some (body, d')
      → verify_body l (version_of l directory source body) later ≡ some (checked, checked_source)
      → (checked ≡ body)
        × ((fs : Files) × (later.artifacts directory ≡ some fs)
            × Holds 1 (l.render source) fs
            × (read_file (l.sheet_file sheet.archive_name) fs ≡ some sheet.text))
  verify_body-Holds pretty directory source checked_source sheet d d' later body checked apart
        json_body frozen passed =
      let (specs, attached, same, disk) =
        freeze_body-specs l pretty directory source sheet d d' body frozen in
      let (loaded, (fs, at, files)) =
        verify_body-match (version_of l directory source body) later checked checked_source
          passed in
      let whole = load_body-frozen directory source body checked json_body loaded in
      let (blocks, sheets) =
        and_true (all (λ b. matches l fs b.written) (blocks_of l 1 (l.render source))) _
          (subst (λ z. files_match l fs z ≡ true) (whole ∙ sym same) files) in
      (
        whole,
        (
          fs,
          at,
          matching_blocks apart 1 (l.render source) fs blocks,
          matching_text apart sheet.text (read_file (l.sheet_file sheet.archive_name) fs) sheets,
        ),
      )
