-- ===== src/ReportDelivery/Frozen.antt =====
-- app/report_delivery.py: a frozen body when it is checked, right after the freeze and later.
use law_review_local.ReportDelivery.{
  DeliveryLibrary, attachment_specs, Body, Disk, Sheet, freeze_body, Attachment, Rendered,
  text_matches, Files, spec_at, read_file, folder_specs, files_match, matches, frozen_files,
  add_spec, attachment_matches, write_blocks, written_of, blocks_of, frozen_body, spec_of, and_then,
  block_of,
}
use law_review_local.Common.{
  String, ℕ, List, ◌∷◌, ◌≡◌, All, Option, [], suc, if◌then◌else◌, str_eq, some, all, refl, none,
  str_eq_refl, false, true, ==_self, ◌∙◌, ap, some≢none, sym, ◌&&◌, some_inj,
}

module _ {Source : Type 0} (l : DeliveryLibrary Source) where
  abbrev pub names_of : ℕ → List Rendered → List String
  names_of i [] = []
  names_of i (r ∷ rs) = l.block_file i r.archive_name ∷ names_of (suc i) rs

  abbrev pub Distinct : List String → Type 0
  Distinct [] = Unit {0}
  Distinct (n ∷ ns) = All (λ m. str_eq m n ≡ false) ns × Distinct ns

  -- No two files of the directory share a name.
  abbrev pub NamesApart : Source → Sheet → Type 0
  NamesApart source sheet =
      Distinct (names_of 1 (l.render source))
      × All (λ n. str_eq (l.sheet_file sheet.archive_name) n ≡ false) (names_of 1 (l.render source))
      × All (λ n. str_eq "body.json" n ≡ false) (names_of 1 (l.render source))
      × (str_eq "body.json" (l.sheet_file sheet.archive_name) ≡ false)

  read_through :
      (k t name : String) (fs : Files)
      → str_eq k name ≡ false
      → read_file name ((k, t) ∷ fs) ≡ read_file name fs
  read_through k t name fs h = rw h refl

  read_written : (name t : String) (fs : Files) → read_file name ((name, t) ∷ fs) ≡ some t
  read_written name t fs = rw (str_eq_refl name) refl

  read_file-write_blocks :
      (i : ℕ) (rs : List Rendered) (fs : Files) (name : String)
      → All (λ n. str_eq n name ≡ false) (names_of i rs)
      → read_file name (write_blocks l i rs fs) ≡ read_file name fs
  read_file-write_blocks i [] fs name h = refl
  read_file-write_blocks i (r ∷ rs) fs name (h, rest) =
      read_file-write_blocks (suc i) rs ((l.block_file i r.archive_name, r.text) ∷ fs) name rest
      ∙ read_through (l.block_file i r.archive_name) r.text name fs h

  text_matches-same : (t : String) → text_matches l (l.size t) (l.sha256 t) (some t) ≡ true
  text_matches-same t = rw (==_self (l.size t)) (str_eq_refl (l.sha256 t))

  matches-written :
      (name t : String) (fs : Files)
      → read_file name fs ≡ some t
      → matches l fs (written_of l name t) ≡ true
  matches-written name t fs h = rw h (text_matches-same t)

  write_blocks-match :
      (i : ℕ) (rs : List Rendered) (fs : Files)
      → Distinct (names_of i rs)
      → all (λ b. matches l (write_blocks l i rs fs) b.written) (blocks_of l i rs) ≡ true
  write_blocks-match i [] fs h = refl
  write_blocks-match i (r ∷ rs) fs (h, rest) =
      let name = l.block_file i r.archive_name in
      let found =
        read_file-write_blocks (suc i) rs ((name, r.text) ∷ fs) name h
        ∙ read_written name r.text fs in
      rw (matches-written name r.text (write_blocks l (suc i) rs ((name, r.text) ∷ fs)) found)
        (write_blocks-match (suc i) rs ((name, r.text) ∷ fs) rest)

  match_below :
      (k t : String) (fs : Files) (i : ℕ) (rs : List Rendered)
      → All (λ n. str_eq k n ≡ false) (names_of i rs)
      → all (λ b. matches l ((k, t) ∷ fs) b.written) (blocks_of l i rs)
        ≡ all (λ b. matches l fs b.written) (blocks_of l i rs)
  match_below k t fs i [] h = refl
  match_below k t fs i (r ∷ rs) (h, rest) =
      rw h
        (ap (λ z. matches l fs (block_of l i r).written && z) (match_below k t fs (suc i) rs rest))

  pub files_match-frozen :
      (pretty : Body → String) (source : Source) (sheet : Sheet) (specs : List Attachment)
      → NamesApart source sheet
      → files_match l
          (frozen_files l pretty source sheet (frozen_body l source sheet specs))
          (frozen_body l source sheet specs)
        ≡ true
  files_match-frozen pretty source sheet specs (apart, from_sheet, from_json, sheet_json) =
      let rs = l.render source in
      let body = frozen_body l source sheet specs in
      let below = (l.sheet_file sheet.archive_name, sheet.text) ∷ write_blocks l 1 rs [] in
      let blocks =
        match_below "body.json" (pretty body) below 1 rs from_json
        ∙ match_below (l.sheet_file sheet.archive_name) sheet.text (write_blocks l 1 rs []) 1 rs
            from_sheet
        ∙ write_blocks-match 1 rs [] apart in
      let found =
        read_through "body.json" (pretty body) (l.sheet_file sheet.archive_name) below sheet_json
        ∙ read_written (l.sheet_file sheet.archive_name) sheet.text (write_blocks l 1 rs []) in
      rw blocks (
        matches-written (l.sheet_file sheet.archive_name) sheet.text
          (("body.json", pretty body) ∷ below) found)

  attachment_matches-spec :
      (d : Disk) (folder : String) (doc : ℕ × String) (path text : String)
      → d.stored_paths doc.0 ≡ some path
      → d.contents path ≡ some text
      → attachment_matches l d (spec_of l folder doc text) ≡ true
  attachment_matches-spec d folder doc path text h k = rw h (rw k (text_matches-same text))

  abbrev AllMatch : Disk → Option (List Attachment) → Type 0
  AllMatch d none = Unit {0}
  AllMatch d (some specs) = all (attachment_matches l d) specs ≡ true

  add_spec-AllMatch :
      (d : Disk) (folder : String) (doc : ℕ × String) (path : String) (o : Option String)
      (rest : Option (List Attachment))
      → d.stored_paths doc.0 ≡ some path
      → d.contents path ≡ o
      → AllMatch d rest
      → AllMatch d (add_spec l folder doc o rest)
  add_spec-AllMatch d folder doc path none rest h k a = tt
  add_spec-AllMatch d folder doc path (some text) none h k a = tt
  add_spec-AllMatch d folder doc path (some text) (some specs) h k a =
      rw (attachment_matches-spec d folder doc path text h k) a

  spec_at-AllMatch :
      (d : Disk) (folder : String) (doc : ℕ × String) (o : Option String)
      (rest : Option (List Attachment))
      → d.stored_paths doc.0 ≡ o
      → AllMatch d rest
      → AllMatch d (spec_at l folder doc d o rest)
  spec_at-AllMatch d folder doc none rest h a = a
  spec_at-AllMatch d folder doc (some path) rest h a =
      add_spec-AllMatch d folder doc path (d.contents path) rest h refl a

  folder_specs-AllMatch :
      (d : Disk) (folder : String) (docs : List (ℕ × String)) (rest : Option (List Attachment))
      → AllMatch d rest
      → AllMatch d (folder_specs l d folder docs rest)
  folder_specs-AllMatch d folder [] rest a = a
  folder_specs-AllMatch d folder (doc ∷ docs) rest a =
      spec_at-AllMatch d folder doc (d.stored_paths doc.0) (folder_specs l d folder docs rest) refl
        (folder_specs-AllMatch d folder docs rest a)

  attachment_specs-AllMatch :
      (d : Disk) (docs : List (ℕ × String)) (folders : List String)
      → AllMatch d (attachment_specs l d docs folders)
  unfolding attachment_specs
  attachment_specs-AllMatch d docs [] = refl
  attachment_specs-AllMatch d docs (folder ∷ folders) =
      folder_specs-AllMatch d folder docs (attachment_specs l d docs folders)
        (attachment_specs-AllMatch d docs folders)

  abbrev pub with_directory : Disk → String → Files → Disk
  with_directory d directory fs = record d {
    artifacts = λ n. if str_eq n directory then some fs else d.artifacts n;
  }

  -- A freeze that succeeds, by its attachments.
  pub freeze_body-specs :
      (pretty : Body → String) (directory : String) (source : Source) (sheet : Sheet) (d d' : Disk)
      (body : Body)
      → freeze_body l pretty directory source sheet d ≡ some (body, d')
      → (specs : List Attachment) × (all (attachment_matches l d) specs ≡ true)
        × (frozen_body l source sheet specs ≡ body)
        × (with_directory d directory
              (frozen_files l pretty source sheet (frozen_body l source sheet specs))
            ≡ d')
  unfolding freeze_body
  freeze_body-specs pretty directory source sheet d d' body =
      by_specs (attachment_specs l d (l.documents source) (l.folders source))
        (attachment_specs-AllMatch d (l.documents source) (l.folders source))
    where
      by_specs :
          (o : Option (List Attachment))
          → AllMatch d o
          → and_then {B = Body × Disk} o (λ specs. some (
            frozen_body l source sheet specs,
            with_directory d directory
                (frozen_files l pretty source sheet (frozen_body l source sheet specs)),
          ))
            ≡ some (body, d')
          → (specs : List Attachment) × (all (attachment_matches l d) specs ≡ true)
            × (frozen_body l source sheet specs ≡ body)
            × (with_directory d directory
                  (frozen_files l pretty source sheet (frozen_body l source sheet specs))
                ≡ d')
      by_specs none a h = absurd (some≢none (sym h))
      by_specs (some specs) a h =
          let same = some_inj h in (specs, a, ap (λ z. z.0) same, ap (λ z. z.1) same)
