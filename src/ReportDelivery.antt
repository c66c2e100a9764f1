-- ===== src/ReportDelivery.antt =====
-- app/report_delivery.py: the frozen body of a report, and its check before an approval or a delivery.
-- Bytes are texts. What the template renders, SHA-256, JSON, the names of the files and the reading of
-- the tables are arguments; `none` is a ValueError. A directory lists its files, the last written first.
pub mod Frozen
pub mod Checks
mod Examples
use law_review_local.Common.{
  String, Bool, List, ℕ, Option, ◌∷◌, if◌then◌else◌, str_eq, all, find?, false, some, [], ◌&&◌,
  none, suc, ◌==◌,
}

pub record Rendered : Type 0 where
  pub kind : String
  pub title : String
  pub archive_name : String
  pub text : String

pub record Sheet : Type 0 where
  pub archive_name : String
  pub count : ℕ
  pub currencies : List String
  pub text : String

-- What a written file leaves in the body.
pub record Written : Type 0 where
  pub file : String
  pub size : ℕ
  pub sha256 : String

pub record Block : Type 0 where
  pub kind : String
  pub title : String
  pub archive_name : String
  pub written : Written

pub record SheetEntry : Type 0 where
  pub archive_name : String
  pub count : ℕ
  pub currencies : List String
  pub written : Written

pub record Attachment : Type 0 where
  pub document_id : ℕ
  pub archive_name : String
  pub size : ℕ
  pub sha256 : String

pub record Body : Type 0 where
  pub blocks : List Block
  pub transactions : SheetEntry
  pub attachments : List Attachment

pub record DeliveryLibrary (Source : Type 0) : Type 0 where
  pub sha256 : String → String
  pub size : String → ℕ
  pub block_file : ℕ → String → String
  pub sheet_file : String → String
  pub attachment_name : String → String → String
  pub render : Source → List Rendered
  pub folders : Source → List String
  pub documents : Source → List (ℕ × String)
  pub source_json : Source → String
  pub read_source : String → Option Source
  pub source_digest : Source → String
  pub body_json : Body → String
  pub read_body : String → Option Body
  pub content_digest : Body → String
  pub inside : String → Bool

abbrev pub Files : Type 0
Files = List (String × String)

-- The artifact directories, the stored path of each document, and the files at the paths.
pub record Disk : Type 0 where
  pub artifacts : String → Option Files
  pub stored_paths : ℕ → Option String
  pub contents : String → Option String

abbrev pub and_then {ℓ κ} : {A : Type ℓ} {B : Type κ} → Option A → (A → Option B) → Option B
and_then none f = none
and_then (some a) f = f a

abbrev pub only_if {ℓ} : {A : Type ℓ} → Bool → Option A → Option A
only_if b o = if b then o else none

abbrev pub file_text : Option (String × String) → Option String
file_text none = none
file_text (some (name, text)) = some text

abbrev pub read_file : String → Files → Option String
read_file name fs = file_text (find? (λ f. str_eq f.0 name) fs)

-- The record of a row of `case_report_versions` that the checks read.
pub record Version : Type 0 where
  pub source_json : String
  pub source_hash : String
  pub content_json : String
  pub content_hash : String
  pub artifact_dir : String

module _ {Source : Type 0} (l : DeliveryLibrary Source) where
  -- `_write_file`
  abbrev pub written_of : String → String → Written
  written_of name text = record { file = name; size = l.size text; sha256 = l.sha256 text }

  abbrev pub block_of : ℕ → Rendered → Block
  block_of i r = record {
    kind = r.kind;
    title = r.title;
    archive_name = r.archive_name;
    written = written_of (l.block_file i r.archive_name) r.text;
  }

  -- The blocks of the rendered files from index `i` on, and the directory after they are written.
  abbrev pub blocks_of : ℕ → List Rendered → List Block
  blocks_of i [] = []
  blocks_of i (r ∷ rs) = block_of i r ∷ blocks_of (suc i) rs

  abbrev pub write_blocks : ℕ → List Rendered → Files → Files
  write_blocks i [] fs = fs
  write_blocks i (r ∷ rs) fs =
      write_blocks (suc i) rs ((l.block_file i r.archive_name, r.text) ∷ fs)

  abbrev pub spec_of : String → ℕ × String → String → Attachment
  spec_of folder doc text = record {
    document_id = doc.0;
    archive_name = l.attachment_name folder doc.1;
    size = l.size text;
    sha256 = l.sha256 text;
  }

  abbrev pub add_spec :
      String → ℕ × String → Option String → Option (List Attachment) → Option (List Attachment)
  add_spec folder doc none rest = none
  add_spec folder doc (some text) none = none
  add_spec folder doc (some text) (some specs) = some (spec_of folder doc text ∷ specs)

  -- A document without a stored path is passed over, and one whose file is missing is an error.
  abbrev pub spec_at :
      String
      → ℕ × String
      → Disk
      → Option String
      → Option (List Attachment)
      → Option (List Attachment)
  spec_at folder doc d none rest = rest
  spec_at folder doc d (some path) rest = add_spec folder doc (d.contents path) rest

  abbrev pub folder_specs :
      Disk → String → List (ℕ × String) → Option (List Attachment) → Option (List Attachment)
  folder_specs d folder [] rest = rest
  folder_specs d folder (doc ∷ docs) rest =
      let others = folder_specs d folder docs rest in
      spec_at folder doc d (d.stored_paths doc.0) others

  -- `_attachment_specs`, strict
  unfoldable pub attachment_specs :
      Disk → List (ℕ × String) → List String → Option (List Attachment)
  attachment_specs d docs [] = some []
  attachment_specs d docs (folder ∷ folders) =
      folder_specs d folder docs (attachment_specs d docs folders)

  abbrev pub sheet_entry : Sheet → SheetEntry
  sheet_entry s = record {
    archive_name = s.archive_name;
    count = s.count;
    currencies = s.currencies;
    written = written_of (l.sheet_file s.archive_name) s.text;
  }

  abbrev pub frozen_body : Source → Sheet → List Attachment → Body
  frozen_body source sheet specs = record {
    blocks = blocks_of 1 (l.render source);
    transactions = sheet_entry sheet;
    attachments = specs;
  }

  -- The directory in the order of its writes, the last first; `pretty` prints body.json.
  abbrev pub frozen_files : (Body → String) → Source → Sheet → Body → Files
  frozen_files pretty source sheet body =
      ("body.json", pretty body)
      ∷ (l.sheet_file sheet.archive_name, sheet.text)
      ∷ write_blocks 1 (l.render source) []

  -- `freeze_body` into the new directory `directory`, which is renamed into place last.
  unfoldable pub freeze_body :
      (Body → String) → String → Source → Sheet → Disk → Option (Body × Disk)
  unfolding attachment_specs
  freeze_body pretty directory source sheet d =
      and_then (attachment_specs d (l.documents source) (l.folders source)) (λ specs.
        let body = frozen_body source sheet specs in
        some (
          body,
          record d {
            artifacts = λ n.
                if str_eq n directory
                then some (frozen_files pretty source sheet body)
                else d.artifacts n;
          },
        ))

  -- The row that `freeze_for_submission` inserts.
  abbrev pub version_of : String → Source → Body → Version
  version_of directory source body = record {
    source_json = l.source_json source;
    source_hash = l.source_digest source;
    content_json = l.body_json body;
    content_hash = l.content_digest body;
    artifact_dir = directory;
  }

  unfoldable pub load_body : Version → Option Body
  load_body v =
      and_then (l.read_body v.content_json)
        (λ body. only_if (str_eq (l.content_digest body) v.content_hash) (some body))

  abbrev pub text_matches : ℕ → String → Option String → Bool
  text_matches size sha none = false
  text_matches size sha (some text) = (l.size text == size) && str_eq (l.sha256 text) sha

  abbrev pub matches : Files → Written → Bool
  matches fs w = text_matches w.size w.sha256 (read_file w.file fs)

  -- `attachment_path` and the test of its bytes
  abbrev pub attachment_matches : Disk → Attachment → Bool
  attachment_matches d a =
      text_matches a.size a.sha256 (and_then (d.stored_paths a.document_id) d.contents)

  abbrev pub files_match : Files → Body → Bool
  files_match fs body =
      all (λ b. matches fs b.written) body.blocks && matches fs body.transactions.written

  abbrev pub check_files : Version → Disk → Body → Source → Option Files → Option (Body × Source)
  check_files v d body source none = none
  check_files v d body source (some fs) =
      only_if (files_match fs body)
        (only_if (all (attachment_matches d) body.attachments) (some (body, source)))

  abbrev pub after_source : Version → Disk → Body → Source → Option (Body × Source)
  after_source v d body source =
      only_if (str_eq (l.source_digest source) v.source_hash) (
        only_if (l.inside v.artifact_dir)
          (check_files v d body source (d.artifacts v.artifact_dir)))

  abbrev pub after_load : Version → Disk → Body → Option (Body × Source)
  after_load v d body = and_then (l.read_source v.source_json) (after_source v d body)

  unfoldable pub verify_body : Version → Disk → Option (Body × Source)
  unfolding load_body
  verify_body v d = and_then (load_body v) (after_load v d)
