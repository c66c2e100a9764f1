-- ===== src/ReportDelivery/Examples.antt =====
-- app/report_delivery.py: an example, a report with a summary, the sheet and one attachment.
use law_review_local.ReportDelivery.{
  Sheet, DeliveryLibrary, freeze_body, Disk, Body, Rendered, verify_body, version_of, Files,
  frozen_files, read_file,
}
use law_review_local.Common.{
  none, String, ◌∷◌, if◌then◌else◌, ◌==◌, str_eq, ◌≡◌, [], some, true, refl,
}
use law_review_local.ReportDelivery.Checks.{Holds, verify_body-freeze_body, verify_body-Holds}

abbrev summary : Rendered
summary = record {
  kind = "case_summary";
  title = "summary";
  archive_name = "summary.md";
  text = "# case";
}

abbrev sheet : Sheet
sheet = record { archive_name = "sheet.csv"; count = 2; currencies = "CNY" ∷ []; text = "a,b" }

abbrev frozen : Body
frozen = record {
  blocks =
      record {
        kind = "case_summary";
        title = "summary";
        archive_name = "summary.md";
        written = record { file = "001"; size = 1; sha256 = "# case" };
      }
      ∷ [];
  transactions = record {
    archive_name = "sheet.csv";
    count = 2;
    currencies = "CNY" ∷ [];
    written = record { file = "transactions"; size = 1; sha256 = "a,b" };
  };
  attachments =
      record { document_id = 7; archive_name = "letter.pdf"; size = 1; sha256 = "letter" } ∷ [];
}

-- The source is its own text, and a text its own hash.
abbrev library : DeliveryLibrary String
library = record {
  sha256 = λ s. s;
  size = λ s. 1;
  block_file = λ i name. "001";
  sheet_file = λ name. "transactions";
  attachment_name = λ folder name. name;
  render = λ s. summary ∷ [];
  folders = λ s. "files" ∷ [];
  documents = λ s. (7, "letter.pdf") ∷ (8, "note") ∷ [];
  source_json = λ s. s;
  read_source = λ s. some s;
  source_digest = λ s. s;
  body_json = λ b. "body";
  read_body = λ s. some frozen;
  content_digest = λ b. "digest";
  inside = λ s. true;
}

abbrev before : Disk
before = record {
  artifacts = λ n. none;
  stored_paths = λ i. if i == 7 then some "p" else none;
  contents = λ p. if str_eq p "p" then some "letter" else none;
}

abbrev pretty : Body → String
pretty b = "{}"

abbrev after : Disk
after = record before {
  artifacts = λ n.
      if str_eq n "dir"
      then some (frozen_files library pretty "source" sheet frozen)
      else before.artifacts n;
}

verify_body-freeze_body_example :
    verify_body library (version_of library "dir" "source" frozen) after ≡ some (frozen, "source")
unfolding freeze_body
verify_body-freeze_body_example =
    verify_body-freeze_body library pretty "dir" "source" sheet before after frozen
      ((tt, tt), (refl, tt), (refl, tt), refl) refl refl refl refl

verify_body-Holds_example :
    (frozen ≡ frozen)
    × ((fs : Files) × (after.artifacts "dir" ≡ some fs)
        × Holds library 1 (summary ∷ []) fs
        × (read_file "transactions" fs ≡ some "a,b"))
unfolding freeze_body verify_body
verify_body-Holds_example =
    verify_body-Holds library pretty "dir" "source" "source" sheet before after after frozen frozen
      (λ x y same. same) refl refl refl
