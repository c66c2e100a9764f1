-- ===== src/BatchImport/Examples.antt =====
-- app/tasks.py: an example. One file of batch 3 was completed by an earlier run; of the two others one
-- is indexed, and one is refused.
use law_review_local.Common.{
  String, List, ℕ, ◌≡◌, true, if◌then◌else◌, ◌∷◌, some, none, false, ◌==◌, [], refl,
}
use law_review_local.BatchImport.{
  process_batch_import, Batch, ImportStore, begin_batch, queued, FileStatus, RunResult, ImportFile,
  FileIn, finished, FileStep, start, file_completed, finish, file_processing, document, refused,
}
use law_review_local.BatchImport.Completion.{
  process_batch_import-again, process_batch_import-closes, ClosedWell,
}
use law_review_local.BatchImport.Gather.{begins, ends, Gathered}

abbrev file : ℕ → String → FileStatus → ImportFile
file i key status = record {
  id = i;
  batch_id = 3;
  file_key = key;
  filename = key;
  stored_path = key;
  mime_type = "text/plain";
  status = status;
  document_id = none;
  error = "";
}

abbrev batch : Batch
batch = record {
  case_id = 1;
  status = queued;
  processed_files = 0;
  successful_files = 0;
  failed_files = 0;
  error_log = [];
  started_at = none;
  finished_at = none;
}

abbrev interrupted : ImportStore
interrupted = record {
  batches = λ b. if b == 3 then some batch else none;
  files = file 1 "a" file_completed ∷ file 2 "b" file_processing ∷ [];
  next_id = 3;
}

abbrev request : List FileIn
request =
    record { file_key = some "a"; filename = "a"; stored_path = "a"; mime_type = none }
    ∷ record { file_key = some "b"; filename = "b"; stored_path = "b"; mime_type = none }
    ∷ record { file_key = none; filename = "c"; stored_path = "c"; mime_type = none }
    ∷ []

abbrev line : String → String → String
line name e = e

abbrev show : ℕ → String
show i = "index"

-- The two files run side by side.
abbrev side_by_side : List ImportFile → List FileStep
side_by_side fs = start 2 ∷ start 3 ∷ finish 3 (document 40) ∷ finish 2 (refused "too large") ∷ []

abbrev none_left : List ImportFile → List FileStep
none_left fs = []

abbrev closed : ImportStore × RunResult
unfolding process_batch_import
closed = process_batch_import line show side_by_side false 3 1 50 request interrupted

process_batch_import-closes_example :
    ClosedWell 3 1 (process_batch_import line show side_by_side false 3 1 50 request interrupted)
unfolding begin_batch
process_batch_import-closes_example =
    process_batch_import-closes line show side_by_side 3 1 50 request interrupted batch refl refl
      (begins [] (3 ∷ []) (begins [] [] (ends [] (2 ∷ []) (ends [] [] Gathered.none_left))))

process_batch_import-again_example :
    process_batch_import line show none_left true 3 1 90 []
      (process_batch_import line show side_by_side false 3 1 50 request interrupted).0
    ≡ process_batch_import line show side_by_side false 3 1 50 request interrupted
unfolding begin_batch
process_batch_import-again_example =
    process_batch_import-again line show side_by_side none_left true 3 1 50 90 request []
      interrupted batch refl refl (refl, (refl, (refl, tt)))

two_of_three :
    closed.1 ≡ finished (record { successful = 2; failed = 1; errors = "too large" ∷ [] })
unfolding closed
two_of_three = refl
