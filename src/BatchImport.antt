-- ===== src/BatchImport.antt =====
-- app/tasks.py: the import of a batch of files, over the tables `batch_imports` and
-- `batch_import_files`. The files of a run are indexed side by side, so the writes of
-- `process_one` are a sequence of steps that the scheduler chooses: the start of a file, and its end
-- with the count of the batch. What indexing a staged file gives is an argument, and so are JSON and
-- the clock.
pub mod Files
pub mod Gather
pub mod Completion
mod Examples
use law_review_local.Common.{
  ℕ, some, Bool, Option, List, String, if◌then◌else◌, ◌∷◌, map, keep, ◌||◌, false, none, true,
  length, any, ◌==◌, ◌+◌, suc, not, [], ◌++◌, ◌&&◌, ltb, str_eq,
}

pub data FileStatus : Type 0 where
  file_pending file_processing file_completed file_failed : FileStatus

pub data BatchStatus : Type 0 where
  queued processing completed completed_with_errors failed : BatchStatus

abbrev pub is_terminal : BatchStatus → Bool
is_terminal queued = false
is_terminal processing = false
is_terminal completed = true
is_terminal completed_with_errors = true
is_terminal failed = true

abbrev pub is_completed : FileStatus → Bool
is_completed file_completed = true
is_completed _ = false

abbrev pub is_failed : FileStatus → Bool
is_failed file_failed = true
is_failed _ = false

abbrev pub is_finished : FileStatus → Bool
is_finished s = is_completed s || is_failed s

pub record ImportFile : Type 0 where
  pub id : ℕ
  pub batch_id : ℕ
  pub file_key : String
  pub filename : String
  pub stored_path : String
  pub mime_type : String
  pub status : FileStatus
  pub document_id : Option ℕ
  pub error : String

pub record Batch : Type 0 where
  pub case_id : ℕ
  pub status : BatchStatus
  pub processed_files : ℕ
  pub successful_files : ℕ
  pub failed_files : ℕ
  pub error_log : List String
  pub started_at : Option ℕ
  pub finished_at : Option ℕ

-- `files` stand in the order of their ids.
pub record ImportStore : Type 0 where
  pub batches : ℕ → Option Batch
  pub files : List ImportFile
  pub next_id : ℕ

abbrev pub changed : (Batch → Batch) → Option Batch → Option Batch
changed f none = none
changed f (some x) = some (f x)

-- `UPDATE batch_imports SET … WHERE id=?`
abbrev pub update_batch : ℕ → (Batch → Batch) → ImportStore → ImportStore
update_batch b f s = record s {
  batches = λ c. if c == b then changed f (s.batches c) else s.batches c;
}

abbrev pub rows_of : ℕ → List ImportFile → List ImportFile
rows_of b fs = keep (λ f. f.batch_id == b) fs

abbrev pub successes : List ImportFile → ℕ
successes fs = length (keep (λ f. is_completed f.status) fs)

abbrev pub failures : List ImportFile → ℕ
failures fs = length (keep (λ f. is_failed f.status) fs)

-- f"{filename}: {error}"
abbrev pub error_lines : (String → String → String) → List ImportFile → List String
error_lines line fs = map (λ f. line f.filename f.error) (keep (λ f. is_failed f.status) fs)

abbrev pub counted : (String → String → String) → List ImportFile → Batch → Batch
counted line rows x = record x {
  processed_files = successes rows + failures rows;
  successful_files = successes rows;
  failed_files = failures rows;
  error_log = error_lines line rows;
}

abbrev pub final_status : List ImportFile → BatchStatus
final_status rows =
    if failures rows == 0
    then completed
    else if ltb 0 (successes rows)
    then completed_with_errors
    else failed

pub record Progress : Type 0 where
  pub successful : ℕ
  pub failed : ℕ
  pub errors : List String

abbrev pub progress_of : (String → String → String) → List ImportFile → Progress
progress_of line rows = record {
  successful = successes rows;
  failed = failures rows;
  errors = error_lines line rows;
}

-- `_batch_progress` without `finalize`, and with it
unfoldable pub batch_progress : (String → String → String) → ℕ → ImportStore → ImportStore
batch_progress line b s = update_batch b (counted line (rows_of b s.files)) s

abbrev pub finalized : List ImportFile → ℕ → Batch → Batch
finalized rows t x =
    if successes rows + failures rows == length rows
    then record x { status = final_status rows; finished_at = some t }
    else x

unfoldable pub finalize_progress :
    (String → String → String) → ℕ → ℕ → ImportStore → ImportStore × Progress
finalize_progress line b t s = (
  update_batch b (λ x. finalized (rows_of b s.files) t (counted line (rows_of b s.files) x)) s,
  progress_of line (rows_of b s.files),
)

-- A file of the request: its key, or none, its name, path and type.
pub record FileIn : Type 0 where
  pub file_key : Option String
  pub filename : String
  pub stored_path : String
  pub mime_type : Option String

abbrev pub key_or : (ℕ → String) → ℕ → Option String → String
key_or show i none = show i
key_or show i (some k) = k

abbrev pub type_or : Option String → String
type_or none = "application/octet-stream"
type_or (some m) = m

abbrev pub same_key : ℕ → String → ImportFile → Bool
same_key b k f = (f.batch_id == b) && str_eq f.file_key k

-- `INSERT OR IGNORE`, under `UNIQUE(batch_id, file_key)`; `show` is `str` of the index.
unfoldable pub register_file : (ℕ → String) → ℕ → ℕ → FileIn → ImportStore → ImportStore
register_file show b i x s =
    if any (same_key b (key_or show i x.file_key)) s.files then s else record s {
      next_id = s.next_id + 1;
      files =
          s.files
          ++ record {
            id = s.next_id;
            batch_id = b;
            file_key = key_or show i x.file_key;
            filename = x.filename;
            stored_path = x.stored_path;
            mime_type = type_or x.mime_type;
            status = file_pending;
            document_id = none;
            error = "";
          }
            ∷ [];
    }

unfoldable pub register_files : (ℕ → String) → ℕ → ℕ → List FileIn → ImportStore → ImportStore
unfolding register_file
register_files show b i [] s = s
register_files show b i (x ∷ xs) s = register_files show b (suc i) xs (register_file show b i x s)

abbrev pub or_now : ℕ → Option ℕ → Option ℕ
or_now t none = some t
or_now t (some u) = some u

-- What `_index_staged_file` gives: the document, or the text of `upload_error_message`.
pub data Indexed : Type 0 where
  document : ℕ → Indexed
  refused : String → Indexed

abbrev pub end_file : Indexed → ImportFile → ImportFile
end_file (document d) f = record f { status = file_completed; document_id = some d; error = "" }
end_file (refused e) f = record f { status = file_failed; document_id = none; error = e }

-- A step of some `process_one`: the start of the file of an id, or its end.
pub data FileStep : Type 0 where
  start : ℕ → FileStep
  finish : ℕ → Indexed → FileStep

unfoldable pub step_file : FileStep → ImportFile → ImportFile
step_file (start i) f = if f.id == i then record f { status = file_processing } else f
step_file (finish i r) f = if f.id == i then end_file r f else f

abbrev pub recount : (String → String → String) → ℕ → FileStep → ImportStore → ImportStore
recount line b (start i) s = s
recount line b (finish i r) s = batch_progress line b s

unfoldable pub run_steps :
    (String → String → String) → ℕ → List FileStep → ImportStore → ImportStore
unfolding batch_progress step_file
run_steps line b [] s = s
run_steps line b (x ∷ xs) s =
    run_steps line b xs (recount line b x (record s { files = map (step_file x) s.files }))

abbrev pub unfinished : ℕ → List ImportFile → List ImportFile
unfinished b fs = keep (λ f. not (is_finished f.status)) (rows_of b fs)

-- What a run gives: the progress, a ValueError, or the cancellation of the job.
pub data RunResult : Type 0 where
  finished : Progress → RunResult
  no_batch : RunResult
  cancelled : RunResult

-- The first transaction of a batch that is not finished.
unfoldable pub begin_batch : (ℕ → String) → ℕ → ℕ → List FileIn → ImportStore → ImportStore
unfolding register_files
begin_batch show b t files s =
    update_batch b (λ x. record x { status = processing; started_at = or_now t x.started_at })
      (register_files show b 0 files s)

abbrev pub stored_progress : Batch → Progress
stored_progress x = record {
  successful = x.successful_files;
  failed = x.failed_files;
  errors = x.error_log;
}

-- The rest of a run: `schedule` makes the steps for the files that are unfinished, and `cut` says that
-- the job is cancelled.
unfoldable pub run_batch :
    (String → String → String)
    → (List ImportFile → List FileStep)
    → Bool
    → ℕ
    → ℕ
    → ImportStore
    → ImportStore × RunResult
unfolding run_steps finalize_progress
run_batch line schedule cut b t s =
    let after = run_steps line b (schedule (unfinished b s.files)) s in
    let done = finalize_progress line b t after in
    if cut then (after, cancelled) else (done.0, finished done.1)

abbrev pub for_case : ℕ → Option Batch → Option Batch
for_case c none = none
for_case c (some x) = if x.case_id == c then some x else none

unfoldable pub run_unless_done :
    (String → String → String)
    → (ℕ → String)
    → (List ImportFile → List FileStep)
    → Bool
    → ℕ
    → ℕ
    → List FileIn
    → ImportStore
    → Option Batch
    → ImportStore × RunResult
unfolding begin_batch run_batch
run_unless_done line show schedule cut b t files s none = (s, no_batch)
run_unless_done line show schedule cut b t files s (some x) =
    if is_terminal x.status
    then (s, finished (stored_progress x))
    else run_batch line schedule cut b t (begin_batch show b t files s)

-- `_process_batch_import`, under the batch's lock
unfoldable pub process_batch_import :
    (String → String → String)
    → (ℕ → String)
    → (List ImportFile → List FileStep)
    → Bool
    → ℕ
    → ℕ
    → ℕ
    → List FileIn
    → ImportStore
    → ImportStore × RunResult
unfolding run_unless_done
process_batch_import line show schedule cut b c t files s =
    run_unless_done line show schedule cut b t files s (for_case c (s.batches b))
