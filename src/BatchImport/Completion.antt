-- ===== src/BatchImport/Completion.antt =====
-- app/tasks.py, `_process_batch_import`: how a run ends, and what another run does after it.
use law_review_local.Common.{
  ℕ, String, List, Option, ◌≡◌, Bool, ◌∷◌, some, ◌+◌, arith, Bool-cases, false, ==_self, true, map,
  refl, ap, ◌==◌, length, any, inl, ◌∙◌, ==_iff, subst, sym, inr, suc, [], none, ltb, keep, ◌⊎◌,
}
use law_review_local.BatchImport.{
  failed, register_files, run_steps, begin_batch, register_file, Batch, FileIn, ImportFile,
  batch_progress, run_batch, process_batch_import, ImportStore, RunResult, for_case,
  finalize_progress, FileStep, successes, is_terminal, run_unless_done, final_status, start,
  update_batch, processing, failures, rows_of, unfinished, finished, or_now, step_file,
  stored_progress, same_key, changed, finalized, finish, key_or, counted, is_failed, is_completed,
  BatchStatus, completed, completed_with_errors,
}
use law_review_local.BatchImport.Files.{
  Settles, AllFinished, run_steps-AllFinished, AllFinished-counts,
}
use law_review_local.BatchImport.Gather.{Gathered, pending_ids, Gathered-Settles}

terminal-final_status : (rows : List ImportFile) → is_terminal (final_status rows) ≡ true
terminal-final_status rows = ground arith

find-update_batch :
    (b : ℕ) (f : Batch → Batch) (s : ImportStore) (x : Batch)
    → s.batches b ≡ some x
    → (update_batch b f s).batches b ≡ some (f x)
find-update_batch b f s x h = rw (==_self b) (ap (changed f) h)

register_files-batches :
    (show : ℕ → String) (b i : ℕ) (xs : List FileIn) (s : ImportStore)
    → (register_files show b i xs s).batches ≡ s.batches
unfolding register_files register_file
register_files-batches show b i [] s = refl
register_files-batches show b i (x ∷ xs) s =
    elim (Bool-cases (any (same_key b (key_or show i x.file_key)) s.files)) [
      | inl e ↦ register_files-batches show b (suc i) xs (register_file show b i x s) ∙ rw e refl
      | inr e ↦ register_files-batches show b (suc i) xs (register_file show b i x s) ∙ rw e refl
    ]

-- The steps change the counts of the row only.
run_steps-row :
    (line : String → String → String) (b : ℕ) (xs : List FileStep) (s : ImportStore) (x : Batch)
    → s.batches b ≡ some x
    → (y : Batch) × ((run_steps line b xs s).batches b ≡ some y) × (y.case_id ≡ x.case_id)
unfolding run_steps batch_progress
run_steps-row line b [] s x h = (x, h, refl)
run_steps-row line b (start i ∷ xs) s x h =
    run_steps-row line b xs (record s { files = map (step_file (start i)) s.files }) x h
run_steps-row line b (finish i r ∷ xs) s x h =
    let fs = map (step_file (finish i r)) s.files in
    let z = counted line (rows_of b fs) x in
    run_steps-row line b xs (batch_progress line b (record s { files = fs })) z
      (find-update_batch b (counted line (rows_of b fs)) (record s { files = fs }) x h)

begin_batch-row :
    (show : ℕ → String) (b t : ℕ) (files : List FileIn) (s : ImportStore) (x : Batch)
    → s.batches b ≡ some x
    → (y : Batch) × ((begin_batch show b t files s).batches b ≡ some y) × (y.case_id ≡ x.case_id)
unfolding begin_batch
begin_batch-row show b t files s x h =
    let registered = register_files show b 0 files s in
    let opened =
      λ (z : Batch). record z { status = processing; started_at = or_now t z.started_at } in
    (
      opened x,
      find-update_batch b opened registered x
          (ap (λ rows. rows b) (register_files-batches show b 0 files s) ∙ h),
      refl,
    )

for_case-some :
    (c : ℕ) (o : Option Batch) (x : Batch) → for_case c o ≡ some x → (o ≡ some x) × (x.case_id ≡ c)
for_case-some c none x h = absurd (ground (arith, h))
for_case-some c (some y) x h = elim (Bool-cases (y.case_id == c)) [
  | inl e ↦
      let same : y ≡ x = ground (arith, e, h) in
      (ap (λ z. some z) same, rw (← same) ((==_iff y.case_id c).0 e))
  | inr e ↦ absurd (ground (arith, e, h))
]

for_case-found : (c : ℕ) (x : Batch) → x.case_id ≡ c → for_case c (some x) ≡ some x
for_case-found c x h = rw h (rw (==_self c) refl)

closed_by :
    (rows : List ImportFile) (t : ℕ) (x : Batch)
    → (successes rows + failures rows == length rows) ≡ true
    → finalized rows t x ≡ record x { status = final_status rows; finished_at = some t }
closed_by rows t x h = rw h refl

-- What a run that is not cancelled leaves behind.
abbrev pub IsClosed : ℕ → ℕ → ImportStore × RunResult → Type 0
IsClosed b c z =
    (y : Batch) × (z.0.batches b ≡ some y)
    × (y.case_id ≡ c)
    × (y.status ≡ final_status (rows_of b z.0.files))
    × (y.processed_files ≡ length (rows_of b z.0.files))
    × AllFinished (rows_of b z.0.files)
    × (z.1 ≡ finished (stored_progress y))

abbrev pub any_failed : List ImportFile → Bool
any_failed fs = any (λ f. is_failed f.status) fs

abbrev pub any_completed : List ImportFile → Bool
any_completed fs = any (λ f. is_completed f.status) fs

-- What each status of an ended batch says of its files.
abbrev pub StatusFits : BatchStatus → List ImportFile → Type 0
StatusFits st rows =
    ((st ≡ completed) × (any_failed rows ≡ false))
    ⊎ (((st ≡ completed_with_errors) × (any_failed rows ≡ true) × (any_completed rows ≡ true))
        ⊎ ((st ≡ failed) × (any_failed rows ≡ true) × (any_completed rows ≡ false)))

length-keep-any : {A : Type 0} (p : A → Bool) (xs : List A) → ltb 0 (length (keep p xs)) ≡ any p xs
length-keep-any p [] = refl
length-keep-any p (x ∷ xs) = ground (arith, length-keep-any p xs)

final_status-StatusFits : (rows : List ImportFile) → StatusFits (final_status rows) rows
final_status-StatusFits rows =
    let bad = length-keep-any (λ (f : ImportFile). is_failed f.status) rows in
    let good = length-keep-any (λ (f : ImportFile). is_completed f.status) rows in
    elim (Bool-cases (any_failed rows)) [
      | inr e ↦ inl (ground (arith, bad, e), e)
      | inl e ↦ elim (Bool-cases (any_completed rows)) [
        | inl d ↦ inr (inl (ground (arith, bad, good, e, d), e, d))
        | inr d ↦ inr (inr (ground (arith, bad, good, e, d), e, d))
      ]
    ]

-- The same with the status spelled out.
abbrev pub ClosedWell : ℕ → ℕ → ImportStore × RunResult → Type 0
ClosedWell b c z =
    (y : Batch) × (z.0.batches b ≡ some y)
    × (y.case_id ≡ c)
    × StatusFits y.status (rows_of b z.0.files)
    × (y.processed_files ≡ length (rows_of b z.0.files))
    × AllFinished (rows_of b z.0.files)
    × (z.1 ≡ finished (stored_progress y))

module _ (line : String → String → String) (show : ℕ → String) where
  process-open :
      (schedule : List ImportFile → List FileStep) (cut : Bool) (b c t : ℕ) (files : List FileIn)
      (s : ImportStore) (x : Batch)
      → for_case c (s.batches b) ≡ some x
      → is_terminal x.status ≡ false
      → process_batch_import line show schedule cut b c t files s
        ≡ run_batch line schedule cut b t (begin_batch show b t files s)
  unfolding process_batch_import run_unless_done
  process-open schedule cut b c t files s x h open_status = rw h (rw open_status refl)

  process-closed :
      (schedule : List ImportFile → List FileStep) (cut : Bool) (b c t : ℕ) (files : List FileIn)
      (s : ImportStore) (x : Batch)
      → for_case c (s.batches b) ≡ some x
      → is_terminal x.status ≡ true
      → process_batch_import line show schedule cut b c t files s
        ≡ (s, finished (stored_progress x))
  unfolding process_batch_import run_unless_done
  process-closed schedule cut b c t files s x h closed_status = rw h (rw closed_status refl)

  run_batch-IsClosed :
      (schedule : List ImportFile → List FileStep) (b c t : ℕ) (s : ImportStore) (x : Batch)
      → s.batches b ≡ some x
      → x.case_id ≡ c
      → Settles (schedule (unfinished b s.files)) (rows_of b s.files)
      → IsClosed b c (run_batch line schedule false b t s)
  unfolding run_batch finalize_progress
  run_batch-IsClosed schedule b c t s x h own settle =
      let xs = schedule (unfinished b s.files) in
      let after = run_steps line b xs s in
      let rows = rows_of b after.files in
      let every = run_steps-AllFinished line b xs s settle in
      let counts = AllFinished-counts rows every in
      let (y, at, same) = run_steps-row line b xs s x h in
      let all_done : (successes rows + failures rows == length rows) ≡ true =
        (==_iff (successes rows + failures rows) (length rows)).1 counts in
      let found = find-update_batch b (λ w. finalized rows t (counted line rows w)) after y at in
      (
        record (counted line rows y) { status = final_status rows; finished_at = some t },
        found ∙ ap (λ w. some w) (closed_by rows t (counted line rows y) all_done),
        same ∙ own,
        refl,
        counts,
        every,
        refl,
      )

  process_batch_import-IsClosed :
      (schedule : List ImportFile → List FileStep) (b c t : ℕ) (files : List FileIn)
      (s : ImportStore) (x : Batch)
      → for_case c (s.batches b) ≡ some x
      → is_terminal x.status ≡ false
      → Settles
          (schedule (unfinished b (begin_batch show b t files s).files))
          (rows_of b (begin_batch show b t files s).files)
      → IsClosed b c (process_batch_import line show schedule false b c t files s)
  process_batch_import-IsClosed schedule b c t files s x h open_status settle =
      let (at, own) = for_case-some c (s.batches b) x h in
      let (y, row, same) = begin_batch-row show b t files s x at in
      let run =
        run_batch-IsClosed schedule b c t (begin_batch show b t files s) y row (same ∙ own)
          settle in
      subst (IsClosed b c) (sym (process-open schedule false b c t files s x h open_status)) run

  -- A run on a batch that is not finished and that is not cancelled closes it, in whatever order its
  -- unfinished files start and end, each of them once: every file of the batch is completed or failed,
  -- and all are counted; the batch is completed if none has failed, failed if none is completed but
  -- some has failed, and completed with errors otherwise; and the result is what the row holds.
  pub process_batch_import-closes :
      (schedule : List ImportFile → List FileStep) (b c t : ℕ) (files : List FileIn)
      (s : ImportStore) (x : Batch)
      → for_case c (s.batches b) ≡ some x
      → is_terminal x.status ≡ false
      → Gathered
          (pending_ids b (begin_batch show b t files s).files)
          []
          (schedule (unfinished b (begin_batch show b t files s).files))
      → ClosedWell b c (process_batch_import line show schedule false b c t files s)
  process_batch_import-closes schedule b c t files s x h open_status order =
      let opened = begin_batch show b t files s in
      let settle = Gathered-Settles b (schedule (unfinished b opened.files)) opened.files order in
      let (y, at, own, status, total, every, result) =
        process_batch_import-IsClosed schedule b c t files s x h open_status settle in
      let z = process_batch_import line show schedule false b c t files s in
      let fits : StatusFits y.status (rows_of b z.0.files) =
        rw status (final_status-StatusFits (rows_of b z.0.files)) in
      (y, at, own, fits, total, every, result)

  -- Once a run has closed the batch, any other run of it, with whatever files, leaves the store as it
  -- is and gives the same result.
  pub process_batch_import-again :
      (schedule other_schedule : List ImportFile → List FileStep) (cut : Bool) (b c t u : ℕ)
      (files other_files : List FileIn) (s : ImportStore) (x : Batch)
      → for_case c (s.batches b) ≡ some x
      → is_terminal x.status ≡ false
      → Settles
          (schedule (unfinished b (begin_batch show b t files s).files))
          (rows_of b (begin_batch show b t files s).files)
      → process_batch_import line show other_schedule cut b c u other_files
          (process_batch_import line show schedule false b c t files s).0
        ≡ process_batch_import line show schedule false b c t files s
  process_batch_import-again schedule other_schedule cut b c t u files other_files s x h open_status
        settle =
      let (y, at, own, status, total, every, result) =
        process_batch_import-IsClosed schedule b c t files s x h open_status settle in
      let s' = (process_batch_import line show schedule false b c t files s).0 in
      let found : for_case c (s'.batches b) ≡ some y = rw at (for_case-found c y own) in
      let closed : is_terminal y.status ≡ true =
        rw status (terminal-final_status (rows_of b s'.files)) in
      process-closed other_schedule cut b c u other_files s' y found closed
      ∙ ap (λ r. (s', r)) (sym result)
