-- ===== src/BatchImport/Files.antt =====
-- app/tasks.py: what a sequence of steps does to each file of an import.
use law_review_local.Common.{
  ℕ, String, List, map, Bool, All, ◌∷◌, ◌≡◌, ◌∙◌, ◌+◌, [], Bool-cases, sym, true, ap, not, ◌==◌,
  refl, length, ◌&&◌, inl, inr, ◌||◌, arith,
}
use law_review_local.BatchImport.{
  Indexed, run_steps, step_file, FileStep, batch_progress, ImportFile, ImportStore, successes,
  end_file, rows_of, is_finished, document, start, finish, refused, failures, FileStatus, is_failed,
  is_completed, file_pending, file_processing, file_completed, file_failed,
}

abbrev pub run_file : List FileStep → ImportFile → ImportFile
run_file [] f = f
run_file (x ∷ xs) f = run_file xs (step_file x f)

map_twice {ℓ} : {A : Type ℓ} (f g : A → A) (xs : List A) → map g (map f xs) ≡ map (λ x. g (f x)) xs
map_twice f g [] = refl
map_twice f g (x ∷ xs) = ap (λ z. g (f x) ∷ z) (map_twice f g xs)

map_same {ℓ} : {A : Type ℓ} (xs : List A) → map (λ x. x) xs ≡ xs
map_same [] = refl
map_same (x ∷ xs) = ap (λ z. x ∷ z) (map_same xs)

pub run_steps-files :
    (line : String → String → String) (b : ℕ) (xs : List FileStep) (s : ImportStore)
    → (run_steps line b xs s).files ≡ map (run_file xs) s.files
unfolding run_steps batch_progress
run_steps-files line b [] s = sym (map_same s.files)
run_steps-files line b (start i ∷ xs) s =
    run_steps-files line b xs (record s { files = map (step_file (start i)) s.files })
    ∙ map_twice (step_file (start i)) (run_file xs) s.files
run_steps-files line b (finish i r ∷ xs) s =
    run_steps-files line b xs
      (batch_progress line b (record s { files = map (step_file (finish i r)) s.files }))
    ∙ map_twice (step_file (finish i r)) (run_file xs) s.files

-- Whether a file is finished after some steps, given whether it was before them: the last step on it
-- is an end.
abbrev pub settled : ℕ → Bool → List FileStep → Bool
settled i done [] = done
settled i done (start j ∷ xs) = settled i (not (i == j) && done) xs
settled i done (finish j r ∷ xs) = settled i ((i == j) || done) xs

end_file-finished : (r : Indexed) (f : ImportFile) → is_finished (end_file r f).status ≡ true
end_file-finished (document d) f = refl
end_file-finished (refused e) f = refl

end_file-id :
    (r : Indexed) (f : ImportFile)
    → ((end_file r f).id ≡ f.id) × ((end_file r f).batch_id ≡ f.batch_id)
end_file-id (document d) f = (refl, refl)
end_file-id (refused e) f = (refl, refl)

step_file-id :
    (x : FileStep) (f : ImportFile)
    → ((step_file x f).id ≡ f.id) × ((step_file x f).batch_id ≡ f.batch_id)
unfolding step_file
step_file-id (start i) f = elim (Bool-cases (f.id == i)) [
  | inl e ↦ rw e (refl, refl)
  | inr e ↦ rw e (refl, refl)
]
step_file-id (finish i r) f = elim (Bool-cases (f.id == i)) [
  | inl e ↦ rw e (end_file-id r f)
  | inr e ↦ rw e (refl, refl)
]

pub run_file-batch_id :
    (xs : List FileStep) (f : ImportFile) → (run_file xs f).batch_id ≡ f.batch_id
run_file-batch_id [] f = refl
run_file-batch_id (x ∷ xs) f = run_file-batch_id xs (step_file x f) ∙ (step_file-id x f).1

step_file-finished :
    (x : FileStep) (f : ImportFile)
    → settled f.id (is_finished f.status) (x ∷ []) ≡ is_finished (step_file x f).status
unfolding step_file
step_file-finished (start i) f = elim (Bool-cases (f.id == i)) [
  | inl e ↦ rw e refl
  | inr e ↦ rw e refl
]
step_file-finished (finish i r) f = elim (Bool-cases (f.id == i)) [
  | inl e ↦ rw e (sym (end_file-finished r f))
  | inr e ↦ rw e refl
]

settled-step :
    (x : FileStep) (xs : List FileStep) (i : ℕ) (done : Bool)
    → settled i done (x ∷ xs) ≡ settled i (settled i done (x ∷ [])) xs
settled-step (start j) xs i done = refl
settled-step (finish j r) xs i done = refl

pub run_file-finished :
    (xs : List FileStep) (f : ImportFile)
    → is_finished (run_file xs f).status ≡ settled f.id (is_finished f.status) xs
run_file-finished [] f = refl
run_file-finished (x ∷ xs) f =
    run_file-finished xs (step_file x f)
    ∙ rw (step_file-id x f).0
        (rw (← step_file-finished x f) (sym (settled-step x xs f.id (is_finished f.status))))

rows_of-run_file :
    (b : ℕ) (xs : List FileStep) (fs : List ImportFile)
    → rows_of b (map (run_file xs) fs) ≡ map (run_file xs) (rows_of b fs)
rows_of-run_file b xs [] = refl
rows_of-run_file b xs (f ∷ fs) = elim (Bool-cases (f.batch_id == b)) [
  | inl e ↦
      rw (run_file-batch_id xs f) (rw e (ap (λ z. run_file xs f ∷ z) (rows_of-run_file b xs fs)))
  | inr e ↦ rw (run_file-batch_id xs f) (rw e (rows_of-run_file b xs fs))
]

-- Every file is finished after the steps, and none that was finished before them is left unfinished.
abbrev pub Settles : List FileStep → List ImportFile → Type 0
Settles xs fs = All (λ f. settled f.id (is_finished f.status) xs ≡ true) fs

abbrev pub AllFinished : List ImportFile → Type 0
AllFinished fs = All (λ f. is_finished f.status ≡ true) fs

run_file-AllFinished :
    (xs : List FileStep) (fs : List ImportFile) → Settles xs fs → AllFinished (map (run_file xs) fs)
run_file-AllFinished xs [] a = tt
run_file-AllFinished xs (f ∷ fs) (a, rest) =
    (run_file-finished xs f ∙ a, run_file-AllFinished xs fs rest)

pub run_steps-AllFinished :
    (line : String → String → String) (b : ℕ) (xs : List FileStep) (s : ImportStore)
    → Settles xs (rows_of b s.files)
    → AllFinished (rows_of b (run_steps line b xs s).files)
run_steps-AllFinished line b xs s a =
    rw (run_steps-files line b xs s)
      (rw (rows_of-run_file b xs s.files) (run_file-AllFinished xs (rows_of b s.files) a))

one_of_both : (x : FileStatus) → is_finished x ≡ true → is_failed x ≡ not (is_completed x)
one_of_both file_pending h = cc
one_of_both file_processing h = cc
one_of_both file_completed h = refl
one_of_both file_failed h = refl

pub AllFinished-counts :
    (fs : List ImportFile) → AllFinished fs → successes fs + failures fs ≡ length fs
AllFinished-counts [] a = refl
AllFinished-counts (f ∷ fs) (a, rest) =
    let one = one_of_both f.status a in ground (arith, one, AllFinished-counts fs rest)
