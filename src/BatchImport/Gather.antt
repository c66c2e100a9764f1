-- ===== src/BatchImport/Gather.antt =====
-- app/tasks.py: the steps that `asyncio.gather` makes of the `process_one` of the unfinished files.
use law_review_local.Common.{
  ℕ, List, ◌++◌, Bool, any, ◌∷◌, [], All, map, keep, arith, ◌==◌, ◌≡◌, not, ◌||◌, ◌&&◌, true,
  Bool-cases, refl, inl, inr, ==_self, subst,
}
use law_review_local.BatchImport.{
  ImportFile, FileStep, start, unfinished, is_finished, rows_of, Indexed, finish,
}
use law_review_local.BatchImport.Files.{settled, Settles}

-- The steps of some files that wait and some that run: each waiting file starts once, and each that
-- runs ends once, in any order. The semaphore that bounds the running ones is not asked for.
pub data Gathered : List ℕ → List ℕ → List FileStep → Type 0 where
  none_left : Gathered [] [] []
  begins :
      {i : ℕ} (before after : List ℕ) {running : List ℕ} {xs : List FileStep}
      → Gathered (before ++ after) (i ∷ running) xs
      → Gathered (before ++ i ∷ after) running (start i ∷ xs)
  ends :
      {i : ℕ} {r : Indexed} {waiting : List ℕ} (before after : List ℕ) {xs : List FileStep}
      → Gathered waiting (before ++ after) xs
      → Gathered waiting (before ++ i ∷ after) (finish i r ∷ xs)

abbrev has_id : ℕ → List ℕ → Bool
has_id i js = any (λ j. i == j) js

has_id-insert :
    (i j : ℕ) (xs ys : List ℕ) → has_id i (xs ++ j ∷ ys) ≡ ((i == j) || has_id i (xs ++ ys))
has_id-insert i j [] ys = refl
has_id-insert i j (x ∷ xs) ys = ground (arith, has_id-insert i j xs ys)

-- After the steps a file is finished if it was so before them, or has waited or run.
settled-Gathered :
    (k : ℕ) (was : Bool) {waiting running : List ℕ} {xs : List FileStep}
    → Gathered waiting running xs
    → settled k was xs ≡ (was || (has_id k waiting || has_id k running))
settled-Gathered k was none_left = ground arith
settled-Gathered k was (begins {i} before after {running} g) =
    let rest = settled-Gathered k (not (k == i) && was) g in
    let here = has_id-insert k i before after in ground (arith, rest, here)
settled-Gathered k was (ends {i} {r} {waiting} before after g) =
    let rest = settled-Gathered k ((k == i) || was) g in
    let here = has_id-insert k i before after in ground (arith, rest, here)

-- The ids of the files of a batch that no earlier run has finished, which are those gathered.
abbrev pub pending_ids : ℕ → List ImportFile → List ℕ
pending_ids b fs = map (λ f. f.id) (unfinished b fs)

abbrev Covered : List ℕ → List ImportFile → Type 0
Covered ids fs = All (λ f. (is_finished f.status || has_id f.id ids) ≡ true) fs

more_ids : (i : ℕ) (ids : List ℕ) (fs : List ImportFile) → Covered ids fs → Covered (i ∷ ids) fs
more_ids i ids [] a = tt
more_ids i ids (f ∷ fs) (a, rest) = (ground (arith, a), more_ids i ids fs rest)

unfinished-Covered :
    (fs : List ImportFile)
    → Covered (map (λ f. f.id) (keep (λ f. not (is_finished f.status)) fs)) fs
unfinished-Covered [] = tt
unfinished-Covered (f ∷ fs) =
    let open_ids : List ImportFile → List ℕ =
      λ gs. map (λ g. g.id) (keep (λ g. not (is_finished g.status)) gs) in
    elim (Bool-cases (is_finished f.status)) [
      | inl e ↦
          let same : open_ids fs ≡ open_ids (f ∷ fs) = rw e refl in
          subst (λ ids. Covered ids (f ∷ fs)) same (rw e refl, unfinished-Covered fs)
      | inr e ↦
          let same : f.id ∷ open_ids fs ≡ open_ids (f ∷ fs) = rw e refl in
          subst (λ ids. Covered ids (f ∷ fs)) same
            (ground (arith, ==_self f.id), more_ids f.id (open_ids fs) fs (unfinished-Covered fs))
    ]

Covered-Settles :
    (ids : List ℕ) (xs : List FileStep) (fs : List ImportFile)
    → Gathered ids [] xs
    → Covered ids fs
    → Settles xs fs
Covered-Settles ids xs [] g a = tt
Covered-Settles ids xs (f ∷ fs) g (a, rest) =
    let now = settled-Gathered f.id (is_finished f.status) g in
    (ground (arith, now, a), Covered-Settles ids xs fs g rest)

pub Gathered-Settles :
    (b : ℕ) (xs : List FileStep) (fs : List ImportFile)
    → Gathered (pending_ids b fs) [] xs
    → Settles xs (rows_of b fs)
Gathered-Settles b xs fs g =
    Covered-Settles (pending_ids b fs) xs (rows_of b fs) g (unfinished-Covered (rows_of b fs))
