-- ===== src/Conflicts/Clearance/Searches.antt =====
-- app/conflicts.py: what the transactions of `put_parties` and `run_check` leave of the parties and the
-- statuses, and what a search finds in a state that holds two lists.
use mathlib.Core.Path.{fun_ext}
use mathlib.Core.List.{append-nil}
use law_review_local.Conflicts.{Folding, Party, Hit, find_conflicts}
use law_review_local.Common.{
  List, Bool, ℕ, ◌⊎◌, ◌≢◌, ◌≡◌, keep, String, inl, any, true, ◌++◌, inr, ◌==◌, false, ◌∷◌, not, ◌∙◌,
  refl, map, if◌then◌else◌, some, ==_self, [], ap, arith, some_inj, sym,
}
use law_review_local.Conflicts.Clearance.{
  clearance, run_check, load_parties, write_parties, PartyIn, ConflictStore, verdict, record_check,
  pending, party_row,
}
use law_review_local.Conflicts.Pairing.{conflicts, any-any, conflicts_comm}
use law_review_local.Conflicts.Clearance.Gate.{is_conflicted, clearance-run_check}

load-rows :
    (c d : ℕ) (ps : List PartyIn)
    → keep (λ p. p.case_id == d) (map (party_row c) ps)
      ≡ (if c == d then map (party_row c) ps else [])
load-rows c d [] = ground arith
load-rows c d (p ∷ ps) = ground (arith, load-rows c d ps)

keep-append {ℓ} :
    {A : Type ℓ} (q : A → Bool) (xs ys : List A) → keep q (xs ++ ys) ≡ keep q xs ++ keep q ys
keep-append q [] ys = refl
keep-append q (x ∷ xs) ys = ground (arith, keep-append q xs ys)

load-others :
    (c d : ℕ) (firm : List Party)
    → keep (λ p. p.case_id == d) (keep (λ p. not (p.case_id == c)) firm)
      ≡ (if c == d then [] else keep (λ p. p.case_id == d) firm)
load-others c d [] = ground arith
load-others c d (p ∷ firm) = ground (arith, load-others c d firm)

-- What storing a case's parties does to the parties of each case.
pub load-write_parties :
    (c d : ℕ) (ps : List PartyIn) (actor : String) (s : ConflictStore)
    → load_parties (write_parties c ps actor s) d
      ≡ (if c == d then map (party_row c) ps else load_parties s d)
unfolding load_parties write_parties
load-write_parties c d ps actor s =
    rw (keep-append, load-others c d s.parties, load-rows c d ps)
      (ground (arith, append-nil (keep (λ (p : Party). p.case_id == d) s.parties)))

pub load-record_check :
    (digest : List Party → String) (c d : ℕ) (actor : String) (own : List Party) (hits : List Hit)
    (s : ConflictStore)
    → load_parties (record_check digest c actor own hits s) d ≡ load_parties s d
unfolding load_parties
load-record_check digest c d actor own hits s = refl

pub clearance-record_check :
    (digest : List Party → String) (c : ℕ) (actor : String) (own : List Party) (hits : List Hit)
    (s : ConflictStore)
    → clearance (record_check digest c actor own hits s) c ≡ some (verdict hits)
unfolding clearance
clearance-record_check digest c actor own hits s = rw (==_self c) refl

pub clearance-record_other :
    (digest : List Party → String) (c d : ℕ) (actor : String) (own : List Party) (hits : List Hit)
    (s : ConflictStore)
    → (c == d) ≡ false
    → clearance (record_check digest c actor own hits s) d ≡ clearance s d
unfolding clearance
clearance-record_other digest c d actor own hits s h = rw h refl

pub swapped {ℓ} : {A B : Type ℓ} → A ⊎ B → B ⊎ A
swapped (inl x) = inr x
swapped (inr y) = inl y

-- A search grows with the list that it goes through.
any-keep_ne :
    (q : Party → Bool) (c d : ℕ) (firm : List Party)
    → c ≢ d
    → any q (keep (λ p. p.case_id == d) firm) ≡ true
    → any q (keep (λ p. not (p.case_id == c)) firm) ≡ true
any-keep_ne q c d [] ne h = h
any-keep_ne q c d (p ∷ firm) ne h = ground (arith, any-keep_ne q c d firm ne)

any_mono {ℓ} :
    {A : Type ℓ} (q r : A → Bool) (xs : List A)
    → ((x : A) → q x ≡ true → r x ≡ true)
    → any q xs ≡ true
    → any r xs ≡ true
any_mono q r [] m h = h
any_mono q r (x ∷ xs) m h = ground (arith, m x, any_mono q r xs m)

-- Some party of the one list conflicts with some party of the other.
abbrev pub opposed : Folding → List Party → List Party → Bool
opposed f ps qs = any (λ p. any (conflicts f p) qs) ps

pub opposed_comm : (f : Folding) (ps qs : List Party) → opposed f ps qs ≡ opposed f qs ps
opposed_comm f ps qs =
    any-any (conflicts f) ps qs
    ∙ ap (λ t. any t qs) (fun_ext (λ q. ap (λ t. any t ps) (fun_ext (λ p. conflicts_comm f p q))))

-- A check run in a state that holds both lists finds their conflict.
check_finds :
    (f : Folding) (digest : List Party → String) (c d : ℕ) (actor : String) (s : ConflictStore)
    → c ≢ d
    → opposed f (load_parties s c) (load_parties s d) ≡ true
    → clearance (run_check f digest c actor s) c ≡ some pending
unfolding load_parties
check_finds f digest c d actor s ne h =
    let bad : is_conflicted f c s.parties ≡ true =
      any_mono (λ p. any (conflicts f p) (keep (λ (q : Party). q.case_id == d) s.parties))
        (λ p. any (conflicts f p) (keep (λ (q : Party). not (q.case_id == c)) s.parties))
        (keep (λ (q : Party). q.case_id == c) s.parties)
        (λ p. any-keep_ne (conflicts f p) c d s.parties ne) h in
    ground (arith, clearance-run_check f digest c c actor s)

-- A search of parties of a state that holds both lists finds their conflict.
pub search_finds :
    (f : Folding) (digest : List Party → String) (c d : ℕ) (actor : String) (s : ConflictStore)
    (own : List Party)
    → c ≢ d
    → own ≡ load_parties s c
    → opposed f (load_parties s c) (load_parties s d) ≡ true
    → verdict (find_conflicts f c own s.parties) ≡ pending
unfolding run_check
search_finds f digest c d actor s own ne same h =
    let found = check_finds f digest c d actor s ne h in
    rw same (some_inj (sym (clearance-record_check digest c actor (load_parties s c) _ s) ∙ found))

pub clearance-write_parties :
    (c d : ℕ) (ps : List PartyIn) (actor : String) (s : ConflictStore)
    → clearance (write_parties c ps actor s) d ≡ clearance s d
unfolding clearance write_parties
clearance-write_parties c d ps actor s = refl
