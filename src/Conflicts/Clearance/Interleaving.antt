-- ===== src/Conflicts/Clearance/Interleaving.antt =====
-- app/conflicts.py, `put_parties`: two cases change their parties at the same time.
use law_review_local.Conflicts.Clearance.Requests.{
  Phase, Request, Pair, Side, one, two, idle, stored, loaded, searched, recorded, advance_at,
  run_requests, move, is_one, new_pair,
}
use law_review_local.Common.{
  false, Bool, ℕ, ◌≢◌, ◌≡◌, List, true, String, ◌==◌, Bool-cases, ◌∙◌, map, some, inl, ==_self,
  subst, ==_iff, ◌⊎◌, sym, ◌∷◌, inr, ap, refl, [], ◌≤◌, ◌+◌, count, suc, arith, not,
}
use law_review_local.Conflicts.Clearance.{
  verdict, pending, ConflictStore, PartyIn, load_parties, clearance, write_parties, party_row,
  record_check,
}
use law_review_local.Conflicts.{Folding, Party}
use law_review_local.Conflicts.Clearance.Searches.{
  opposed, load-write_parties, clearance-write_parties, clearance-record_check, search_finds,
  swapped, load-record_check, opposed_comm, clearance-record_other,
}

false≢true : false ≢ true
false≢true h = cc

abbrev has_searched : Phase → Bool
has_searched idle = false
has_searched stored = false
has_searched loaded = false
has_searched searched = true
has_searched recorded = true

-- What holds of a request for the case `c` with the list `l`.
abbrev Facts : ℕ → List Party → ConflictStore → Request → Phase → Type 0
Facts c l s r idle = Unit {0}
Facts c l s r stored = load_parties s c ≡ l
Facts c l s r loaded = (load_parties s c ≡ l) × (r.own ≡ l)
Facts c l s r searched = load_parties s c ≡ l
Facts c l s r recorded = (load_parties s c ≡ l) × (clearance s c ≡ some (verdict r.hits))

Facts-load :
    (c : ℕ) (l : List Party) (s : ConflictStore) (r : Request) (p : Phase)
    → has_searched p ≡ true
    → Facts c l s r p
    → load_parties s c ≡ l
Facts-load c l s r idle h k = absurd (false≢true h)
Facts-load c l s r stored h k = absurd (false≢true h)
Facts-load c l s r loaded h k = absurd (false≢true h)
Facts-load c l s r searched h k = k
Facts-load c l s r recorded h k = k.0

Facts-transport :
    (c : ℕ) (l : List Party) (s s' : ConflictStore) (r : Request) (p : Phase)
    → load_parties s' c ≡ load_parties s c
    → clearance s' c ≡ clearance s c
    → Facts c l s r p
    → Facts c l s' r p
Facts-transport c l s s' r idle e d k = tt
Facts-transport c l s s' r stored e d k = e ∙ k
Facts-transport c l s s' r loaded e d k = (e ∙ k.0, k.1)
Facts-transport c l s s' r searched e d k = e ∙ k
Facts-transport c l s s' r recorded e d k = (e ∙ k.0, d ∙ k.1)

abbrev Found : Request → Type 0
Found r = verdict r.hits ≡ pending

module _ (f : Folding) (digest : List Party → String) (actor : String) (c d : ℕ) (ps : List PartyIn)
    (m : List Party) (ne : c ≢ d) where
  abbrev out : ConflictStore → Request → Phase → ConflictStore × Request
  out s r p = advance_at f digest actor c ps s r p

  own-Facts :
      (s : ConflictStore) (r : Request) (p : Phase)
      → r.phase ≡ p
      → Facts c (map (party_row c) ps) s r p
      → Facts c (map (party_row c) ps) (out s r p).0 (out s r p).1 (out s r p).1.phase
  unfolding advance_at
  own-Facts s r idle at k = load-write_parties c c ps actor s ∙ rw (==_self c) refl
  own-Facts s r stored at k = (k, k)
  own-Facts s r loaded at k = k.0
  own-Facts s r searched at k = (k, clearance-record_check digest c actor r.own r.hits s)
  own-Facts s r recorded at k = subst (Facts c (map (party_row c) ps) s r) (sym at) k

  other_case : (c == d) ≡ false
  other_case = elim (Bool-cases (c == d)) [ inl e ↦ absurd (ne ((==_iff c d).0 e)) | inr e ↦ e ]

  other-Facts :
      (s : ConflictStore) (r r' : Request) (p q : Phase)
      → Facts d m s r' q
      → Facts d m (out s r p).0 r' q
  unfolding advance_at
  other-Facts s r r' idle q k =
      Facts-transport d m s (write_parties c ps actor s) r' q
        (load-write_parties c d ps actor s ∙ rw other_case refl)
        (clearance-write_parties c d ps actor s) k
  other-Facts s r r' stored q k = k
  other-Facts s r r' loaded q k = k
  other-Facts s r r' searched q k =
      Facts-transport d m s (record_check digest c actor r.own r.hits s) r' q
        (load-record_check digest c d actor r.own r.hits s)
        (clearance-record_other digest c d actor r.own r.hits s other_case) k
  other-Facts s r r' recorded q k = k

  -- Where the other request has searched, its list is stored, and so the search finds it.
  out-Found :
      (s : ConflictStore) (r r' : Request) (p : Phase)
      → opposed f (map (party_row c) ps) m ≡ true
      → r.phase ≡ p
      → Facts c (map (party_row c) ps) s r p
      → Facts d m s r' r'.phase
      → (has_searched r.phase ≡ true → has_searched r'.phase ≡ true → Found r ⊎ Found r')
      → has_searched (out s r p).1.phase ≡ true
      → has_searched r'.phase ≡ true
      → Found (out s r p).1 ⊎ Found r'
  unfolding advance_at
  out-Found s r r' idle bad at k k' before h h' = absurd (false≢true h)
  out-Found s r r' stored bad at k k' before h h' = absurd (false≢true h)
  out-Found s r r' loaded bad at k k' before h h' =
      let theirs = Facts-load d m s r' r'.phase h' k' in
      inl (search_finds f digest c d actor s r.own ne (k.1 ∙ sym k.0) (rw (k.0, theirs) bad))
  out-Found s r r' searched bad at k k' before h h' = before (ap has_searched at) h'
  out-Found s r r' recorded bad at k k' before h h' = before (ap has_searched at) h'

abbrev accesses : Phase → ℕ
accesses idle = 0
accesses stored = 1
accesses loaded = 2
accesses searched = 3
accesses recorded = 4

all_accesses : (p : Phase) → 4 ≤ accesses p + 0 → p ≡ recorded
all_accesses idle h = absurd (omega (arith, h))
all_accesses stored h = absurd (omega (arith, h))
all_accesses loaded h = absurd (omega (arith, h))
all_accesses searched h = absurd (omega (arith, h))
all_accesses recorded h = refl

one_access :
    (f : Folding) (digest : List Party → String) (actor : String) (c : ℕ) (ps : List PartyIn)
    (s : ConflictStore) (r : Request) (p : Phase) (n : ℕ)
    → r.phase ≡ p
    → 4 ≤ accesses p + suc n
    → 4 ≤ accesses (advance_at f digest actor c ps s r p).1.phase + n
unfolding advance_at
one_access f digest actor c ps s r idle n at h = omega (arith, h)
one_access f digest actor c ps s r stored n at h = omega (arith, h)
one_access f digest actor c ps s r loaded n at h = omega (arith, h)
one_access f digest actor c ps s r searched n at h = omega (arith, h)
one_access f digest actor c ps s r recorded n at h = rw at (omega arith)

module _ (f : Folding) (digest : List Party → String) (actor : String) (a b : ℕ)
    (ps qs : List PartyIn) (ne : a ≢ b)
    (bad : opposed f (map (party_row a) ps) (map (party_row b) qs) ≡ true) where
  record IsKept (z : Pair) : Type 0 where
    left : Facts a (map (party_row a) ps) z.store z.first z.first.phase
    right : Facts b (map (party_row b) qs) z.store z.second z.second.phase
    both :
        has_searched z.first.phase ≡ true
        → has_searched z.second.phase ≡ true
        → Found z.first ⊎ Found z.second

  move-IsKept : (x : Side) (z : Pair) → IsKept z → IsKept (move f digest actor a b ps qs x z)
  unfolding move
  move-IsKept one z k = record {
    left =
        own-Facts f digest actor a b ps (map (party_row b) qs) ne z.store z.first z.first.phase refl
          k.left;
    right =
        other-Facts f digest actor a b ps (map (party_row b) qs) ne z.store z.first z.second
          z.first.phase z.second.phase k.right;
    both =
        out-Found f digest actor a b ps (map (party_row b) qs) ne z.store z.first z.second
          z.first.phase bad refl k.left k.right k.both;
  }
  move-IsKept two z k = record {
    left =
        other-Facts f digest actor b a qs (map (party_row a) ps) (λ e. ne (sym e)) z.store z.second
          z.first z.second.phase z.first.phase k.left;
    right =
        own-Facts f digest actor b a qs (map (party_row a) ps) (λ e. ne (sym e)) z.store z.second
          z.second.phase refl k.right;
    both = λ h h'. swapped (
        out-Found f digest actor b a qs (map (party_row a) ps) (λ e. ne (sym e)) z.store z.second
          z.first z.second.phase
          (opposed_comm f (map (party_row b) qs) (map (party_row a) ps) ∙ bad) refl k.right k.left
          (λ i j. swapped (k.both j i)) h' h);
  }

  run_requests-IsKept :
      (xs : List Side) (z : Pair) → IsKept z → IsKept (run_requests f digest actor a b ps qs xs z)
  unfolding run_requests
  run_requests-IsKept [] z k = k
  run_requests-IsKept (x ∷ xs) z k =
      run_requests-IsKept xs (move f digest actor a b ps qs x z) (move-IsKept x z k)

  recorded_status :
      (c : ℕ) (l : List Party) (s : ConflictStore) (r : Request)
      → r.phase ≡ recorded
      → Facts c l s r r.phase
      → Found r
      → clearance s c ≡ some pending
  recorded_status c l s r at k h = (subst (Facts c l s r) at k).1 ∙ ap (λ v. some v) h

  ends_recorded :
      (xs : List Side) (z : Pair)
      → 4 ≤ accesses z.first.phase + count is_one xs
      → 4 ≤ accesses z.second.phase + count (λ x. not (is_one x)) xs
      → ((run_requests f digest actor a b ps qs xs z).first.phase ≡ recorded)
        × ((run_requests f digest actor a b ps qs xs z).second.phase ≡ recorded)
  unfolding run_requests move
  ends_recorded [] z h h' = (all_accesses z.first.phase h, all_accesses z.second.phase h')
  ends_recorded (one ∷ xs) z h h' =
      ends_recorded xs (move f digest actor a b ps qs one z)
        (one_access f digest actor a ps z.store z.first z.first.phase (count is_one xs) refl h) h'
  ends_recorded (two ∷ xs) z h h' = ends_recorded xs (move f digest actor a b ps qs two z) h (
      one_access f digest actor b qs z.store z.second z.second.phase
        (count (λ x. not (is_one x)) xs) refl h')

  -- Two cases with conflicting party lists whose parties are stored and checked at the same time: in
  -- whatever order the accesses of the two requests come (each stores its parties, reads them, reads
  -- those of the other cases, and records its check), once each request has had its four, at least one
  -- of the two cases has a pending check.
  pub first_or_second :
      (xs : List Side) (s : ConflictStore)
      → 4 ≤ count is_one xs
      → 4 ≤ count (λ x. not (is_one x)) xs
      → (clearance (run_requests f digest actor a b ps qs xs (new_pair s)).store a ≡ some pending)
        ⊎ (clearance (run_requests f digest actor a b ps qs xs (new_pair s)).store b ≡ some pending)
  first_or_second xs s enough enough' =
      let start : IsKept (new_pair s) = record {
        left = tt;
        right = tt;
        both = λ i j. absurd (false≢true i);
      } in
      let z = run_requests f digest actor a b ps qs xs (new_pair s) in
      let k : IsKept z = run_requests-IsKept xs (new_pair s) start in
      let (h, h') =
        ends_recorded xs (new_pair s) (omega (arith, enough)) (omega (arith, enough')) in
      elim (k.both (ap has_searched h) (ap has_searched h')) [
        | inl e ↦ inl (recorded_status a (map (party_row a) ps) z.store z.first h k.left e)
        | inr e ↦ inr (recorded_status b (map (party_row b) qs) z.store z.second h' k.right e)
      ]
