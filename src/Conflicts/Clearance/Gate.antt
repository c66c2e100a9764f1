-- ===== src/Conflicts/Clearance/Gate.antt =====
-- app/conflicts.py: `run_check`, the gate `enforce_clearance`, and what a viewer sees of a hit.
use law_review_local.Conflicts.Clearance.{
  PartyIn, ConflictStore, replace_parties, write_parties, run_check, put_parties, clearance,
  verdict, enforce_clearance, clearance_exempt, writes, visible_hit, CheckStatus, Method, pending,
  clear, approved, rejected,
}
use law_review_local.Conflicts.Pairing.{found, found-all_hits, conflicts}
use law_review_local.Common.{
  ℕ, Option, String, List, ◌≡◌, Bool, if◌then◌else◌, any, refl, false, ◌∷◌, true, [], keep, some,
  arith, ok, ◌==◌, succeeded, ◌||◌, none, not,
}
use law_review_local.Conflicts.{
  Folding, insert_hit, sort_hits, find_conflicts, Hit, Party, all_hits,
}
use law_review_local.Access.{Principal, actor_name, may_open, allowed_case_ids}

found-insert_hit : (h : Hit) (hs : List Hit) → found (insert_hit h hs) ≡ true
unfolding insert_hit
found-insert_hit h [] = refl
found-insert_hit h (g ∷ gs) = ground arith

found-sort_hits : (hs : List Hit) → found (sort_hits hs) ≡ found hs
unfolding sort_hits
found-sort_hits [] = refl
found-sort_hits (h ∷ hs) = found-insert_hit h (sort_hits hs)

-- The parties of the case conflict with a party of another case.
abbrev pub is_conflicted : Folding → ℕ → List Party → Bool
is_conflicted f c firm =
    any (λ p. any (conflicts f p) (keep (λ q. not (q.case_id == c)) firm))
      (keep (λ p. p.case_id == c) firm)

verdict-found : (hs : List Hit) → verdict hs ≡ (if found hs then pending else clear)
verdict-found [] = refl
verdict-found (h ∷ hs) = refl

-- Right after a check the case is pending exactly when one of its parties conflicts with a party
-- of another case, and clear otherwise; every other case keeps its status.
pub clearance-run_check :
    (f : Folding) (digest : List Party → String) (c d : ℕ) (actor : String) (s : ConflictStore)
    → clearance (run_check f digest c actor s) d ≡ (
        if c == d
        then some (if is_conflicted f c s.parties then pending else clear)
        else clearance s d)
unfolding clearance run_check find_conflicts
clearance-run_check f digest c d actor s =
    let firm = keep (λ (q : Party). not (q.case_id == c)) s.parties in
    let ours = keep (λ (q : Party). q.case_id == c) s.parties in
    ground (
      arith,
      verdict-found (sort_hits (all_hits f ours firm)),
      found-sort_hits (all_hits f ours firm),
      found-all_hits f ours firm,
    )

-- The statuses that stop the work.
abbrev pub stops : Option CheckStatus → Bool
stops none = false
stops (some clear) = false
stops (some approved) = false
stops (some pending) = true
stops (some rejected) = true

-- A request on a case passes exactly when it only reads, or is one of the exempt paths, or the
-- latest check of the case is neither pending nor rejected.
pub enforce_clearance-passes :
    (digits : String → Bool) (s : ConflictStore) (c : ℕ) (m : Method) (path : List String)
    → succeeded (enforce_clearance digits s c m path)
      ≡ (not (writes m) || (clearance_exempt digits path || not (stops (clearance s c))))
unfolding enforce_clearance
enforce_clearance-passes digits s c m path = ground arith

parties-write_parties :
    (c : ℕ) (ps : List PartyIn) (actor : String) (s : ConflictStore)
    → (write_parties c ps actor s).parties ≡ (replace_parties c ps s).parties
unfolding write_parties
parties-write_parties c ps actor s = refl

-- When new parties are stored that conflict with a party of another case, every writing request
-- on the case is refused in the state reached, except on the exempt paths.
pub put_parties-stops_work :
    (f : Folding) (digest : List Party → String) (p : Principal) (hidden : List ℕ) (c : ℕ)
    (ps : List PartyIn) (s s' : ConflictStore) (digits : String → Bool) (m : Method)
    (path : List String)
    → put_parties f digest p hidden c ps s ≡ ok s'
    → is_conflicted f c (replace_parties c ps s).parties ≡ true
    → writes m ≡ true
    → clearance_exempt digits path ≡ false
    → succeeded (enforce_clearance digits s' c m path) ≡ false
unfolding put_parties
put_parties-stops_work f digest p hidden c ps s s' digits m path h bad w e =
    let actor : String = actor_name p "本机律师" in
    let t : ConflictStore = write_parties c ps actor s in
    let same : s' ≡ run_check f digest c actor t = ground arith in
    rw same (
      ground (
        arith,
        enforce_clearance-passes digits (run_check f digest c actor t) c m path,
        clearance-run_check f digest c c actor t,
        parties-write_parties c ps actor s,
      ))

-- What the viewer may not see does not show: two hits that agree on our own party, the kind and
-- the ground of the match, on cases that are both hidden from the viewer or not theirs, are shown
-- as the same.
pub visible_hit_secret :
    (p : Principal) (hidden : List ℕ) (a b : Hit)
    → a.kind ≡ b.kind
    → a.matched_on ≡ b.matched_on
    → a.our_role ≡ b.our_role
    → a.our_name ≡ b.our_name
    → (any (λ d. d == a.case_id) hidden || not (may_open (allowed_case_ids p) a.case_id)) ≡ true
    → (any (λ d. d == b.case_id) hidden || not (may_open (allowed_case_ids p) b.case_id)) ≡ true
    → visible_hit p hidden a ≡ visible_hit p hidden b
unfolding visible_hit
visible_hit_secret p hidden a b k m r n ha hb = ground arith
