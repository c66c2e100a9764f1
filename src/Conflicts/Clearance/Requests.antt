-- ===== src/Conflicts/Clearance/Requests.antt =====
-- app/conflicts.py, `put_parties` with its `run_check`: a request by its accesses of the database,
-- which those of other requests may come between. It stores the parties in one transaction, reads them
-- back, reads those of the other cases and searches them, and records the check in a transaction.
use law_review_local.Common.{List, [], String, ℕ, ◌∷◌, ◌≡◌, refl, Bool, true, false}
use law_review_local.Conflicts.Clearance.{
  run_check, write_parties, ConflictStore, load_parties, PartyIn, record_check,
}
use law_review_local.Conflicts.{Folding, Party, Hit, find_conflicts}

-- How far a request is.
pub data Phase : Type 0 where
  idle stored loaded searched recorded : Phase

-- A request with what it has read.
pub record Request : Type 0 where
  pub phase : Phase
  pub own : List Party
  pub hits : List Hit

abbrev pub new_request : Request
new_request = record { phase = idle; own = []; hits = [] }

-- The next access of a request that stores `ps` for the case `c`.
unfoldable pub advance_at :
    Folding
    → (List Party → String)
    → String
    → ℕ
    → List PartyIn
    → ConflictStore
    → Request
    → Phase
    → ConflictStore × Request
unfolding write_parties load_parties
advance_at f digest actor c ps s r idle = (write_parties c ps actor s, record r { phase = stored })
advance_at f digest actor c ps s r stored = (s, record r { own = load_parties s c; phase = loaded })
advance_at f digest actor c ps s r loaded =
    (s, record r { hits = find_conflicts f c r.own s.parties; phase = searched })
advance_at f digest actor c ps s r searched =
    (record_check digest c actor r.own r.hits s, record r { phase = recorded })
advance_at f digest actor c ps s r recorded = (s, r)

-- The database with two requests, and the order in which they go on.
pub record Pair : Type 0 where
  pub store : ConflictStore
  pub first : Request
  pub second : Request

abbrev pub new_pair : ConflictStore → Pair
new_pair s = record { store = s; first = new_request; second = new_request }

pub data Side : Type 0 where
  one two : Side

abbrev pub is_one : Side → Bool
is_one one = true
is_one two = false

abbrev pub put_first : Pair → ConflictStore × Request → Pair
put_first z out = record z { store = out.0; first = out.1 }

abbrev pub put_second : Pair → ConflictStore × Request → Pair
put_second z out = record z { store = out.0; second = out.1 }

module _ (f : Folding) (digest : List Party → String) (actor : String) (a b : ℕ)
    (ps qs : List PartyIn) where
  unfoldable pub move : Side → Pair → Pair
  unfolding advance_at
  move one z = put_first z (advance_at f digest actor a ps z.store z.first z.first.phase)
  move two z = put_second z (advance_at f digest actor b qs z.store z.second z.second.phase)

  unfoldable pub run_requests : List Side → Pair → Pair
  unfolding move
  run_requests [] z = z
  run_requests (x ∷ xs) z = run_requests xs (move x z)

-- A request that no other comes between stores the parties and runs the check.
run_requests-alone :
    (f : Folding) (digest : List Party → String) (actor : String) (a b : ℕ) (ps qs : List PartyIn)
    (s : ConflictStore) (r : Request)
    → (run_requests f digest actor a b ps qs
        (one ∷ one ∷ one ∷ one ∷ [])
        (record { store = s; first = new_request; second = r })).store
      ≡ run_check f digest a actor (write_parties a ps actor s)
unfolding run_requests run_check load_parties
run_requests-alone f digest actor a b ps qs s r = refl
