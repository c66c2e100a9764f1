-- ===== src/Conflicts/Examples.antt =====
-- app/conflicts.py: examples. Case 1 acts for the party that case 2 acts against.
use law_review_local.People.{root, bo, result_or}
use law_review_local.Common.{
  ◌≡◌, refl, ◌∷◌, [], false, true, not, ◌||◌, ◌==◌, none, some, List, ℕ, String, succeeded, ◌⊎◌,
  arith, Bool, str_eq,
}
use law_review_local.Access.{has_for_case, manage, actor_name, allowed_case_ids}
use law_review_local.Conflicts.{
  codes, Folding, Party, client, opposing, Hit, direct, by_name, find_conflicts, matched_on, kind,
}
use law_review_local.Conflicts.Clearance.{
  ConflictStore, PartyIn, put_parties, clearance, pending, replace_parties, decide, approve,
  decided_status, Check, latest_check, enforce_clearance, clearance_exempt, post, visible_hit,
}
use law_review_local.Conflicts.Clearance.Gate.{put_parties-stops_work, visible_hit_secret}
use law_review_local.Conflicts.Clearance.Decisions.{decide-clearance}
use law_review_local.Conflicts.Clearance.Interleaving.{first_or_second}
use law_review_local.Conflicts.Clearance.Requests.{Side, one, two, run_requests, new_pair}

abbrev folding : Folding
folding = record { fold = codes; is_space = λ c. c == 32 }

abbrev digest : List Party → String
digest ps = "digest"

abbrev digits : String → Bool
digits s = true

abbrev ours : Party
ours = record {
  case_id = 1;
  role = client;
  name = "甲乙科技有限公司";
  former_names = [];
  credit_code = none;
}

abbrev theirs : Party
theirs = record {
  case_id = 2;
  role = opposing;
  name = "甲乙科技";
  former_names = [];
  credit_code = none;
}

abbrev hit_on : ℕ → Hit
hit_on c = record {
  kind = direct;
  matched_on = by_name;
  our_role = client;
  our_name = "甲乙";
  case_id = c;
  their_role = opposing;
  their_name = "甲乙";
}

abbrev some_hits : List Hit
some_hits = hit_on 9 ∷ hit_on 4 ∷ []

abbrev firm : ConflictStore
firm = record {
  cases = 1 ∷ 2 ∷ [];
  parties = ours ∷ theirs ∷ [];
  checks = [];
  next_id = 1;
  audit = [];
}

abbrev path : List String
path = "api" ∷ "cases" ∷ "1" ∷ "chat" ∷ []

abbrev our_list : List PartyIn
our_list = record { role = client; name = "甲乙科技有限公司"; former_names = []; credit_code = none } ∷ []

abbrev their_list : List PartyIn
their_list = record { role = opposing; name = "甲乙科技"; former_names = []; credit_code = none } ∷ []

abbrev checked : ConflictStore
unfolding put_parties find_conflicts
checked = result_or firm (put_parties folding digest bo [] 1 our_list firm)

put_parties-stops_work_example : succeeded (enforce_clearance digits checked 1 post path) ≡ false
unfolding put_parties find_conflicts clearance_exempt replace_parties
put_parties-stops_work_example =
    put_parties-stops_work folding digest bo [] 1 our_list firm checked digits post path refl refl
      refl refl

visible_hit_secret_example : visible_hit bo [] (hit_on 4) ≡ visible_hit bo [] (hit_on 9)
unfolding allowed_case_ids
visible_hit_secret_example =
    visible_hit_secret bo [] (hit_on 4) (hit_on 9) refl refl refl refl refl refl

abbrev approved_store : ConflictStore
unfolding put_parties find_conflicts decide
approved_store = result_or checked (decide root [] 1 approve "no adverse interest" checked)

decide-clearance_example :
    (has_for_case root manage none ≡ true)
    × (clearance checked 1 ≡ some pending)
    × ((k : Check) × (latest_check checked 1 ≡ some k)
        × ((root.local || not (str_eq k.requested_by (actor_name root "本机律师"))) ≡ true))
    × (clearance approved_store 1 ≡ some (decided_status approve))
unfolding put_parties find_conflicts decide
decide-clearance_example =
    decide-clearance root [] 1 approve "no adverse interest" checked approved_store refl

-- The two requests take turns.
abbrev turns : List Side
turns = one ∷ two ∷ one ∷ two ∷ one ∷ two ∷ one ∷ two ∷ []

first_or_second_example :
    (clearance
        (run_requests folding digest "bo" 1 2 our_list their_list turns (new_pair firm)).store
        1
      ≡ some pending)
    ⊎ (clearance
          (run_requests folding digest "bo" 1 2 our_list their_list turns (new_pair firm)).store
          2
        ≡ some pending)
unfolding matched_on kind
first_or_second_example =
    first_or_second folding digest "bo" 1 2 our_list their_list (omega arith) refl turns firm
      (omega arith) (omega arith)
