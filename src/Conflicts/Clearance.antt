-- ===== src/Conflicts/Clearance.antt =====
-- app/conflicts.py: the recorded checks of a case, their decision, and the refusal of work.
-- `digest` is `_digest`, a hash of the standard library. A list of checks has the newest first.
pub mod Decisions
pub mod Requests
pub mod Searches
pub mod Interleaving
pub mod Gate
use law_review_local.Audit.{AuditRow}
use law_review_local.Access.{
  manage, allowed_case_ids, actor_name, Principal, require_permission, require_case, may_open,
}
use law_review_local.Common.{
  ℕ, List, String, Option, Bool, keep, ◌∷◌, ◌==◌, if◌then◌else◌, true, some, find?, map, Http, ◌++◌,
  raise, [], ◌&&◌, none, any, str_eq, not, false, ok, ◌+◌, ◌||◌, ◌>>◌, require, ◌>>=◌, count,
}
use law_review_local.Conflicts.{Hit, Folding, PartyRole, Kind, Party, find_conflicts, MatchedOn}

pub data CheckStatus : Type 0 where
  clear pending approved rejected : CheckStatus

pub record Check : Type 0 where
  pub id : ℕ
  pub case_id : ℕ
  pub status : CheckStatus
  pub hits : List Hit
  pub parties_digest : String
  pub requested_by : String
  pub decided_by : Option String
  pub decision_reason : Option String

pub record ConflictStore : Type 0 where
  pub cases : List ℕ
  pub parties : List Party
  pub checks : List Check
  pub next_id : ℕ
  pub audit : List AuditRow

-- `_load_parties` of one case
unfoldable pub load_parties : ConflictStore → ℕ → List Party
load_parties s c = keep (λ p. p.case_id == c) s.parties

-- `ORDER BY id DESC LIMIT 1`
unfoldable pub latest_check : ConflictStore → ℕ → Option Check
latest_check s c = find? (λ k. k.case_id == c) s.checks

abbrev status_of : Option Check → Option CheckStatus
status_of none = none
status_of (some k) = some k.status

-- `none` is the status `unchecked`.
unfoldable pub clearance : ConflictStore → ℕ → Option CheckStatus
unfolding latest_check
clearance s c = status_of (latest_check s c)

abbrev pub verdict : List Hit → CheckStatus
verdict [] = clear
verdict (h ∷ hs) = pending

-- The transaction of `run_check`, given the parties and the hits that it has read before.
abbrev pub record_check :
    (List Party → String) → ℕ → String → List Party → List Hit → ConflictStore → ConflictStore
record_check digest c actor parties hits s = record s {
  checks =
      record {
        id = s.next_id;
        case_id = c;
        status = verdict hits;
        hits = hits;
        parties_digest = digest parties;
        requested_by = actor;
        decided_by = none;
        decision_reason = none;
      }
      ∷ s.checks;
  next_id = s.next_id + 1;
  audit = s.audit ++ record { case_id = some c; action = "利益冲突检查"; actor = actor; note = "" } ∷ [];
}

-- `run_check` where no other request comes between its three accesses of the database.
unfoldable pub run_check :
    Folding → (List Party → String) → ℕ → String → ConflictStore → ConflictStore
unfolding load_parties
run_check f digest c actor s =
    let parties = load_parties s c in
    record_check digest c actor parties (find_conflicts f c parties s.parties) s

-- A validated `PartyIn`.
pub record PartyIn : Type 0 where
  pub role : PartyRole
  pub name : String
  pub former_names : List String
  pub credit_code : Option String

abbrev pub party_row : ℕ → PartyIn → Party
party_row c p = record {
  case_id = c;
  role = p.role;
  name = p.name;
  former_names = p.former_names;
  credit_code = p.credit_code;
}

unfoldable pub replace_parties : ℕ → List PartyIn → ConflictStore → ConflictStore
replace_parties c ps s = record s {
  parties = keep (λ p. not (p.case_id == c)) s.parties ++ map (party_row c) ps;
}

-- The first transaction of `put_parties`.
unfoldable pub write_parties : ℕ → List PartyIn → String → ConflictStore → ConflictStore
unfolding replace_parties
write_parties c ps actor s =
    let t = replace_parties c ps s in
    record t {
      audit =
          t.audit ++ record { case_id = some c; action = "更新当事人"; actor = actor; note = "" } ∷ [];
    }

unfoldable pub put_parties :
    Folding
    → (List Party → String)
    → Principal
    → List ℕ
    → ℕ
    → List PartyIn
    → ConflictStore
    → Http ConflictStore
unfolding write_parties run_check actor_name require_case
put_parties f digest p hidden c ps s = do
  require_case p s.cases hidden c
  let actor = actor_name p "本机律师"
  ok (run_check f digest c actor (write_parties c ps actor s))

unfoldable pub rerun_check :
    Folding → (List Party → String) → Principal → List ℕ → ℕ → ConflictStore → Http ConflictStore
unfolding run_check actor_name require_case
rerun_check f digest p hidden c s = do
  require_case p s.cases hidden c
  ok (run_check f digest c (actor_name p "本机律师") s)

abbrev pub is_pending : CheckStatus → Bool
is_pending pending = true
is_pending clear = false
is_pending approved = false
is_pending rejected = false

-- `UPDATE conflict_checks … WHERE id = ? AND status = 'pending'`, and its row count.
abbrev pub undecided : ℕ → Check → Bool
undecided i k = (k.id == i) && is_pending k.status

unfoldable pub settle : ℕ → CheckStatus → String → String → List Check → List Check
settle i status actor reason [] = []
settle i status actor reason (k ∷ ks) =
    let rest = settle i status actor reason ks in
    if undecided i k
    then record k { status = status; decided_by = some actor; decision_reason = some reason } ∷ rest
    else k ∷ rest

pub data Decision : Type 0 where
  approve reject : Decision

abbrev pub decided_status : Decision → CheckStatus
decided_status approve = approved
decided_status reject = rejected

abbrev decision_label : Decision → String
decision_label approve = "利益冲突放行"
decision_label reject = "利益冲突驳回"

-- The tests that `decide` makes on the check that it has read.
unfoldable pub admit_decision : Principal → String → Option Check → Http Check
admit_decision p actor none = raise 409 "当前没有待审批的利益冲突检查"
admit_decision p actor (some k) = do
  require (is_pending k.status) 409 "当前没有待审批的利益冲突检查"
  require (p.local || not (str_eq k.requested_by actor)) 403 "利益冲突放行需要由检查发起人以外的人决定"
  ok k

-- The transaction of `decide`, on the state that it finds.
unfoldable pub write_decision :
    Decision → String → String → ℕ → Check → ConflictStore → Http ConflictStore
unfolding settle
write_decision d actor reason c k s = do
  require (count (undecided k.id) s.checks == 1) 409 "检查状态已变化，请刷新后重试"
  ok (record s {
    checks = settle k.id (decided_status d) actor reason s.checks;
    audit =
        s.audit
        ++ record { case_id = some c; action = decision_label d; actor = actor; note = reason }
          ∷ [];
  })

-- `read` is the state in which the latest check was read, `s` the one that the transaction finds.
unfoldable pub decide_between :
    Principal → List ℕ → ℕ → Decision → String → ConflictStore → ConflictStore → Http ConflictStore
unfolding admit_decision write_decision actor_name require_permission require_case latest_check
decide_between p hidden c d reason read s = do
  require_permission p manage none
  require_case p read.cases hidden c
  k ← admit_decision p (actor_name p "本机律师") (latest_check read c)
  write_decision d (actor_name p "本机律师") reason c k s

unfoldable pub decide :
    Principal → List ℕ → ℕ → Decision → String → ConflictStore → Http ConflictStore
unfolding decide_between
decide p hidden c d reason s = decide_between p hidden c d reason s s

pub data Method : Type 0 where
  get head options post put patch delete : Method

abbrev pub writes : Method → Bool
writes post = true
writes put = true
writes patch = true
writes delete = true
writes get = false
writes head = false
writes options = false

-- `_CLEARANCE_EXEMPT`, over the segments of a path; `digits` is the class `\d+` of `re`.
abbrev exempt_rest : List String → Bool
exempt_rest [] = true
exempt_rest (a ∷ []) =
    str_eq a "parties"
    || (str_eq a "conflict-check"
        || (str_eq a "archive" || (str_eq a "restore" || str_eq a "trash")))
exempt_rest (a ∷ b ∷ []) = str_eq a "conflict-check" && str_eq b "decision"
exempt_rest (a ∷ b ∷ c ∷ rest) = false

unfoldable pub clearance_exempt : (String → Bool) → List String → Bool
clearance_exempt digits (a ∷ b ∷ n ∷ rest) =
    str_eq a "api" && (str_eq b "cases" && (digits n && exempt_rest rest))
clearance_exempt digits _ = false

abbrev pub blocked : Option CheckStatus → Http (Unit {0})
blocked none = ok tt
blocked (some clear) = ok tt
blocked (some approved) = ok tt
blocked (some pending) = raise 409 "利益冲突检查命中，合伙人放行前不能开展工作"
blocked (some rejected) = raise 409 "利益冲突检查未获放行，不能开展工作"

unfoldable pub enforce_clearance :
    (String → Bool) → ConflictStore → ℕ → Method → List String → Http (Unit {0})
unfolding clearance_exempt clearance
enforce_clearance digits s c m path =
    if not (writes m) || clearance_exempt digits path then ok tt else blocked (clearance s c)

-- What `visible_hits` shows of a hit.
pub data ShownHit : Type 0 where
  whole : Hit → ShownHit
  restricted : Kind → MatchedOn → PartyRole → String → ShownHit

unfoldable pub visible_hit : Principal → List ℕ → Hit → ShownHit
unfolding allowed_case_ids
visible_hit p hidden h =
    if any (λ d. d == h.case_id) hidden || not (may_open (allowed_case_ids p) h.case_id)
    then restricted h.kind h.matched_on h.our_role h.our_name
    else whole h

unfoldable pub visible_hits : Principal → List ℕ → List Hit → List ShownHit
unfolding visible_hit
visible_hits p hidden hits = map (visible_hit p hidden) hits
