-- ===== src/CaseWalls.antt =====
-- app/case_walls.py: information walls, their insiders and the break-glass grants.
-- `strip` and the clock are arguments; the texts are compared and measured only.
pub mod Visibility
pub mod Lifting
mod Examples
use Prim.Native.String.{count as text_length}
use law_review_local.Common.{
  ℕ, ◌+◌, ◌*◌, String, Bool, true, false, not, ◌&&◌, ◌||◌, Option, none, some, List, [], ◌∷◌, ◌++◌,
  map, keep, any, str_eq, ◌==◌, ltb, if◌then◌else◌, Http, ok, raise, require, ◌>>=◌, ◌>>◌,
}
use law_review_local.Access.{Principal, manage, require_permission}
use law_review_local.Audit.{AuditRow}

abbrev pub break_glass_seconds : ℕ
break_glass_seconds = 30 * 60

abbrev pub not_found : String
not_found = "案件不存在或无访问权限"

-- A row of `case_walls`, of `case_wall_insiders` and of `case_wall_grants`.
pub record Wall : Type 0 where
  pub case_id : ℕ
  pub reason : String
  pub created_by : String

pub record Insider : Type 0 where
  pub case_id : ℕ
  pub principal_name : String
  pub added_by : String

pub record Grant : Type 0 where
  pub case_id : ℕ
  pub principal_name : String
  pub reason : String
  pub expires_at : ℕ

pub record WallStore : Type 0 where
  pub cases : List ℕ
  pub walls : List Wall
  pub insiders : List Insider
  pub grants : List Grant
  pub audit : List AuditRow

unfoldable pub is_insider : WallStore → ℕ → String → Bool
is_insider s c name = any (λ i. (i.case_id == c) && str_eq i.principal_name name) s.insiders

abbrev pub live_grant : ℕ → String → ℕ → Grant → Bool
live_grant c name t g = (g.case_id == c) && (str_eq g.principal_name name && ltb t g.expires_at)

unfoldable pub has_grant : WallStore → ℕ → String → ℕ → Bool
has_grant s c name t = any (live_grant c name t) s.grants

-- The two `NOT EXISTS` of the query.
unfoldable pub shut_out : WallStore → String → ℕ → ℕ → Bool
shut_out s name t c = not (is_insider s c name) && not (has_grant s c name t)

hidden_of : WallStore → String → ℕ → List Wall → List ℕ
hidden_of s name t ws = map (λ w. w.case_id) (keep (λ w. shut_out s name t w.case_id) ws)

-- Outside a request nothing is hidden. `t` is `int(time.time())`.
unfoldable pub hidden_case_ids : WallStore → Option Principal → ℕ → List ℕ
unfolding hidden_of
hidden_case_ids s none t = []
hidden_case_ids s (some p) t = hidden_of s p.name t s.walls

abbrev pub has_wall : ℕ → List Wall → Bool
has_wall c ws = any (λ w. w.case_id == c) ws

-- `INSERT … ON CONFLICT(case_id) DO UPDATE SET reason`
unfoldable pub upsert_wall : Wall → List Wall → List Wall
upsert_wall v [] = v ∷ []
upsert_wall v (w ∷ ws) =
    if w.case_id == v.case_id then record w { reason = v.reason } ∷ ws else w ∷ upsert_wall v ws

-- The set comprehension over the stripped names. The names go into a table that is read as a set,
-- so `sorted` is left out.
unfoldable pub clean_names : (String → String) → List String → List String
clean_names strip names = keep (λ n. not (str_eq n "")) (map strip names)

abbrev pub insider_rows : ℕ → String → List String → List Insider
insider_rows c actor [] = []
insider_rows c actor (n ∷ ns) =
    let rest = insider_rows c actor ns in
    if any (λ k. str_eq k n) ns
    then rest
    else record { case_id = c; principal_name = n; added_by = actor } ∷ rest

abbrev is_empty {ℓ} : {A : Type ℓ} → List A → Bool
is_empty [] = true
is_empty (x ∷ xs) = false

abbrev pub names_refused : List String → Bool
names_refused ns = is_empty ns || any (λ n. ltb 100 (text_length n)) ns

written_wall : ℕ → String → String → List String → WallStore → WallStore
unfolding upsert_wall
written_wall c actor reason names s = record s {
  walls = upsert_wall (record { case_id = c; reason = reason; created_by = actor }) s.walls;
  insiders = keep (λ i. not (i.case_id == c)) s.insiders ++ insider_rows c actor names;
  audit =
      s.audit
      ++ record {
        case_id = some c;
        action = if has_wall c s.walls then "调整隔离墙" else "设立隔离墙";
        actor = actor;
        note = reason;
      }
        ∷ [];
}

unfoldable pub set_wall :
    (String → String) → Principal → Bool → ℕ → String → List String → WallStore → Http WallStore
unfolding written_wall clean_names
set_wall strip p local_mode c reason insiders s = do
  require_permission p manage none
  require (not local_mode) 409 "本机单人模式只有一个身份，隔离墙无法区分墙内外；请在 token 或 OIDC 模式下设置"
  require (not (names_refused (clean_names strip insiders))) 422 "墙内人员名单无效"
  require (any (λ d. d == c) s.cases) 404 not_found
  ok (written_wall c p.name (strip reason) (clean_names strip insiders) s)

-- `DELETE FROM case_walls`: the foreign keys of the two child tables cascade.
dropped_wall : ℕ → String → String → WallStore → WallStore
dropped_wall c actor reason s = record s {
  walls = keep (λ w. not (w.case_id == c)) s.walls;
  insiders = keep (λ i. not (i.case_id == c)) s.insiders;
  grants = keep (λ g. not (g.case_id == c)) s.grants;
  audit =
      s.audit ++ record { case_id = some c; action = "撤除隔离墙"; actor = actor; note = reason } ∷ [];
}

unfoldable pub remove_wall : (String → String) → Principal → ℕ → String → WallStore → Http WallStore
unfolding dropped_wall
remove_wall strip p c reason s = do
  require_permission p manage none
  require (has_wall c s.walls) 404 "该案件没有隔离墙"
  ok (dropped_wall c p.name (strip reason) s)

granted : ℕ → String → String → ℕ → WallStore → WallStore
granted c actor reason t s = record s {
  grants =
      record {
        case_id = c;
        principal_name = actor;
        reason = reason;
        expires_at = t + break_glass_seconds;
      }
      ∷ s.grants;
  audit =
      s.audit ++ record { case_id = some c; action = "隔离墙破窗访问"; actor = actor; note = reason } ∷ [];
}

unfoldable pub break_glass :
    (String → String) → Principal → ℕ → String → ℕ → WallStore → Http WallStore
unfolding granted
break_glass strip p c reason t s = do
  require_permission p manage none
  require (has_wall c s.walls) 404 "该案件没有隔离墙"
  require (not (is_insider s c p.name)) 409 "已在墙内，不需要破窗"
  ok (granted c p.name (strip reason) t s)
