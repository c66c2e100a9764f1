-- ===== src/Members.antt =====
-- app/members.py: the members of the firm, their tokens and sessions, and who is assigned to a case.
-- The table of members, and that of tokens, is a list in the order of the ids. The random token of a
-- call is an argument; its hash, and `strip`, are given by a `Deployment`, with what the environment
-- configures. A list of permissions holds names that are known.
pub mod Directory
mod Examples
use law_review_local.Access.{
  Permission, manage, perm_code, member_permissions, Role, Principal, require_permission,
  require_case_manager,
}
use law_review_local.Common.{
  ℕ, ◌+◌, String, Bool, true, false, ◌&&◌, ◌||◌, not, Option, none, some, str_eq, ◌==◌,
  if◌then◌else◌, List, ◌∷◌, [], ◌++◌, any, all, keep, map, find?, count, is_some, Http, ok, raise,
  require, ◌>>=◌, ◌>>◌,
}

pub record Deployment : Type 0 where
  pub strip : String → String
  pub clip : ℕ → String → String
  pub hash : String → String
  pub token_mode : Bool
  pub configured_names : List String
  pub environment_admin : Bool

pub record Member : Type 0 where
  pub id : ℕ
  pub name : String
  pub is_admin : Bool
  pub permissions : List Permission
  pub active : Bool

pub record Token : Type 0 where
  pub member_id : ℕ
  pub token_hash : String
  pub label : String
  pub created_by : String
  pub revoked : Bool

-- A session is opened with a token, or through OIDC for a subject; only the former has a
-- `credential_fingerprint`.
pub data SessionKind : Type 0 where
  by_token : String → SessionKind
  by_oidc : String → SessionKind

pub record AuthSession : Type 0 where
  pub session_hash : String
  pub kind : SessionKind
  pub expires_at : ℕ
  pub last_seen_at : ℕ

pub record Assignment : Type 0 where
  pub case_id : ℕ
  pub member_id : ℕ
  pub role : Role

pub record MemberStore : Type 0 where
  pub members : List Member
  pub tokens : List Token
  pub sessions : List AuthSession
  pub assignments : List Assignment
  pub cases : List ℕ
  pub next_id : ℕ

-- The order of the assignments is not read: the roles are looked up by their case.
unfoldable pub load_principal : MemberStore → Member → Principal
load_principal s m =
    let mine = keep (λ a. a.member_id == m.id) s.assignments in
    record {
      name = m.name;
      admin = m.is_admin;
      case_ids = map (λ a. a.case_id) mine;
      local = false;
      permissions = m.permissions;
      member_id = some m.id;
      roles = map (λ a. (a.case_id, a.role)) mine;
    }

abbrev pub find_member : MemberStore → ℕ → Option Member
find_member s i = find? (λ m. m.id == i) s.members

abbrev pub is_active : Option Member → Bool
is_active none = false
is_active (some m) = m.active

abbrev pub live_token : MemberStore → String → Token → Bool
live_token s f t = str_eq t.token_hash f && (not t.revoked && is_active (find_member s t.member_id))

abbrev pub principal_of : MemberStore → Option Token → Option Principal
principal_of s none = none
principal_of s (some t) = elim (find_member s t.member_id) [
  | none ↦ none
  | some m ↦ some (load_principal s m)
]

unfoldable pub principal_for_fingerprint : MemberStore → String → Option Principal
principal_for_fingerprint s f =
    if str_eq f "" then none else principal_of s (find? (live_token s f) s.tokens)

abbrev require_member : MemberStore → ℕ → Http Member
require_member s i = elim (find_member s i) [ none ↦ raise 404 "成员不存在" | some m ↦ ok m ]

abbrev pub require_token_mode : Deployment → Http (Unit {0})
require_token_mode e = require e.token_mode 409 "本机模式为单用户，成员管理仅在 token 身份模式启用"

abbrev permitted : List Permission → Bool
permitted [] = false
permitted (q ∷ qs) = all (λ r. not (perm_code r == perm_code manage)) (q ∷ qs)

abbrev validate_permissions : List Permission → Http (List Permission)
validate_permissions ps =
    if permitted ps then ok ps else raise 400 "成员权限必须来自：approve、edit、export、view"

abbrev pub has_fingerprint : String → SessionKind → Bool
has_fingerprint f (by_token g) = str_eq f g
has_fingerprint f (by_oidc g) = false

-- Whether a session was opened with a token of the member.
abbrev pub opened_by : ℕ → List Token → AuthSession → Bool
opened_by i ts x = any (λ t. (t.member_id == i) && has_fingerprint t.token_hash x.kind) ts

unfoldable pub revoke_sessions : ℕ → MemberStore → MemberStore
revoke_sessions i s = record s { sessions = keep (λ x. not (opened_by i s.tokens x)) s.sessions }

abbrev pub issue_token : Deployment → ℕ → String → String → String → MemberStore → MemberStore
issue_token e i token label actor s = record s {
  tokens =
      s.tokens
      ++ record {
        member_id = i;
        token_hash = e.hash token;
        label = e.clip 60 label;
        created_by = actor;
        revoked = false;
      }
        ∷ [];
}

-- `INSERT … ON CONFLICT(case_id, member_id) DO UPDATE SET role`
unfoldable pub upsert_assignment : ℕ → ℕ → Role → List Assignment → List Assignment
upsert_assignment c i r [] = record { case_id = c; member_id = i; role = r } ∷ []
upsert_assignment c i r (a ∷ rest) =
    let later = upsert_assignment c i r rest in
    if (a.case_id == c) && (a.member_id == i) then record a { role = r } ∷ rest else a ∷ later

-- `_assignments`
unfoldable pub assign_all : ℕ → List (ℕ × Role) → MemberStore → Http MemberStore
unfolding upsert_assignment
assign_all i [] s = ok s
assign_all i ((c, r) ∷ rest) s = do
  require (any (λ d. d == c) s.cases) 404 "案件不存在"
  assign_all i rest (record s { assignments = upsert_assignment c i r s.assignments })

pub record MemberCreate : Type 0 where
  pub name : String
  pub admin : Bool
  pub permissions : List Permission
  pub assignments : List (ℕ × Role)

abbrev first_permissions : MemberCreate → Http (List Permission)
first_permissions b = if b.admin then ok member_permissions else validate_permissions b.permissions

unfoldable pub create_member :
    Deployment → Principal → MemberCreate → String → String → MemberStore → Http MemberStore
unfolding require_permission assign_all
create_member e p b token actor s = do
  require_permission p manage none
  require_token_mode e
  let name = e.strip b.name
  require (not (str_eq name "")) 400 "成员名称不能为空"
  require (not (any (str_eq name) e.configured_names)) 409 "该名称已由部署环境中的令牌占用，请换一个名称"
  permissions ← first_permissions b
  require (not (any (λ m. str_eq m.name name) s.members)) 409 "成员名称已存在"
  let new : Member = record {
    id = s.next_id;
    name = name;
    is_admin = b.admin;
    permissions = permissions;
    active = true;
  }
  assign_all s.next_id b.assignments (
      issue_token e s.next_id token "初始令牌" actor
        (record s { members = s.members ++ new ∷ []; next_id = s.next_id + 1 }))

pub record MemberUpdate : Type 0 where
  pub name : Option String
  pub admin : Option Bool
  pub permissions : Option (List Permission)
  pub active : Option Bool

abbrev pub or_else {ℓ} : {A : Type ℓ} → Option A → A → A
or_else none d = d
or_else (some a) d = a

abbrev checked_name : Deployment → MemberStore → ℕ → Option String → Http (Option String)
checked_name e s i none = ok none
checked_name e s i (some n) = do
  require (not (str_eq (e.strip n) "")) 400 "成员名称不能为空"
  require (not (any (λ m. str_eq m.name (e.strip n) && not (m.id == i)) s.members)) 409 "成员名称已存在"
  ok (some (e.strip n))

abbrev checked_permissions : Option (List Permission) → Http (Option (List Permission))
checked_permissions none = ok none
checked_permissions (some ps) = do qs ← validate_permissions ps; ok (some qs)

abbrev pub is_false : Option Bool → Bool
is_false none = false
is_false (some true) = false
is_false (some false) = true

abbrev pub updated : MemberUpdate → Member → Member
updated u m = record m {
  name = or_else u.name m.name;
  is_admin = or_else u.admin m.is_admin;
  permissions = or_else u.permissions m.permissions;
  active = or_else u.active m.active;
}

abbrev no_change : MemberUpdate → Bool
no_change u =
    not (is_some u.name || (is_some u.admin || (is_some u.permissions || is_some u.active)))

abbrev is_self : Option ℕ → ℕ → Bool
is_self none i = false
is_self (some j) i = j == i

-- The update lowers the member: it deactivates it, or takes the administrator's flag.
abbrev pub lowers : MemberUpdate → Bool
lowers u = is_false u.active || is_false u.admin

abbrev pub another_admin : ℕ → Member → Bool
another_admin i m = m.active && (m.is_admin && not (m.id == i))

unfoldable pub update_members : ℕ → MemberUpdate → List Member → List Member
update_members i u [] = []
update_members i u (m ∷ ms) =
    let rest = update_members i u ms in if m.id == i then updated u m ∷ rest else m ∷ rest

abbrev pub after_update : ℕ → Bool → MemberStore → MemberStore
unfolding revoke_sessions
after_update i true s = revoke_sessions i s
after_update i false s = s

unfoldable pub update_member :
    Deployment → Principal → ℕ → MemberUpdate → MemberStore → Http MemberStore
unfolding require_permission update_members revoke_sessions
update_member e p i b s = do
  require_permission p manage none
  require_token_mode e
  row ← require_member s i
  name ← checked_name e s i b.name
  permissions ← checked_permissions b.permissions
  let u = record b { name = name; permissions = permissions }
  require (not (no_change u)) 400 "至少需要更新一个字段"
  require (not (is_self p.member_id i && lowers u)) 409 "不能停用或降级当前登录的管理员"
  require
      (not (lowers u && row.is_admin) || (any (another_admin i) s.members || e.environment_admin))
      409 "至少保留一名启用状态的管理员"
  ok (after_update i (is_false u.active) (record s { members = update_members i u s.members }))

abbrev pub revoke_token : ℕ → Token → Token
revoke_token i t = if t.member_id == i then record t { revoked = true } else t

abbrev pub or_label : String → String
or_label l = if str_eq l "" then "轮换令牌" else l

unfoldable pub rotate_member_token :
    Deployment → Principal → ℕ → String → String → String → MemberStore → Http MemberStore
unfolding require_permission revoke_sessions
rotate_member_token e p i label token actor s = do
  require_permission p manage none
  require_token_mode e
  row ← require_member s i
  require row.active 409 "成员已停用，请先启用再签发令牌"
  ok (
      issue_token e i token (or_label label) actor
        (revoke_sessions i (record s { tokens = map (revoke_token i) s.tokens })))

unfoldable pub deactivate_member : Deployment → Principal → ℕ → MemberStore → Http MemberStore
unfolding update_member
deactivate_member e p i s =
    update_member e p i
      (record { name = none; admin = none; permissions = none; active = some false }) s

unfoldable pub assign_case_member :
    Deployment → Principal → ℕ → ℕ → Role → MemberStore → Http MemberStore
unfolding require_case_manager upsert_assignment
assign_case_member e p c i r s = do
  require_case_manager p c
  require_token_mode e
  require (any (λ d. d == c) s.cases) 404 "案件不存在"
  row ← require_member s i
  require row.active 409 "成员已停用，不能分配案件"
  ok (record s { assignments = upsert_assignment c i r s.assignments })

abbrev pub assigned_to : ℕ → ℕ → Assignment → Bool
assigned_to c i a = (a.case_id == c) && (a.member_id == i)

unfoldable pub remove_case_member : Deployment → Principal → ℕ → ℕ → MemberStore → Http MemberStore
unfolding require_case_manager
remove_case_member e p c i s = do
  require_case_manager p c
  require_token_mode e
  require (any (λ d. d == c) s.cases) 404 "案件不存在"
  require (any (assigned_to c i) s.assignments) 404 "该成员未分配到本案"
  ok (record s { assignments = keep (λ a. not (assigned_to c i a)) s.assignments })
