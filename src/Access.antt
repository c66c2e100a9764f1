-- ===== src/Access.antt =====
-- app/security.py: permissions, case roles, principals and the checks that handlers make with them.
-- A frozenset of permissions is the list of its members, read only through membership.
pub mod Narrowing
mod Examples
use law_review_local.Common.{
  ℕ, String, Bool, true, false, ◌&&◌, ◌||◌, not, Option, none, some, List, [], ◌∷◌, Http, ok, raise,
  require, ◌>>=◌, ◌>>◌, if◌then◌else◌, any, ◌==◌, map,
}

pub data Permission : Type 0 where
  view edit approve export manage : Permission

pub Permission-discrete : Discrete Permission
Permission-discrete = hlevel

abbrev pub perm_code : Permission → ℕ
perm_code view = 0
perm_code edit = 1
perm_code approve = 2
perm_code export = 3
perm_code manage = 4

-- `permission in permissions`
abbrev pub member : Permission → List Permission → Bool
member p ps = any (λ q. perm_code q == perm_code p) ps

abbrev pub all_permissions : List Permission
all_permissions = view ∷ edit ∷ approve ∷ export ∷ manage ∷ []

abbrev pub member_permissions : List Permission
member_permissions = view ∷ edit ∷ approve ∷ export ∷ []

pub data Role : Type 0 where
  owner reviewer assistant viewer : Role

unfoldable pub role_permissions : Role → List Permission
role_permissions owner = view ∷ edit ∷ approve ∷ export ∷ []
role_permissions reviewer = view ∷ approve ∷ export ∷ []
role_permissions assistant = view ∷ edit ∷ []
role_permissions viewer = view ∷ []

abbrev pub review_roles : Role → Bool
review_roles owner = true
review_roles reviewer = true
review_roles assistant = false
review_roles viewer = false

abbrev pub manager_roles : Role → Bool
manager_roles owner = true
manager_roles reviewer = false
manager_roles assistant = false
manager_roles viewer = false

pub record Principal : Type 0 where
  pub name : String
  pub admin : Bool
  pub case_ids : List ℕ
  pub local : Bool
  pub permissions : List Permission
  pub member_id : Option ℕ
  pub roles : List (ℕ × Role)

unfoldable pub has : Principal → Permission → Bool
has p permission = p.admin || member permission p.permissions

-- `dict(self.roles).get(case_id)`: a later pair for a case replaces an earlier one.
unfoldable pub lookup_role : ℕ → List (ℕ × Role) → Option Role
lookup_role c [] = none
lookup_role c ((d, r) ∷ rest) = elim (lookup_role c rest) [
  | some s ↦ some s
  | none ↦ if d == c then some r else none
]

unfoldable pub role_for : Principal → Option ℕ → Option Role
unfolding lookup_role
role_for p none = none
role_for p (some c) = lookup_role c p.roles

abbrev pub has_in_role : Principal → Permission → Option Role → Bool
unfolding role_permissions has
has_in_role p permission none = has p permission
has_in_role p permission (some r) = has p permission && member permission (role_permissions r)

unfoldable pub has_for_case : Principal → Permission → Option ℕ → Bool
unfolding role_permissions has
has_for_case p permission c = if p.admin then true else has_in_role p permission (role_for p c)

-- The principal of the request, and the authentication mode of the deployment.
pub record Context : Type 0 where
  pub principal : Option Principal
  pub token_mode : Bool

abbrev pub local_principal : Principal
local_principal = record {
  name = "本机律师";
  admin = true;
  case_ids = [];
  local = true;
  permissions = all_permissions;
  member_id = none;
  roles = [];
}

abbrev anonymous : Bool → Http Principal
anonymous true = raise 401 "需要身份认证"
anonymous false = ok local_principal

unfoldable pub current_principal : Context → Http Principal
current_principal x = elim x.principal [ some p ↦ ok p | none ↦ anonymous x.token_mode ]

-- `actor_name`, given the resolved principal.
unfoldable pub actor_name : Principal → String → String
actor_name p fallback = if p.local then fallback else p.name

-- `None` (every case) for an administrator.
unfoldable pub allowed_case_ids : Principal → Option (List ℕ)
allowed_case_ids p = if p.admin then none else some p.case_ids

abbrev pub may_open : Option (List ℕ) → ℕ → Bool
may_open none c = true
may_open (some ids) c = any (λ i. i == c) ids

-- `hidden` is `hidden_case_ids()` of app/case_walls.py. Both refusals are the one of a missing case.
unfoldable pub require_case_access : Principal → List ℕ → ℕ → Http (Unit {0})
unfolding allowed_case_ids
require_case_access p hidden c = do
  require (may_open (allowed_case_ids p) c) 404 "案件不存在或无访问权限"
  require (not (any (λ d. d == c) hidden)) 404 "案件不存在或无访问权限"

-- app/routes/common.py, `require_case`, over the ids of the cases that exist
unfoldable pub require_case : Principal → List ℕ → List ℕ → ℕ → Http (Unit {0})
unfolding require_case_access
require_case p cases hidden c = do
  require (any (λ d. d == c) cases) 404 "案件不存在"
  require_case_access p hidden c

-- f"需要{PERMISSION_LABELS[permission]}权限"
abbrev pub denied : Permission → String
denied view = "需要查看权限"
denied edit = "需要编辑权限"
denied approve = "需要审批确认权限"
denied export = "需要导出权限"
denied manage = "需要管理权限"

unfoldable pub require_permission : Principal → Permission → Option ℕ → Http (Unit {0})
unfolding has_for_case
require_permission p permission c = require (has_for_case p permission c) 403 (denied permission)

abbrev role_in : (Role → Bool) → Option Role → Bool
role_in roles none = false
role_in roles (some r) = roles r

unfoldable pub has_case_role : Principal → Permission → Option ℕ → (Role → Bool) → Bool
unfolding has_for_case
has_case_role p permission c roles =
    if p.admin then true else role_in roles (role_for p c) && has_for_case p permission c

unfoldable pub require_case_role :
    Principal → Permission → ℕ → (Role → Bool) → String → Http (Unit {0})
unfolding has_case_role
require_case_role p permission c roles label =
    require (has_case_role p permission (some c) roles) 403 label

-- app/members.py, `require_case_manager`
abbrev is_owner : Option Role → Bool
is_owner none = false
is_owner (some r) = manager_roles r

unfoldable pub require_case_manager : Principal → ℕ → Http (Unit {0})
require_case_manager p c = require (p.admin || is_owner (role_for p (some c))) 403 "需要案件负责人或管理员权限"
