-- ===== src/Middleware/Dispatch.antt =====
-- app/security.py, `AccessMiddleware.dispatch` up to `call_next`. What the request, the environment
-- and the `ipaddress` module say is an argument.
use law_review_local.Sessions.{principal_of_token, session_principal, Identities}
use law_review_local.Access.{
  has, Principal, require_case_access, local_principal, manage, require_permission,
}
use law_review_local.Conflicts.Clearance.{
  Method, ConflictStore, get, head, options, enforce_clearance,
}
use law_review_local.Common.{
  ℕ, Option, List, String, Bool, Http, raise, false, some, true, ◌>>◌, ◌∷◌, require, ◌||◌, not, ok,
  if◌then◌else◌, str_eq, ◌&&◌, none, [], any,
}
use law_review_local.CaseWalls.{hidden_case_ids, WallStore}
use law_review_local.Middleware.{
  owned_case, required_case_permission, path_eq, under_api, one_of, Tables,
}
use law_review_local.Members.{MemberStore}
use law_review_local.Audit.{AuditRow}

pub data Mode : Type 0 where
  local token : Mode

-- The deployment: `auth_mode`, which may not load; the hosts that are allowed and the peers that are
-- trusted in local mode; the environment's tokens, which are given, not given or do not load; and
-- whether an address is a loopback address, where it is one at all.
pub record Settings : Type 0 where
  pub mode : Option Mode
  pub hosts : List String
  pub trusted_peers : List String
  pub environment_tokens : Option Bool
  pub loopback : String → Option Bool
  pub digits : String → Bool
  pub number : String → ℕ
  pub identities : Identities

-- `origin` is the header without its final slashes, empty where it is missing.
pub record Request : Type 0 where
  pub method : Method
  pub path : List String
  pub host : String
  pub origin : String
  pub expected_origin : String
  pub cross_site : Bool
  pub forwarded : Bool
  pub peer : String
  pub bearer : Option String
  pub cookie : String

pub record SecurityEvent : Type 0 where
  pub event_type : String
  pub outcome : String
  pub actor : Option String
  pub case_id : Option ℕ
  pub detail : String

pub record World : Type 0 where
  pub members : MemberStore
  pub walls : WallStore
  pub conflicts : ConflictStore
  pub tables : Tables
  pub audit : List AuditRow
  pub events : List SecurityEvent

-- What is known when the request goes on, or when it is refused.
pub data Admission : Type 0 where
  admitted : Option Principal → Option ℕ → Admission
  refused : Option Principal → Option ℕ → ℕ → String → Admission
  misconfigured : Admission

abbrev is_get : Method → Bool
is_get get = true
is_get _ = false

abbrev is_token : Mode → Bool
is_token token = true
is_token local = false

-- The methods that are no state change.
abbrev pub safe : Method → Bool
safe get = true
safe head = true
safe options = true
safe _ = false

abbrev pub callback_get : Mode → Request → Bool
callback_get m r =
    is_token m && (is_get r.method && path_eq r.path ("api" ∷ "auth" ∷ "oidc" ∷ "callback" ∷ []))

abbrev pub foreign : Request → Bool
foreign r = (not (str_eq r.origin "") && not (str_eq r.origin r.expected_origin)) || r.cross_site

unfoldable pub require_origin : Mode → Request → Http (Unit {0})
require_origin m r =
    require (callback_get m r || ((safe r.method && not (under_api r.path)) || not (foreign r))) 403
      "不允许跨站写入"

abbrev pub loopback_peer : String → Option Bool → Bool
loopback_peer peer none = str_eq peer "testclient"
loopback_peer peer (some b) = b

abbrev pub local_peer : Settings → String → Bool
local_peer d peer = loopback_peer peer (d.loopback peer) || any (λ q. str_eq q peer) d.trusted_peers

unfoldable pub local_identity : Settings → Request → Http (Option Principal)
local_identity d r = do
  require (not r.forwarded) 403 "代理访问必须启用 token 模式"
  require (local_peer d r.peer) 403 "本机模式不接受远程访问，请配置 token 模式"
  ok (some local_principal)

-- `identity_providers_configured`; `none` is a configuration that does not load.
unfoldable pub identity_providers : Option Bool → MemberStore → Option Bool
identity_providers none s = none
identity_providers (some true) s = some true
identity_providers (some false) s = some (any (λ m. m.active) s.members)

abbrev public_paths : List (List String)
public_paths =
    ("api" ∷ "auth" ∷ "session" ∷ [])
    ∷ ("api" ∷ "auth" ∷ "me" ∷ [])
    ∷ ("api" ∷ "auth" ∷ "oidc" ∷ "login" ∷ [])
    ∷ ("api" ∷ "auth" ∷ "oidc" ∷ "callback" ∷ [])
    ∷ ("api" ∷ "health" ∷ [])
    ∷ ("api" ∷ "ready" ∷ [])
    ∷ []

abbrev pub public : List String → Bool
public path = not (under_api path) || one_of public_paths path

unfoldable pub request_principal :
    Identities → ℕ → Request → MemberStore → MemberStore × Option Principal
unfolding principal_of_token session_principal
request_principal e t r s = elim r.bearer [
  | some v ↦ (s, principal_of_token e s v)
  | none ↦ session_principal e r.cookie t s
]

abbrev case_free_paths : List (List String)
case_free_paths =
    ("api" ∷ "cases" ∷ "lifecycle" ∷ "archived" ∷ [])
    ∷ ("api" ∷ "cases" ∷ "lifecycle" ∷ "trash" ∷ [])
    ∷ ("api" ∷ "cases" ∷ [])
    ∷ ("api" ∷ "health" ∷ [])
    ∷ ("api" ∷ "benchmarks" ∷ "lawbench" ∷ [])
    ∷ ("api" ∷ "ready" ∷ [])
    ∷ ("api" ∷ "auth" ∷ "me" ∷ [])
    ∷ ("api" ∷ "auth" ∷ "session" ∷ [])
    ∷ ("api" ∷ "auth" ∷ "oidc" ∷ "login" ∷ [])
    ∷ ("api" ∷ "auth" ∷ "oidc" ∷ "callback" ∷ [])
    ∷ ("api" ∷ "export-templates" ∷ [])
    ∷ ("api" ∷ "tasks" ∷ "mine" ∷ [])
    ∷ []

abbrev pub has_case : Option ℕ → Bool
has_case none = false
has_case (some c) = true

-- What only a manager may reach.
unfoldable pub manager_rules : Principal → Request → Option ℕ → Http (Unit {0})
unfolding has
manager_rules p r c = if has p manage then ok tt else do
  require (not (path_eq r.path ("api" ∷ "cases" ∷ []) && not (is_get r.method))) 403 "仅管理员可以创建案件"
  require (has_case c || one_of case_free_paths r.path) 403 "需要管理员权限"

unfoldable pub case_rules : Settings → World → ℕ → Request → Principal → ℕ → Http (Unit {0})
unfolding hidden_case_ids require_case_access required_case_permission require_permission
    enforce_clearance
case_rules d w t r p c = do
  require_case_access p (hidden_case_ids w.walls (some p) t) c
  require_permission p (required_case_permission d.digits r.method r.path) (some c)
  enforce_clearance d.digits w.conflicts c r.method r.path

abbrev pub verdict_of : Principal → Option ℕ → Http (Unit {0}) → Admission
verdict_of p c (ok done) = admitted (some p) c
verdict_of p c (raise n e) = refused (some p) c n e

unfoldable pub admit_owned :
    Settings → World → ℕ → Request → Principal → Http (Option ℕ) → Admission
unfolding manager_rules case_rules
admit_owned d w t r p (raise n e) = refused (some p) none n e
admit_owned d w t r p (ok none) = verdict_of p none (manager_rules p r none)
admit_owned d w t r p (ok (some c)) =
    verdict_of p (some c) (do case_rules d w t r p c; manager_rules p r (some c))

unfoldable pub admit_principal : Settings → World → ℕ → Request → Option Principal → Admission
unfolding owned_case admit_owned
admit_principal d w t r none = admitted none none
admit_principal d w t r (some p) =
    if under_api r.path
    then admit_owned d w t r p (owned_case d.digits d.number w.tables r.path)
    else admitted (some p) none

unfoldable pub identified : Settings → World → ℕ → Request → Http (Option Principal) → Admission
unfolding admit_principal
identified d w t r (raise n e) = refused none none n e
identified d w t r (ok p) = admit_principal d w t r p

-- Token mode, once the session has been looked up.
unfoldable pub token_identity : Request → Option Principal → Http (Option Principal)
token_identity r none = do require (public r.path) 401 "需要有效访问令牌"; ok none
token_identity r (some p) = ok (some p)

abbrev pub with_members : World → MemberStore → World
with_members w s = record w { members = s }

unfoldable pub admit_token : Settings → ℕ → Request → World → Option Bool → World × Admission
unfolding request_principal token_identity identified
admit_token d t r w none = (w, misconfigured)
admit_token d t r w (some false) = (w, misconfigured)
admit_token d t r w (some true) =
    let found = request_principal d.identities t r w.members in
    let w' = with_members w found.0 in (w', identified d w' t r (token_identity r found.1))

unfoldable pub admit_mode : Settings → ℕ → Request → World → Mode → World × Admission
unfolding local_identity identity_providers admit_token identified
admit_mode d t r w local = (w, identified d w t r (local_identity d r))
admit_mode d t r w token = admit_token d t r w (identity_providers d.environment_tokens w.members)

abbrev pub after_tests : World → World × Admission → Http (Unit {0}) → World × Admission
after_tests w rest (raise n e) = (w, refused none none n e)
after_tests w rest (ok done) = rest

unfoldable pub admit_loaded : Settings → ℕ → Request → World → Option Mode → World × Admission
unfolding require_origin admit_mode
admit_loaded d t r w none = (w, misconfigured)
admit_loaded d t r w (some m) =
    after_tests w (admit_mode d t r w m)
      (do require (any (λ h. str_eq h r.host) d.hosts) 400 "不允许的 Host"; require_origin m r)

-- Everything before `call_next`.
unfoldable pub admit : Settings → ℕ → Request → World → World × Admission
unfolding admit_loaded
admit d t r w = admit_loaded d t r w d.mode
