-- ===== src/Sessions.antt =====
-- app/security.py: sessions, logging in and out, and the flows of an OIDC login. Times are seconds.
-- The random value of a new session, and that of a flow, is an argument. A database error has no
-- counterpart here.
pub mod Identify
pub mod Opening
pub mod Flows
mod Examples
use law_review_local.Access.{Principal}
use law_review_local.Login.{
  Limit, login_window, limited_token_principal, count_login_attempt, purge_limits, over_limit,
}
use law_review_local.Members.{
  MemberStore, AuthSession, SessionKind, by_token, by_oidc, principal_for_fingerprint,
}
use law_review_local.Common.{
  ℕ, ◌+◌, ◌-◌, ◌*◌, String, Bool, true, false, ◌&&◌, ◌||◌, not, Option, none, some, str_eq, ◌==◌,
  ltb, leb, if◌then◌else◌, List, [], ◌∷◌, ◌++◌, keep, map, find?, length, Http, ok, raise, require,
  ◌>>=◌, ◌>>◌,
}

abbrev pub session_ttl : ℕ
session_ttl = 8 * 3600

abbrev pub session_idle_ttl : ℕ
session_idle_ttl = 30 * 60

abbrev pub oidc_flow_ttl : ℕ
oidc_flow_ttl = 600

-- What the deployment configures. A configuration that does not load has no tokens, since both
-- callers go on with the members then; the settings of OIDC, where there are any, load. `hash` is
-- SHA-256 of a text.
pub record Identities : Type 0 where
  pub hash : String → String
  pub token_mode : Bool
  pub tokens : List (String × Principal)
  pub subjects : Option (List (String × Principal))

abbrev pub found_principal : Option (String × Principal) → Option Principal
found_principal none = none
found_principal (some (k, p)) = some p

abbrev pub or_else : Option Principal → Option Principal → Option Principal
or_else none q = q
or_else (some p) q = some p

-- `token_principal`; the keys of the configuration are distinct.
abbrev pub environment_principal : Identities → String → Option Principal
environment_principal e token = found_principal (find? (λ x. str_eq x.0 token) e.tokens)

-- `environment_token_principal(token) or member_principal_for_token(token)`
unfoldable pub principal_of_token : Identities → MemberStore → String → Option Principal
principal_of_token e s token =
    or_else (environment_principal e token)
      (if str_eq token "" then none else principal_for_fingerprint s (e.hash token))

abbrev pub in_time : ℕ → AuthSession → Bool
in_time t x = ltb t x.expires_at

-- `purge_expired_sessions` of app/db.py
unfoldable pub purge_sessions : ℕ → MemberStore → MemberStore
purge_sessions t s = record s { sessions = keep (in_time t) s.sessions }

abbrev pub has_hash : String → AuthSession → Bool
has_hash h x = str_eq x.session_hash h

-- The `WHERE` of the session's update; the idle time is added on the other side of the test.
abbrev pub usable : ℕ → String → AuthSession → Bool
usable t h x = has_hash h x && (ltb t x.expires_at && ltb t (x.last_seen_at + session_idle_ttl))

abbrev pub touch : ℕ → String → AuthSession → AuthSession
touch t h x = if usable t h x then record x { last_seen_at = t } else x

-- The principal of a session, by the mappings of the moment.
unfoldable pub resolve_kind : Identities → MemberStore → SessionKind → Option Principal
resolve_kind e s (by_token f) =
    or_else (found_principal (find? (λ x. str_eq (e.hash x.0) f) e.tokens))
      (principal_for_fingerprint s f)
resolve_kind e s (by_oidc subject) = elim e.subjects [
  | none ↦ none
  | some m ↦ found_principal (find? (λ x. str_eq x.0 subject) m)
]

abbrev pub resolve_session : Identities → MemberStore → Option AuthSession → Option Principal
resolve_session e s none = none
resolve_session e s (some x) = resolve_kind e s x.kind

unfoldable pub session_principal :
    Identities → String → ℕ → MemberStore → MemberStore × Option Principal
unfolding purge_sessions resolve_kind
session_principal e v t s =
    let p = purge_sessions t s in
    if str_eq v "" then (s, none) else (
      record p { sessions = map (touch t (e.hash v)) p.sessions },
      resolve_session e p (find? (usable t (e.hash v)) p.sessions),
    )

abbrev pub session_capacity : ℕ
session_capacity = 4096

abbrev pub new_session : ℕ → String → SessionKind → AuthSession
new_session t h kind = record {
  session_hash = h;
  kind = kind;
  expires_at = t + session_ttl;
  last_seen_at = t;
}

-- `_register_session`
unfoldable pub register_session :
    Identities → SessionKind → String → ℕ → MemberStore → Http MemberStore
unfolding purge_sessions
register_session e kind value t s = do
  let p = purge_sessions t s
  require (ltb (length p.sessions) session_capacity) 503 "会话容量已满，请稍后重试"
  ok (record p { sessions = p.sessions ++ new_session t (e.hash value) kind ∷ [] })

-- `_revoke_session`
unfoldable pub revoke_session : Identities → String → MemberStore → MemberStore
revoke_session e v s =
    if str_eq v ""
    then s
    else record s { sessions = keep (λ x. not (has_hash (e.hash v) x)) s.sessions }

abbrev pub logged_in : Principal → MemberStore → Http MemberStore → MemberStore × Http Principal
logged_in p s (ok s') = (s', ok p)
logged_in p s (raise n d) = (s, raise n d)

-- `login` after the attempt: the earlier session is revoked in a transaction of its own.
unfoldable pub open_session :
    Identities
    → String
    → String
    → String
    → ℕ
    → MemberStore
    → Http (Option Principal)
    → MemberStore × Http Principal
unfolding revoke_session register_session
open_session e token cookie value t s (raise n d) = (s, raise n d)
open_session e token cookie value t s (ok none) = (s, raise 401 "无效访问令牌")
open_session e token cookie value t s (ok (some p)) =
    let revoked = revoke_session e cookie s in
    logged_in p revoked (register_session e (by_token (e.hash token)) value t revoked)

-- `login`; `bucket` is that of the peer, and `cookie` the session that the browser has sent.
unfoldable pub login :
    Identities
    → String
    → String
    → String
    → String
    → ℕ
    → (String → Option Limit)
    → MemberStore
    → (String → Option Limit) × (MemberStore × Http Principal)
unfolding principal_of_token limited_token_principal open_session
login e token bucket cookie value t limits s =
    if not e.token_mode
    then (limits, (s, raise 409 "本机模式无需登录"))
    else let tried = limited_token_principal (principal_of_token e s) bucket token t limits in
      (tried.0, open_session e token cookie value t s tried.1)

-- `logout`
unfoldable pub logout : Identities → String → MemberStore → MemberStore
unfolding revoke_session
logout e cookie s = revoke_session e cookie s

-- A row of `oidc_flows`.
pub record OidcFlow : Type 0 where
  pub state_hash : String
  pub browser_hash : String
  pub nonce : String
  pub verifier : String
  pub redirect_uri : String
  pub settings_hash : String
  pub expires_at : ℕ
  pub previous_session_hash : String
  pub limit_bucket : String
  pub limit_expires_at : ℕ

pub record FlowStore : Type 0 where
  pub flows : List OidcFlow
  pub limits : String → Option Limit

abbrev pub oidc_start_limit : ℕ
oidc_start_limit = 100

abbrev expiry : Option Limit → ℕ
expiry none = 0
expiry (some l) = l.expires_at

-- `_register_oidc_flow`, given the new flow but its limit's time, which is read after the count.
unfoldable pub register_oidc_flow : OidcFlow → ℕ → FlowStore → Http FlowStore
unfolding purge_limits over_limit count_login_attempt
register_oidc_flow f t s = do
  let limits = purge_limits t s.limits
  require (not (over_limit oidc_start_limit f.limit_bucket limits)) 429 "登录尝试过多，请稍后重试"
  let flows = keep (λ g. ltb t g.expires_at) s.flows
  require (ltb (length flows) 1024) 503 "登录请求过多，请稍后重试"
  let counted = count_login_attempt f.limit_bucket t limits
  ok (record {
    flows =
        flows
        ++ record f {
          expires_at = t + oidc_flow_ttl;
          limit_expires_at = expiry (counted f.limit_bucket);
        }
          ∷ [];
    limits = counted;
  })

-- The `WHERE` of the claim.
abbrev pub claims : (String → String) → String → String → ℕ → OidcFlow → Bool
claims hash state browser t f =
    str_eq f.state_hash (hash state) && (str_eq f.browser_hash (hash browser) && ltb t f.expires_at)

-- `_consume_oidc_flow`; `size` counts the characters of a text.
unfoldable pub consume_oidc_flow :
    (String → String) → (String → ℕ) → String → String → ℕ → FlowStore → FlowStore × Option OidcFlow
consume_oidc_flow hash size state browser t s =
    if str_eq state "" || (str_eq browser "" || (ltb 128 (size state) || ltb 128 (size browser)))
    then (s, none)
    else (
      record s { flows = keep (λ f. not (claims hash state browser t f)) s.flows },
      find? (claims hash state browser t) s.flows,
    )

abbrev refunded : Limit → Limit
refunded l = record l { attempts = l.attempts - 1 }

abbrev same_window : ℕ → Option Limit → Option Limit
same_window w none = none
same_window w (some l) = if l.expires_at == w then some (refunded l) else some l

-- `_register_oidc_session` for a flow: the earlier session goes, and the attempt that the flow has
-- reserved is given back in its own window only.
unfoldable pub register_oidc_session :
    Identities
    → String
    → OidcFlow
    → String
    → ℕ
    → FlowStore
    → MemberStore
    → Http (FlowStore × MemberStore)
unfolding register_session
register_oidc_session e subject flow value t fs s = do
  s' ←
      register_session e (by_oidc subject) value t
        (record s { sessions = keep (λ x. not (has_hash flow.previous_session_hash x)) s.sessions })
  ok (
    record fs {
      limits = λ b.
          if str_eq b flow.limit_bucket
          then same_window flow.limit_expires_at (fs.limits b)
          else fs.limits b;
    },
    s',
  )
