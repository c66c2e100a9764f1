-- ===== src/Sessions/Examples.antt =====
-- app/security.py: examples of sessions. A text is its own hash, and the token t5 is that of member 5.
use law_review_local.Members.{
  Deployment, Member, deactivate_member, MemberStore, load_principal, by_token, revoke_sessions,
  principal_for_fingerprint, AuthSession,
}
use law_review_local.Common.{
  String, ◌∷◌, [], true, false, Option, ◌≡◌, none, arith, ◌≢◌, refl, some, Mem, ◌<◌, ◌+◌,
}
use law_review_local.Sessions.{
  Identities, consume_oidc_flow, OidcFlow, login, FlowStore, session_principal, principal_of_token,
  purge_sessions, resolve_kind, open_session, revoke_session, register_session,
}
use law_review_local.Access.{
  Principal, require_permission, member_permissions, view, owner, has_for_case,
}
use law_review_local.Login.{
  limited_token_principal, Limit, purge_limits, over_limit, tried, count_login_attempt,
}
use law_review_local.Sessions.Flows.{consume_oidc_flow-once}
use law_review_local.People.{result_or, partner}
use law_review_local.Sessions.Identify.{session_principal-usable, session_principal-deactivated}
use law_review_local.Sessions.Opening.{session_principal-login}

abbrev member_five : Member
member_five = record {
  id = 5;
  name = "bo";
  is_admin = false;
  permissions = member_permissions;
  active = true;
}

abbrev boss : Member
boss = record {
  id = 1;
  name = "partner";
  is_admin = true;
  permissions = member_permissions;
  active = true;
}

abbrev directory : MemberStore
directory = record {
  members = boss ∷ member_five ∷ [];
  tokens =
      record { member_id = 5; token_hash = "t5"; label = ""; created_by = "root"; revoked = false }
      ∷ [];
  sessions =
      record { session_hash = "s5"; kind = by_token "t5"; expires_at = 9000; last_seen_at = 10 }
      ∷ record { session_hash = "s7"; kind = by_token "t7"; expires_at = 9000; last_seen_at = 10 }
      ∷ record { session_hash = "old"; kind = by_token "t5"; expires_at = 90; last_seen_at = 10 }
      ∷ [];
  assignments = record { case_id = 1; member_id = 5; role = owner } ∷ [];
  cases = 1 ∷ [];
  next_id = 6;
}

abbrev deployment : Deployment
deployment = record {
  strip = λ s. s;
  clip = λ n s. s;
  hash = λ t. t;
  token_mode = true;
  configured_names = [];
  environment_admin = true;
}

abbrev external : Principal
external = record {
  name = "external";
  admin = false;
  case_ids = 1 ∷ [];
  local = false;
  permissions = view ∷ [];
  member_id = none;
  roles = [];
}

abbrev identities : Identities
identities = record {
  hash = λ t. t;
  token_mode = true;
  tokens = ("t7", external) ∷ [];
  subjects = none;
}

abbrev bo : Principal
unfolding load_principal
bo = load_principal directory member_five

session_principal-usable_example :
    (x : AuthSession) × Mem x directory.sessions
    × (x.session_hash ≡ "s5")
    × (100 < x.expires_at)
    × (100 < x.last_seen_at + 1800)
    × (resolve_kind identities directory x.kind ≡ some bo)
unfolding session_principal purge_sessions resolve_kind principal_for_fingerprint load_principal
session_principal-usable_example = session_principal-usable identities "s5" 100 directory bo refl

abbrev reduced : MemberStore
unfolding deactivate_member require_permission revoke_sessions load_principal
    principal_for_fingerprint has_for_case
reduced = result_or directory (deactivate_member deployment partner 5 directory)

session_principal-deactivated_example : external.member_id ≢ some 5
unfolding session_principal purge_sessions resolve_kind deactivate_member require_permission
    revoke_sessions load_principal principal_for_fingerprint has_for_case
session_principal-deactivated_example =
    session_principal-deactivated deployment identities partner external 5 "s7" 100 directory
      reduced ((refl, tt), tt) refl refl

abbrev no_limits : String → Option Limit
no_limits b = none

session_principal-login_example :
    (session_principal identities "new" 500
      (login identities "t5" "peer" "s5" "new" 100 no_limits directory).1.0).1
    ≡ some bo
unfolding login principal_of_token limited_token_principal open_session revoke_session
    register_session purge_sessions principal_for_fingerprint load_principal purge_limits over_limit
    tried count_login_attempt
session_principal-login_example =
    session_principal-login identities "t5" "peer" "s5" "new" 100 500 no_limits directory bo
      (refl, tt) refl (refl, (refl, (refl, tt))) (omega arith) (omega arith) refl

abbrev flow : OidcFlow
flow = record {
  state_hash = "state";
  browser_hash = "browser";
  nonce = "n";
  verifier = "v";
  redirect_uri = "/";
  settings_hash = "settings";
  expires_at = 700;
  previous_session_hash = "";
  limit_bucket = "peer";
  limit_expires_at = 900;
}

abbrev started : FlowStore
started = record { flows = flow ∷ []; limits = no_limits }

abbrev finished : FlowStore
finished = record { flows = []; limits = no_limits }

consume_oidc_flow-once_example :
    Mem flow started.flows
    × (flow.state_hash ≡ "state")
    × (flow.browser_hash ≡ "browser")
    × (200 < flow.expires_at)
    × ((consume_oidc_flow (λ v. v) (λ v. 7) "state" "browser" 300 finished).1 ≡ none)
unfolding consume_oidc_flow
consume_oidc_flow-once_example =
    consume_oidc_flow-once (λ v. v) (λ v. 7) "state" "browser" 200 300 flow started finished
      (omega arith) refl
