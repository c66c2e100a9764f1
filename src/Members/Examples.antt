-- ===== src/Members/Examples.antt =====
-- app/members.py: examples. Member 1 is the administrator, and member 5 has a token and a session.
use law_review_local.People.{partner, result_or}
use law_review_local.Common.{◌≡◌, refl, ◌∷◌, [], true, false, none, some, any, arith}
use law_review_local.Access.{Principal, member_permissions, require_permission, owner, has_for_case}
use law_review_local.Members.{
  Deployment, MemberStore, MemberUpdate, update_member, deactivate_member, opened_by,
  revoke_sessions, principal_for_fingerprint, update_members, load_principal, by_token,
}
use law_review_local.Members.Directory.{
  is_live_admin, update_member-keeps_admin, deactivate_member-shuts_out, finds,
}

abbrev deployment : Deployment
deployment = record {
  strip = λ s. s;
  clip = λ n s. s;
  hash = λ t. t;
  token_mode = true;
  configured_names = [];
  environment_admin = false;
}

abbrev directory : MemberStore
directory = record {
  members =
      record {
        id = 1;
        name = "partner";
        is_admin = true;
        permissions = member_permissions;
        active = true;
      }
      ∷ record {
        id = 5;
        name = "bo";
        is_admin = true;
        permissions = member_permissions;
        active = true;
      }
      ∷ [];
  tokens =
      record { member_id = 1; token_hash = "t1"; label = ""; created_by = "root"; revoked = false }
      ∷ record {
        member_id = 5;
        token_hash = "t5";
        label = "";
        created_by = "root";
        revoked = false;
      }
      ∷ [];
  sessions =
      record { session_hash = "s5"; kind = by_token "t5"; expires_at = 9000; last_seen_at = 10 }
      ∷ [];
  assignments = record { case_id = 1; member_id = 5; role = owner } ∷ [];
  cases = 1 ∷ [];
  next_id = 6;
}

abbrev demotion : MemberUpdate
demotion = record { name = none; admin = some false; permissions = none; active = none }

abbrev demoted_directory : MemberStore
unfolding update_member deactivate_member require_permission update_members revoke_sessions
    load_principal principal_for_fingerprint has_for_case
demoted_directory = result_or directory (update_member deployment partner 5 demotion directory)

update_member-keeps_admin_example : any is_live_admin demoted_directory.members ≡ true
unfolding update_member deactivate_member require_permission update_members revoke_sessions
    load_principal principal_for_fingerprint has_for_case
update_member-keeps_admin_example =
    update_member-keeps_admin deployment partner 5 demotion directory demoted_directory refl
      (omega arith) refl refl

abbrev reduced : MemberStore
unfolding update_member deactivate_member require_permission update_members revoke_sessions
    load_principal principal_for_fingerprint has_for_case
reduced = result_or directory (deactivate_member deployment partner 5 directory)

abbrev signed_in : Principal
unfolding update_member deactivate_member require_permission update_members revoke_sessions
    load_principal principal_for_fingerprint has_for_case
signed_in = load_principal reduced (record {
  id = 1;
  name = "partner";
  is_admin = true;
  permissions = member_permissions;
  active = true;
})

deactivate_member-shuts_out_example :
    (any (opened_by 5 reduced.tokens) reduced.sessions ≡ false)
    × (finds 5 (principal_for_fingerprint reduced "t5") ≡ false)
unfolding update_member deactivate_member require_permission update_members revoke_sessions
    load_principal principal_for_fingerprint has_for_case
deactivate_member-shuts_out_example =
    deactivate_member-shuts_out deployment partner 5 "t5" directory reduced refl
