-- ===== src/Access/Narrowing.antt =====
-- app/security.py: permissions on a case, with and without a role on it.
use law_review_local.Common.{
  ℕ, ◌≡◌, ◌↔◌, Bool, true, false, ◌&&◌, Option, some, arith, Option-cases, inl, inr,
}
use law_review_local.Access.{
  Permission, Role, Principal, member, has, has_for_case, has_case_role, role_for, role_permissions,
}

-- What a principal may do on a case, it may do in general.
pub has_for_case-has :
    (p : Principal) (a : Permission) (c : Option ℕ) → has_for_case p a c ≡ true → has p a ≡ true
unfolding has_for_case
has_for_case-has p a c h = ground arith

-- Without the administrator's flag, holding a role on a case bounds the permission by that role.
pub has_for_case-role :
    (p : Principal) (a : Permission) (c : Option ℕ) (r : Role)
    → p.admin ≡ false
    → role_for p c ≡ some r
    → has_for_case p a c ≡ (has p a && member a (role_permissions r))
unfolding has_for_case
has_for_case-role p a c r n e = ground arith

-- The role, the member's own permission and the role's permission, which a role-gated action needs.
abbrev pub Entitled : Principal → Permission → Option ℕ → (Role → Bool) → Type 0
Entitled p a c roles =
    (r : Role) × (role_for p c ≡ some r)
    × (roles r ≡ true)
    × (member a p.permissions ≡ true)
    × (member a (role_permissions r) ≡ true)

has_case_role-Entitled :
    (p : Principal) (a : Permission) (c : Option ℕ) (roles : Role → Bool)
    → p.admin ≡ false
    → has_case_role p a c roles ≡ true
    → Entitled p a c roles
unfolding has_case_role
has_case_role-Entitled p a c roles n h = elim (Option-cases (role_for p c)) [
  | inl e ↦ absurd (ground arith)
  | inr (r, e) ↦ (r, e, ground arith, ground arith, ground arith)
]

Entitled-has_case_role :
    (p : Principal) (a : Permission) (c : Option ℕ) (roles : Role → Bool)
    → p.admin ≡ false
    → Entitled p a c roles
    → has_case_role p a c roles ≡ true
unfolding has_case_role
Entitled-has_case_role p a c roles n (r, e, q, m, s) = ground arith

-- For a principal without the administrator's flag, a role-gated action is open exactly when the
-- principal holds a role on the case that the gate admits, has the permission itself, and the
-- role grants the permission too.
pub has_case_role_iff :
    (p : Principal) (a : Permission) (c : Option ℕ) (roles : Role → Bool)
    → p.admin ≡ false
    → (has_case_role p a c roles ≡ true) ↔ Entitled p a c roles
has_case_role_iff p a c roles n =
    (has_case_role-Entitled p a c roles n, Entitled-has_case_role p a c roles n)
