-- ===== src/Access/Examples.antt =====
-- app/security.py: examples.
use law_review_local.People.{bo}
use law_review_local.Common.{◌≡◌, ◌↔◌, refl, some, true}
use law_review_local.Access.{edit, manager_roles, has_case_role}
use law_review_local.Access.Narrowing.{Entitled, has_case_role_iff}

has_case_role_iff_example :
    (has_case_role bo edit (some 1) manager_roles ≡ true) ↔ Entitled bo edit (some 1) manager_roles
has_case_role_iff_example = has_case_role_iff bo edit (some 1) manager_roles refl
