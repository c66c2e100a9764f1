-- ===== src/People.antt =====
-- The principals of the examples, and the result of a call that succeeds.
use law_review_local.Common.{[], ◌∷◌, true, false, none, some, Http, ok, raise}
use law_review_local.Access.{Principal, member_permissions, all_permissions, owner, assistant}

abbrev pub root : Principal
root = record {
  name = "root";
  admin = true;
  case_ids = [];
  local = false;
  permissions = all_permissions;
  member_id = none;
  roles = [];
}

abbrev pub partner : Principal
partner = record {
  name = "partner";
  admin = true;
  case_ids = [];
  local = false;
  permissions = all_permissions;
  member_id = none;
  roles = [];
}

-- The owner of case 1.
abbrev pub bo : Principal
bo = record {
  name = "bo";
  admin = false;
  case_ids = 1 ∷ [];
  local = false;
  permissions = member_permissions;
  member_id = some 5;
  roles = (1, owner) ∷ [];
}

-- An assistant on case 1.
abbrev pub ann : Principal
ann = record {
  name = "ann";
  admin = false;
  case_ids = 1 ∷ [];
  local = false;
  permissions = member_permissions;
  member_id = some 7;
  roles = (1, assistant) ∷ [];
}

abbrev pub result_or {ℓ} : {A : Type ℓ} → A → Http A → A
result_or d (ok a) = a
result_or d (raise n e) = d
