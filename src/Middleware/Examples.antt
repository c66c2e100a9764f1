-- ===== src/Middleware/Examples.antt =====
-- app/security.py, `AccessMiddleware.dispatch`: examples. Case 1, which owns document 7, has a wall.
use law_review_local.Middleware.Dispatch.{
  admit, Request, Settings, World, token, public, callback_get,
}
use law_review_local.Common.{
  List, Option, String, some, ◌∷◌, [], ℕ, ◌≡◌, none, false, true, if◌then◌else◌, str_eq, ok, ◌||◌,
  refl, not, ◌&&◌,
}
use law_review_local.CaseWalls.{Insider, shut_out, is_insider, has_grant, has_wall}
use law_review_local.Access.{Principal, role_for, may_open, allowed_case_ids, has_for_case}
use law_review_local.Conflicts.Clearance.{delete, get, clear, writes, clearance_exempt, clearance}
use law_review_local.Middleware.Answers.{Response, dispatch}
use law_review_local.Middleware.{owned_case, under_api, required_case_permission}
use law_review_local.Middleware.Refusals.{dispatch-refused}
use law_review_local.People.{bo}
use law_review_local.Middleware.Anonymous.{admit-public}
use law_review_local.Conflicts.Clearance.Gate.{stops}
use law_review_local.Middleware.Gate.{admit-cleared}

abbrev settings : Settings
settings = record {
  mode = some token;
  hosts = "firm" ∷ [];
  trusted_peers = [];
  environment_tokens = some true;
  loopback = λ peer. none;
  digits = λ n. str_eq n "1";
  number = λ n. 1;
  identities = record {
    hash = λ t. t;
    token_mode = true;
    tokens = ("t1", bo) ∷ [];
    subjects = none;
  };
}

abbrev nothing : String → Option ℕ
nothing i = none

abbrev world_of : List Insider → World
world_of insiders = record {
  members = record {
    members = [];
    tokens = [];
    sessions = [];
    assignments = [];
    cases = 1 ∷ [];
    next_id = 1;
  };
  walls = record {
    cases = 1 ∷ [];
    walls = record { case_id = 1; reason = "r"; created_by = "root" } ∷ [];
    insiders = insiders;
    grants = [];
    audit = [];
  };
  conflicts = record {
    cases = 1 ∷ [];
    parties = [];
    checks =
        record {
          id = 1;
          case_id = 1;
          status = clear;
          hits = [];
          parties_digest = "";
          requested_by = "bo";
          decided_by = none;
          decision_reason = none;
        }
        ∷ [];
    next_id = 2;
    audit = [];
  };
  tables = record {
    documents = λ i. if str_eq i "7" then some 1 else none;
    evidence = nothing;
    conversations = nothing;
    agent_runs = nothing;
    batch_imports = nothing;
    review_jobs = nothing;
    evidence_annotations = λ i. none;
    review_tasks = nothing;
    case_reports = nothing;
  };
  audit = [];
  events = [];
}

abbrev insider : World
insider = world_of (record { case_id = 1; principal_name = "bo"; added_by = "root" } ∷ [])

abbrev outsider : World
outsider = world_of []

abbrev removal : Request
removal = record {
  method = delete;
  path = "api" ∷ "documents" ∷ "7" ∷ [];
  host = "firm";
  origin = "";
  expected_origin = "https://firm";
  cross_site = false;
  forwarded = false;
  peer = "10.0.0.1";
  bearer = some "t1";
  cookie = "";
}

abbrev probe : Request
probe = record removal { method = get; path = "api" ∷ "health" ∷ []; bearer = none }

abbrev handler : Option Principal → World → World × Response
handler p w = (w, record { status = 200; detail = "" })

admit-cleared_example :
    (owned_case settings.digits settings.number insider.tables removal.path ≡ ok (some 1))
    × (may_open (allowed_case_ids bo) 1 ≡ true)
    × ((not (has_wall 1 insider.walls.walls)
          || (is_insider insider.walls 1 bo.name || has_grant insider.walls 1 bo.name 50))
        ≡ true)
    × (has_for_case bo
          (required_case_permission settings.digits removal.method removal.path)
          (some 1)
        ≡ true)
    × ((not (writes removal.method)
          || (clearance_exempt settings.digits removal.path
              || not (stops (clearance insider.conflicts 1))))
        ≡ true)
unfolding admit shut_out is_insider role_for
admit-cleared_example = admit-cleared settings 50 removal insider bo 1 refl

admit-public_example :
    (settings.mode ≡ some token)
    × (public probe.path ≡ true)
    × ((callback_get token probe
          || ((not (writes probe.method) && not (under_api probe.path))
              || ((str_eq probe.origin "" || str_eq probe.origin probe.expected_origin)
                  && not probe.cross_site)))
        ≡ true)
unfolding admit
admit-public_example = admit-public settings 50 probe insider none refl

dispatch-refused_example : dispatch handler (λ r. "") (λ s. s) settings 50 removal outsider ≡ (
  record outsider {
    members = record outsider.members {
      sessions = (admit settings 50 removal outsider).0.members.sessions;
    };
    events =
        record {
          event_type = "access";
          outcome = "denied";
          actor = some "bo";
          case_id = some 1;
          detail = "案件不存在或无访问权限";
        }
        ∷ [];
  },
  record { status = 404; detail = "案件不存在或无访问权限" },
)
unfolding admit shut_out is_insider has_grant
dispatch-refused_example =
    dispatch-refused handler (λ r. "") (λ s. s) settings 50 removal outsider (some bo) (some 1) 404
      "案件不存在或无访问权限" refl
