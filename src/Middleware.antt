-- ===== src/Middleware.antt =====
-- app/security.py: the path rules of `AccessMiddleware`, which case a path belongs to and which
-- permission it takes. A path is the list of its segments, `/api/cases/1` that of api, cases and 1.
-- `digits` is the class `\d+` of `re` and `number` its `int`; PostgreSQL's and SQLite's reading of an
-- id that a path gives as a text is part of the tables.
pub mod Dispatch
pub mod Answers
pub mod Gate
pub mod Anonymous
pub mod Refusals
mod Examples
use law_review_local.Common.{
  List, String, Option, Http, ℕ, Bool, [], ◌∷◌, true, ok, any, some, false, if◌then◌else◌, raise,
  none, str_eq, ◌||◌, ◌&&◌, find?,
}
use law_review_local.Conflicts.Clearance.{Method, patch, post, delete, writes}
use law_review_local.Access.{Permission, export, view, edit}

abbrev pub path_eq : List String → List String → Bool
path_eq [] [] = true
path_eq [] (b ∷ qs) = false
path_eq (a ∷ ps) [] = false
path_eq (a ∷ ps) (b ∷ qs) = str_eq a b && path_eq ps qs

abbrev pub one_of : List (List String) → List String → Bool
one_of ps path = any (λ q. path_eq path q) ps

-- `path.endswith("/export")`
abbrev pub ends_export : List String → Bool
ends_export [] = false
ends_export (a ∷ []) = str_eq a "export"
ends_export (a ∷ b ∷ rest) = ends_export (b ∷ rest)

-- `path.startswith("/api/")`
abbrev pub under_api : List String → Bool
under_api [] = false
under_api (a ∷ []) = false
under_api (a ∷ b ∷ rest) = str_eq a "api"

-- `/api/<group>/\d+`, to its end
abbrev numbered : (String → Bool) → String → List String → Bool
numbered digits group (a ∷ b ∷ n ∷ []) = str_eq a "api" && (str_eq b group && digits n)
numbered digits group _ = false

abbrev tool_call : (String → Bool) → List String → Bool
tool_call digits (a ∷ b ∷ n ∷ c ∷ d ∷ []) =
    str_eq a "api"
    && (str_eq b "cases" && (digits n && (str_eq c "agent-tools" && str_eq d "call")))
tool_call digits _ = false

abbrev is_post : Method → Bool
is_post post = true
is_post _ = false

abbrev is_patch : Method → Bool
is_patch patch = true
is_patch _ = false

abbrev is_delete : Method → Bool
is_delete delete = true
is_delete _ = false

unfoldable pub required_case_permission : (String → Bool) → Method → List String → Permission
required_case_permission digits m path =
    if ends_export path
    then export
    else if is_post m && tool_call digits path
    then view
    else if is_patch m && numbered digits "evidence" path
    then view
    else if (is_patch m || is_delete m) && numbered digits "tasks" path
    then view
    else if is_patch m && numbered digits "reports" path
    then view
    else if writes m
    then edit
    else view

-- The tables that own a resource of a path: the case of the row that has an id. An annotation leads to
-- its evidence.
pub record Tables : Type 0 where
  pub documents : String → Option ℕ
  pub evidence : String → Option ℕ
  pub conversations : String → Option ℕ
  pub agent_runs : String → Option ℕ
  pub batch_imports : String → Option ℕ
  pub review_jobs : String → Option ℕ
  pub evidence_annotations : String → Option String
  pub review_tasks : String → Option ℕ
  pub case_reports : String → Option ℕ

abbrev joined : (String → Option ℕ) → Option String → Option ℕ
joined evidence none = none
joined evidence (some i) = evidence i

-- The queries of `_owned_case`, by the group of the path.
unfoldable pub queries : Tables → List (String × (String → Option ℕ))
queries d =
    ("documents", d.documents)
    ∷ ("evidence", d.evidence)
    ∷ ("conversations", d.conversations)
    ∷ ("agent-runs", d.agent_runs)
    ∷ ("batch-imports", d.batch_imports)
    ∷ ("agent-jobs", d.review_jobs)
    ∷ ("annotations", λ i. joined d.evidence (d.evidence_annotations i))
    ∷ ("evidence-annotations", λ i. joined d.evidence (d.evidence_annotations i))
    ∷ ("tasks", d.review_tasks)
    ∷ ("reports", d.case_reports)
    ∷ []

abbrev pub found_case : Option ℕ → Http (Option ℕ)
found_case none = raise 404 "资源不存在"
found_case (some c) = ok (some c)

abbrev pub run_query : String → Option (String × (String → Option ℕ)) → Http (Option ℕ)
run_query i none = ok none
run_query i (some (group, q)) = found_case (q i)

unfoldable pub resource_case : Tables → String → String → Http (Option ℕ)
unfolding queries
resource_case d group i =
    if str_eq i "" || (str_eq group "tasks" && str_eq i "mine")
    then ok none
    else run_query i (find? (λ x. str_eq x.0 group) (queries d))

abbrev pub direct_case : (String → Bool) → List String → Bool
direct_case digits (a ∷ b ∷ n ∷ rest) = str_eq a "api" && (str_eq b "cases" && digits n)
direct_case digits _ = false

unfoldable pub owned_case : (String → Bool) → (String → ℕ) → Tables → List String → Http (Option ℕ)
unfolding resource_case
owned_case digits number d (a ∷ b ∷ n ∷ rest) =
    if direct_case digits (a ∷ b ∷ n ∷ rest)
    then ok (some (number n))
    else if str_eq a "api"
    then resource_case d b n
    else ok none
owned_case digits number d _ = ok none
