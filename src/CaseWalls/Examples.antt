-- ===== src/CaseWalls/Examples.antt =====
-- app/case_walls.py: examples.
use law_review_local.Access.{require_permission}
use law_review_local.People.{root, bo, result_or}
use law_review_local.Common.{
  ◌≡◌, refl, ◌∷◌, [], false, not, ◌&&◌, ◌==◌, ltb, ◌+◌, str_eq, if◌then◌else◌,
}
use law_review_local.CaseWalls.{
  WallStore, set_wall, remove_wall, break_glass, has_grant, is_insider, clean_names,
  break_glass_seconds,
}
use law_review_local.CaseWalls.Visibility.{hides, named, hides-set_wall}
use law_review_local.CaseWalls.Lifting.{hides-break_glass, hides-remove_wall}

abbrev open_store : WallStore
open_store = record { cases = 1 ∷ 2 ∷ []; walls = []; insiders = []; grants = []; audit = [] }

abbrev walled_store : WallStore
unfolding set_wall require_permission
walled_store =
    result_or open_store (set_wall (λ n. n) root false 1 "secrecy" ("ann" ∷ []) open_store)

hides-set_wall_example : hides walled_store bo 100 1 ≡ (
    if 1 == 1
    then not (named "bo" (clean_names (λ n. n) ("ann" ∷ [])))
      && not (has_grant open_store 1 "bo" 100)
    else hides open_store bo 100 1)
unfolding set_wall require_permission
hides-set_wall_example =
    hides-set_wall (λ n. n) root bo false 1 1 100 "secrecy" ("ann" ∷ []) open_store walled_store
      refl

abbrev broken_store : WallStore
unfolding break_glass set_wall require_permission is_insider
broken_store = result_or walled_store (break_glass (λ n. n) root 1 "urgent" 100 walled_store)

hides-break_glass_example : hides broken_store root 200 1 ≡ (
    hides walled_store root 200 1
    && not ((1 == 1) && (str_eq "root" "root" && ltb 200 (100 + break_glass_seconds))))
unfolding break_glass set_wall require_permission is_insider
hides-break_glass_example =
    hides-break_glass (λ n. n) root root 1 1 100 200 "urgent" walled_store broken_store refl

abbrev lifted_store : WallStore
unfolding remove_wall break_glass set_wall require_permission is_insider
lifted_store = result_or broken_store (remove_wall (λ n. n) root 1 "settled" broken_store)

hides-remove_wall_example :
    (hides lifted_store bo 200 1 ≡ (not (1 == 1) && hides broken_store bo 200 1))
    × (is_insider lifted_store 1 "bo" ≡ false)
    × (has_grant lifted_store 1 "bo" 200 ≡ false)
unfolding remove_wall break_glass set_wall require_permission is_insider
hides-remove_wall_example =
    hides-remove_wall (λ n. n) root bo 1 1 200 "settled" broken_store lifted_store refl
