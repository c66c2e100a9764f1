-- ===== src/Login/Examples.antt =====
-- app/security.py: examples of login attempts.
use law_review_local.Login.{Limit, login_limit}
use law_review_local.Login.Guesses.{misses, misses_bound}
use law_review_local.Access.{Principal}
use law_review_local.Common.{◌≤◌, ◌+◌, refl, ◌∷◌, [], none, some, ℕ, String, Option, List, arith}

abbrev used_up : String → Option Limit
used_up b = some (record { attempts = 9; expires_at = 1000 })

abbrev unknown : String → Option Principal
unknown token = none

abbrev guesses : List (String × ℕ)
guesses = ("a", 10) ∷ ("b", 20) ∷ ("c", 30) ∷ []

misses_bound_example : misses unknown "peer" guesses used_up + 9 ≤ login_limit
misses_bound_example =
    misses_bound unknown "peer" guesses (record { attempts = 9; expires_at = 1000 }) used_up refl
      (omega arith) (omega arith, (omega arith, (omega arith, tt)))
