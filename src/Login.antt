-- ===== src/Login.antt =====
-- app/security.py: the limit of login attempts. The table `auth_login_limits` is the map that its
-- primary key, the bucket, gives; times are seconds. `resolve` finds the principal of a token.
pub mod Guesses
mod Examples
use law_review_local.Access.{Principal}
use law_review_local.Common.{
  ℕ, ◌+◌, ◌*◌, String, Bool, true, false, Option, none, some, str_eq, leb, if◌then◌else◌, Http, ok,
  raise,
}

abbrev pub login_window : ℕ
login_window = 15 * 60

abbrev pub login_limit : ℕ
login_limit = 10

pub record Limit : Type 0 where
  pub attempts : ℕ
  pub expires_at : ℕ

abbrev live_limit : ℕ → Option Limit → Option Limit
live_limit t none = none
live_limit t (some l) = if leb l.expires_at t then none else some l

-- `DELETE FROM auth_login_limits WHERE expires_at <= ?`
unfoldable pub purge_limits : ℕ → (String → Option Limit) → String → Option Limit
purge_limits t limits b = live_limit t (limits b)

abbrev too_many : ℕ → Option Limit → Bool
too_many n none = false
too_many n (some l) = leb n l.attempts

-- The refusal of `_check_login_limit`, on the purged table.
unfoldable pub over_limit : ℕ → String → (String → Option Limit) → Bool
over_limit n b limits = too_many n (limits b)

abbrev one_more : ℕ → Option Limit → Limit
one_more t none = record { attempts = 1; expires_at = t + login_window }
one_more t (some l) = record l { attempts = l.attempts + 1 }

unfoldable pub count_login_attempt : String → ℕ → (String → Option Limit) → String → Option Limit
count_login_attempt b t limits c = if str_eq b c then some (one_more t (limits b)) else limits c

unfoldable pub tried :
    String
    → ℕ
    → (String → Option Limit)
    → Option Principal
    → (String → Option Limit) × Http (Option Principal)
unfolding count_login_attempt
tried b t limits none = (count_login_attempt b t limits, ok none)
tried b t limits (some p) = (limits, ok (some p))

-- A refusal rolls the purge back.
unfoldable pub limited_token_principal :
    (String → Option Principal)
    → String
    → String
    → ℕ
    → (String → Option Limit)
    → (String → Option Limit) × Http (Option Principal)
unfolding purge_limits over_limit count_login_attempt tried
limited_token_principal resolve b token t limits =
    if over_limit login_limit b (purge_limits t limits)
    then (limits, raise 429 "登录尝试过多，请稍后重试")
    else tried b t (purge_limits t limits) (resolve token)
