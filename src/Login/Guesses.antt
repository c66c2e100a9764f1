-- ===== src/Login/Guesses.antt =====
-- app/security.py: sequences of login attempts from one address.
use law_review_local.Login.{
  Limit, login_limit, limited_token_principal, count_login_attempt, purge_limits, over_limit,
}
use law_review_local.Access.{Principal}
use law_review_local.Common.{
  ℕ, ◌+◌, ◌≤◌, ◌<◌, ◌≡◌, String, Option, none, some, List, [], ◌∷◌, All, Http, ok, raise, arith,
  str_eq_refl, Bool-cases, leb, inl, inr, Option-cases,
}

-- Whether the token was tested and found unknown.
abbrev pub missed : Http (Option Principal) → ℕ
missed (ok none) = 1
missed (ok (some p)) = 0
missed (raise n d) = 0

-- The number of wrong tokens that are tested in a sequence of attempts.
pub misses : (String → Option Principal) → String → List (String × ℕ) → (String → Option Limit) → ℕ
misses resolve b [] limits = 0
misses resolve b ((token, t) ∷ rest) limits =
    let out = limited_token_principal resolve b token t limits in
    missed out.1 + misses resolve b rest out.0

data Tried (resolve : String → Option Principal) (b : String) (token : String) (t : ℕ) (l : Limit)
    (limits : String → Option Limit) : Type 0 where
  refused :
      missed (limited_token_principal resolve b token t limits).1 ≡ 0
      → (limited_token_principal resolve b token t limits).0 b ≡ some l
      → Tried resolve b token t l limits
  counted :
      missed (limited_token_principal resolve b token t limits).1 ≡ 1
      → l.attempts < login_limit
      → (limited_token_principal resolve b token t limits).0 b
        ≡ some (record l { attempts = l.attempts + 1 })
      → Tried resolve b token t l limits

limited_token_principal-Tried :
    (resolve : String → Option Principal) (b token : String) (t : ℕ) (l : Limit)
    (limits : String → Option Limit)
    → limits b ≡ some l
    → t < l.expires_at
    → Tried resolve b token t l limits
unfolding limited_token_principal over_limit purge_limits count_login_attempt
limited_token_principal-Tried resolve b token t l limits h k =
    let alive : purge_limits t limits b ≡ some l = ground arith in
    elim (Bool-cases (leb login_limit l.attempts)) [
      | inl full ↦ refused (ground (arith, full, alive)) (ground (arith, full, alive))
      | inr few ↦ elim (Option-cases (resolve token)) [
        | inl e ↦
            counted (ground (arith, few, alive, e)) (ground (arith, few))
              (ground (arith, few, alive, e, str_eq_refl b))
        | inr (p, e) ↦ refused (ground (arith, few, alive, e)) (ground (arith, few, alive, e))
      ]
    ]

-- While a bucket's window lasts, at most `login_limit` wrong tokens are tested from it: however many
-- attempts follow and whatever they try, the tested wrong ones and those counted before are no more.
pub misses_bound :
    (resolve : String → Option Principal) (b : String) (attempts : List (String × ℕ)) (l : Limit)
    (limits : String → Option Limit)
    → limits b ≡ some l
    → l.attempts ≤ login_limit
    → All (λ a. a.1 < l.expires_at) attempts
    → misses resolve b attempts limits + l.attempts ≤ login_limit
unfolding misses
misses_bound resolve b [] l limits h k w = omega (arith, k)
misses_bound resolve b ((token, t) ∷ rest) l limits h k w =
    let after : String → Option Limit = (limited_token_principal resolve b token t limits).0 in
    elim (limited_token_principal-Tried resolve b token t l limits h w.0) [
      | refused m at ↦ omega (arith, m, misses_bound resolve b rest l after at k w.1)
      | counted m few at ↦ omega (
        arith,
        m,
        misses_bound resolve b rest (record l { attempts = l.attempts + 1 }) after at
            (omega (arith, few)) w.1,
      )
    ]
