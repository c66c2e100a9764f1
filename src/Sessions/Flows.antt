-- ===== src/Sessions/Flows.antt =====
-- app/security.py, `_consume_oidc_flow`: the claim of a login flow by its callback.
use law_review_local.Sessions.{OidcFlow, FlowStore, claims, consume_oidc_flow}
use law_review_local.Common.{
  ℕ, ◌≤◌, String, true, not, none, some, ◌≡◌, refl, arith, List, [], ◌∷◌, keep, find?, Bool-cases,
  inl, inr, str_eq, ◌||◌, ltb, Mem, ◌<◌, find?-Mem, str_eq_iff,
}

claimed_gone :
    (hash : String → String) (state browser : String) (t u : ℕ) (fs : List OidcFlow)
    → t ≤ u
    → find? (claims hash state browser u) (keep (λ f. not (claims hash state browser t f)) fs)
      ≡ none
claimed_gone hash state browser t u [] h = refl
claimed_gone hash state browser t u (f ∷ fs) h =
    ground (arith, claimed_gone hash state browser t u fs h)

-- A login flow is claimed once: the flow that a callback gets is a stored one under the hashes of its
-- own state and browser that had not expired, and a second callback with the same values, at that
-- time or later, gets nothing.
pub consume_oidc_flow-once :
    (hash : String → String) (size : String → ℕ) (state browser : String) (t u : ℕ) (f : OidcFlow)
    (s s' : FlowStore)
    → t ≤ u
    → consume_oidc_flow hash size state browser t s ≡ (s', some f)
    → Mem f s.flows
      × (f.state_hash ≡ hash state)
      × (f.browser_hash ≡ hash browser)
      × (t < f.expires_at)
      × ((consume_oidc_flow hash size state browser u s').1 ≡ none)
unfolding consume_oidc_flow
consume_oidc_flow-once hash size state browser t u f s s' h k =
    elim (Bool-cases (
      str_eq state "" || (str_eq browser "" || (ltb 128 (size state) || ltb 128 (size browser))))) [
        | inl e ↦ absurd (ground (arith, e, k))
        | inr e ↦
            let found : find? (claims hash state browser t) s.flows ≡ some f =
              ground (arith, e, k) in
            let left : s'.flows ≡ keep (λ g. not (claims hash state browser t g)) s.flows =
              ground (arith, e, k) in
            let gone = claimed_gone hash state browser t u s.flows h in
            let (there, tests) = find?-Mem (claims hash state browser t) f s.flows found in
            let own : str_eq f.state_hash (hash state) ≡ true = ground (arith, tests) in
            let here : str_eq f.browser_hash (hash browser) ≡ true = ground (arith, tests) in
            (
              there,
              (str_eq_iff _ _).0 own,
              (str_eq_iff _ _).0 here,
              ground (arith, tests),
              ground (arith, e, left, gone),
            )
      ]
