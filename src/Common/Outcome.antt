-- ===== src/Common/Outcome.antt =====
-- The outcome of a handler: a body, or the status and the detail of an `HTTPException`.
use Prim.Native.Nat.{ℕ}
use Prim.Native.String.{String}
use mathlib.Core.Path.{◌≡◌, refl}
use mathlib.Core.Bool.{Bool, true, false}
use native.Mathlib.Omega.{arith}

pub data Http {ℓ} (Body : Type ℓ) : Type ℓ where
  ok : Body → Http Body
  raise : ℕ → String → Http Body

abbrev pub succeeded {ℓ} : {Body : Type ℓ} → Http Body → Bool
succeeded (ok body) = true
succeeded (raise status detail) = false

-- `if not test: raise HTTPException(status, detail)`
abbrev pub require : Bool → ℕ → String → Http (Unit {0})
require true status detail = ok tt
require false status detail = raise status detail

-- The statements after a call that may raise.
module _ {ℓ κ} {Body : Type ℓ} {Next : Type κ} where
  infixl 5 ◌>>=◌
  abbrev pub ◌>>=◌ : Http Body → (Body → Http Next) → Http Next
  raise status detail >>= rest = raise status detail
  ok body >>= rest = rest body

infixl 5 ◌>>◌
abbrev pub ◌>>◌ {κ} : {Next : Type κ} → Http (Unit {0}) → Http Next → Http Next
test >> rest = test >>= (λ done. rest)

-- A chain that ends well has a first part that did.
pub >>=-eq-ok {ℓ κ} :
    {Body : Type ℓ} {Next : Type κ} (call : Http Body) (rest : Body → Http Next) {end : Next}
    → (call >>= rest) ≡ ok end
    → (body : Body) × (call ≡ ok body) × (rest body ≡ ok end)
>>=-eq-ok (raise status detail) rest e = absurd (ground (arith, e))
>>=-eq-ok (ok body) rest e = (body, refl, e)

pub require-eq-ok : (b : Bool) (s : ℕ) (d : String) {u : Unit {0}} → require b s d ≡ ok u → b ≡ true
require-eq-ok true s d h = refl
require-eq-ok false s d h = cc

pub succeeded-ok {ℓ} : {A : Type ℓ} (m : Http A) → succeeded m ≡ true → (a : A) × (m ≡ ok a)
succeeded-ok (ok a) h = (a, refl)
succeeded-ok (raise s d) h = cc
