-- ===== src/Conflicts/Pairing.antt =====
-- app/conflicts.py: the pairing of parties, seen from either of two cases.
use mathlib.Core.Path.{fun_ext}
use law_review_local.Conflicts.{
  Party, Folding, kind, matched_on, all_hits, hits_against, pair_hits, codes_eq, intersects,
  same_code, keys, Hit, PartyRole, match_key,
}
use law_review_local.Common.{
  String, Bool, Option, ◌≡◌, List, false, str_eq, ℕ, ◌++◌, is_some, ap, arith, any, ◌&&◌,
  str_eq_iff, ◌∙◌, ◌||◌, sym, ◌∷◌, [], true, refl, none, some,
}

pub kind_comm : (a b : PartyRole) → kind a b ≡ kind b a
unfolding kind
kind_comm a b = ground arith

pub codes_eq_comm : (x y : List ℕ) → codes_eq x y ≡ codes_eq y x
codes_eq_comm [] [] = refl
codes_eq_comm [] (y ∷ ys) = refl
codes_eq_comm (x ∷ xs) [] = refl
codes_eq_comm (x ∷ xs) (y ∷ ys) = ground (arith, codes_eq_comm xs ys)

str_eq_comm : (a b : String) → str_eq a b ≡ str_eq b a
str_eq_comm a b = ground (arith, str_eq_iff a b, str_eq_iff b a)

same_code_comm : (a b : Option String) → same_code a b ≡ same_code b a
same_code_comm none none = refl
same_code_comm none (some b) = refl
same_code_comm (some a) none = refl
same_code_comm (some a) (some b) =
    ground (arith, str_eq_comm a b, str_eq_iff a b, str_eq_iff a "", str_eq_iff b "")

any-false {ℓ} : {A : Type ℓ} (xs : List A) → any (λ x. false) xs ≡ false
any-false [] = refl
any-false (x ∷ xs) = any-false xs

any-or {ℓ} :
    {A : Type ℓ} (p q : A → Bool) (xs : List A) → any (λ x. p x || q x) xs ≡ (any p xs || any q xs)
any-or p q [] = refl
any-or p q (x ∷ xs) = ground (arith, any-or p q xs)

-- Two nested searches may be exchanged.
pub any-any {ℓ κ} :
    {A : Type ℓ} {B : Type κ} (r : A → B → Bool) (xs : List A) (ys : List B)
    → any (λ x. any (r x) ys) xs ≡ any (λ y. any (λ x. r x y) xs) ys
any-any r [] ys = sym (any-false ys)
any-any r (x ∷ xs) ys = rw (any-or (r x) (λ y. any (λ z. r z y) xs) ys, any-any r xs ys)

intersects_comm : (ks ls : List (List ℕ)) → intersects ks ls ≡ intersects ls ks
intersects_comm ks ls =
    any-any codes_eq ks ls
    ∙ ap (λ t. any t ls) (fun_ext (λ l. ap (λ t. any t ks) (fun_ext (λ k. codes_eq_comm k l))))

abbrev pub conflicts : Folding → Party → Party → Bool
conflicts f p q = is_some (kind p.role q.role) && is_some (matched_on f p q)

pub conflicts_comm : (f : Folding) (p q : Party) → conflicts f p q ≡ conflicts f q p
unfolding matched_on
conflicts_comm f p q = ground (
  arith,
  kind_comm p.role q.role,
  same_code_comm p.credit_code q.credit_code,
  codes_eq_comm (match_key f p.name) (match_key f q.name),
  intersects_comm (keys f p.name p.former_names) (keys f q.name q.former_names),
)

abbrev pub found : List Hit → Bool
found [] = false
found (h ∷ hs) = true

found-append : (a b : List Hit) → found (a ++ b) ≡ (found a || found b)
found-append [] b = refl
found-append (x ∷ a) b = refl

found-pair_hits : (f : Folding) (p q : Party) → found (pair_hits f p q) ≡ conflicts f p q
unfolding pair_hits
found-pair_hits f p q = ground arith

found-hits_against :
    (f : Folding) (p : Party) (qs : List Party)
    → found (hits_against f p qs) ≡ any (conflicts f p) qs
unfolding hits_against
found-hits_against f p [] = refl
found-hits_against f p (q ∷ qs) =
    rw found-append (ground (arith, found-pair_hits f p q, found-hits_against f p qs))

-- A hit is found exactly when some pair of parties conflicts.
pub found-all_hits :
    (f : Folding) (ps qs : List Party)
    → found (all_hits f ps qs) ≡ any (λ p. any (conflicts f p) qs) ps
unfolding all_hits
found-all_hits f [] qs = refl
found-all_hits f (p ∷ ps) qs =
    rw found-append (ground (arith, found-hits_against f p qs, found-all_hits f ps qs))

-- The parties of one case conflict with those of another exactly when the parties of the other
-- conflict with those of the one.
pub found-all_hits_comm :
    (f : Folding) (ps qs : List Party) → found (all_hits f ps qs) ≡ found (all_hits f qs ps)
found-all_hits_comm f ps qs =
    rw (found-all_hits f ps qs, found-all_hits f qs ps, any-any (conflicts f) ps qs)
      (ap (λ t. any t qs) (fun_ext (λ q. ap (λ t. any t ps) (fun_ext (λ p. conflicts_comm f p q)))))
