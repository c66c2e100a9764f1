-- ===== src/Conflicts/Names.antt =====
-- app/conflicts.py, `match_key`: which legal forms are cut off.
use mathlib.Core.List.{append_assoc}
use law_review_local.Conflicts.{
  codes, codes_eq, Folding, ends_with, strip_form, legal_forms, bare_name, match_key,
}
use law_review_local.Common.{
  List, String, drop, take, ℕ, ◌≡◌, length, ◌++◌, arith, ◌-◌, ◌∷◌, length-append, ap, [], refl,
  false, true, ◌<◌, Bool-cases, ◌≤◌, ◌∙◌, suc, inl, zero, ◌≢◌, sym, inr,
}

drop-append {ℓ} : {A : Type ℓ} (u s : List A) → drop (length u) (u ++ s) ≡ s
drop-append [] s = refl
drop-append (x ∷ u) s = drop-append u s

take-append {ℓ} : {A : Type ℓ} (u s : List A) → take (length u) (u ++ s) ≡ u
take-append [] s = refl
take-append (x ∷ u) s = ap (λ l. x ∷ l) (take-append u s)

prefix-length {ℓ} :
    {A : Type ℓ} (u s : List A) (n : ℕ) → length s ≡ n → length (u ++ s) - n ≡ length u
prefix-length u s n h = omega (arith, length-append u s)

-- A suffix of the same length is compared in full.
ends_with-append : (u s t : List ℕ) → length s ≡ length t → ends_with t (u ++ s) ≡ codes_eq s t
unfolding ends_with
ends_with-append u s t h =
    rw (prefix-length u s (length t) h, drop-append u s) (ground (arith, length-append u s))

cut-append : (u s t : List ℕ) → length s ≡ length t → take (length (u ++ s) - length t) (u ++ s) ≡ u
cut-append u s t h = rw (prefix-length u s (length t) h, take-append u s)

-- The third form of the list is the first that fits.
strip-third :
    (v w : List ℕ)
    → ends_with (codes "股份有限公司") v ≡ false
    → ends_with (codes "有限责任公司") v ≡ false
    → ends_with (codes "有限公司") v ≡ true
    → 5 < length v
    → take (length v - 4) v ≡ w
    → strip_form legal_forms v ≡ w
unfolding strip_form legal_forms
strip-third v w a b c n e = rw (a, b, c) (ground arith)

regroup : (u : List ℕ) → (u ++ codes "集团") ++ codes "有限公司" ≡ u ++ codes "集团有限公司"
regroup u = append_assoc u (codes "集团") (codes "有限公司")

group_fits : (u : List ℕ) → ends_with (codes "有限公司") (u ++ codes "集团有限公司") ≡ true
group_fits u =
    rw (← regroup u) (ends_with-append (u ++ codes "集团") (codes "有限公司") (codes "有限公司") refl)

group_cut :
    (u : List ℕ) → take (length (u ++ codes "集团有限公司") - 4) (u ++ codes "集团有限公司") ≡ u ++ codes "集团"
group_cut u = rw (← regroup u) (cut-append (u ++ codes "集团") (codes "有限公司") (codes "有限公司") refl)

-- A name that ends in 集团有限公司 loses 有限公司 only, and keeps 集团: the entry 集团有限公司 of the
-- list is never the one that is cut off.
pub match_key-group_company :
    (f : Folding) (name : String) (u : List ℕ)
    → bare_name f name ≡ u ++ codes "集团有限公司"
    → match_key f name ≡ u ++ codes "集团"
unfolding match_key
match_key-group_company f name u h = rw h (
    strip-third (u ++ codes "集团有限公司") (u ++ codes "集团")
      (ends_with-append u (codes "集团有限公司") (codes "股份有限公司") refl)
      (ends_with-append u (codes "集团有限公司") (codes "有限责任公司") refl) (group_fits u)
      (omega (arith, length-append u (codes "集团有限公司"))) (group_cut u))

codes_eq_sound : (x y : List ℕ) → codes_eq x y ≡ true → x ≡ y
codes_eq_sound [] [] h = refl
codes_eq_sound [] (y ∷ ys) h = cc
codes_eq_sound (x ∷ xs) [] h = cc
codes_eq_sound (x ∷ xs) (y ∷ ys) h = ground (arith, codes_eq_sound xs ys)

codes_eq_self : (x : List ℕ) → codes_eq x x ≡ true
codes_eq_self [] = refl
codes_eq_self (x ∷ xs) = ground (arith, codes_eq_self xs)

take-append-drop {ℓ} : {A : Type ℓ} (n : ℕ) (xs : List A) → take n xs ++ drop n xs ≡ xs
take-append-drop zero xs = refl
take-append-drop (suc n) [] = refl
take-append-drop (suc n) (x ∷ xs) = rw (take-append-drop n xs)

-- A name with a suffix has every suffix of that suffix.
ends_with-suffix : (t a v : List ℕ) → ends_with (t ++ a) v ≡ true → ends_with a v ≡ true
ends_with-suffix t a v h =
    let k : ℕ = length v - length (t ++ a) in
    let e : drop k v ≡ t ++ a = codes_eq_sound _ _ (unfold ends_with in ground arith) in
    let w : (take k v ++ t) ++ a ≡ v =
      append_assoc (take k v) t a ∙ (ap (λ l. take k v ++ l) (sym e) ∙ take-append-drop k v) in
    rw (← w) (ends_with-append (take k v ++ t) a a refl ∙ codes_eq_self a)

no_company : (u t : List ℕ) → ends_with (t ++ codes "公司") (u ++ codes "集团") ≡ false
no_company u t = elim (Bool-cases (ends_with (t ++ codes "公司") (u ++ codes "集团"))) [
  | inl e ↦
      let k : codes_eq (codes "集团") (codes "公司") ≡ true =
        sym (ends_with-append u (codes "集团") (codes "公司") refl)
        ∙ ends_with-suffix t (codes "公司") (u ++ codes "集团") e in
      cc k
  | inr e ↦ e
]

strip-sixth :
    (v w : List ℕ)
    → ((t : List ℕ) → ends_with (t ++ codes "公司") v ≡ false)
    → ends_with (codes "集团") v ≡ true
    → 3 < length v
    → take (length v - 2) v ≡ w
    → strip_form legal_forms v ≡ w
unfolding strip_form legal_forms
strip-sixth v w a c n e =
    rw (a (codes "股份有限"), a (codes "有限责任"), a (codes "有限"), a (codes "集团有限"), a (codes "集团"), c)
      (ground arith)

-- A name of at least two characters before 集团 loses 集团.
pub match_key-group :
    (f : Folding) (name : String) (u : List ℕ)
    → bare_name f name ≡ u ++ codes "集团"
    → 2 ≤ length u
    → match_key f name ≡ u
unfolding match_key
match_key-group f name u h n = rw h (
    strip-sixth (u ++ codes "集团") u (no_company u)
      (ends_with-append u (codes "集团") (codes "集团") refl)
      (omega (arith, length-append u (codes "集团"))) (cut-append u (codes "集团") (codes "集团") refl))

-- So a group is not recognised under its two spellings: for any name part of two characters or
-- more, the name that ends in 集团有限公司 and the name that ends in 集团 have different keys.
pub match_key-groups_differ :
    (f : Folding) (a b : String) (u : List ℕ)
    → bare_name f a ≡ u ++ codes "集团有限公司"
    → bare_name f b ≡ u ++ codes "集团"
    → 2 ≤ length u
    → match_key f a ≢ match_key f b
match_key-groups_differ f a b u ha hb n e =
    let same : u ++ codes "集团" ≡ u =
      sym (match_key-group_company f a u ha) ∙ (e ∙ match_key-group f b u hb n) in
    absurd (omega (arith, length-append u (codes "集团"), ap length same))
