-- ===== src/Conflicts/Order.antt =====
-- app/conflicts.py, the `sort` of `find_conflicts`: the order of the hits.
use law_review_local.Conflicts.{Hit, hit_le, insert_hit, sort_hits, codes_le, codes}
use law_review_local.Common.{
  ℕ, List, [], ◌∷◌, Bool, true, ◌≡◌, refl, arith, count, false, all, ◌&&◌,
}

codes_le_total : (x y : List ℕ) → codes_le x y ≡ false → codes_le y x ≡ true
codes_le_total [] y h = cc
codes_le_total (x ∷ xs) [] h = refl
codes_le_total (x ∷ xs) (y ∷ ys) h = ground (arith, codes_le_total xs ys)

codes_le_trans : (x y z : List ℕ) → codes_le x y ≡ true → codes_le y z ≡ true → codes_le x z ≡ true
codes_le_trans [] y z h k = refl
codes_le_trans (x ∷ xs) [] z h k = cc
codes_le_trans (x ∷ xs) (y ∷ ys) [] h k = cc
codes_le_trans (x ∷ xs) (y ∷ ys) (z ∷ zs) h k = ground (arith, codes_le_trans xs ys zs)

hit_le_total : (a b : Hit) → hit_le a b ≡ false → hit_le b a ≡ true
unfolding hit_le
hit_le_total a b h = ground (arith, codes_le_total (codes a.our_name) (codes b.our_name))

hit_le_trans : (a b c : Hit) → hit_le a b ≡ true → hit_le b c ≡ true → hit_le a c ≡ true
unfolding hit_le
hit_le_trans a b c h k =
    ground (arith, codes_le_trans (codes a.our_name) (codes b.our_name) (codes c.our_name))

-- Every hit comes before those that follow it.
abbrev pub ordered : List Hit → Bool
ordered [] = true
ordered (h ∷ hs) = all (hit_le h) hs && ordered hs

all-insert_hit :
    (q : Hit → Bool) (h : Hit) (hs : List Hit) → all q (insert_hit h hs) ≡ (q h && all q hs)
unfolding insert_hit
all-insert_hit q h [] = refl
all-insert_hit q h (g ∷ gs) = ground (arith, all-insert_hit q h gs)

all-after :
    (h g : Hit) (gs : List Hit)
    → hit_le h g ≡ true
    → all (hit_le g) gs ≡ true
    → all (hit_le h) gs ≡ true
all-after h g [] a b = refl
all-after h g (k ∷ gs) a b = ground (arith, hit_le_trans h g k, all-after h g gs)

ordered-insert_hit :
    (h : Hit) (hs : List Hit) → ordered hs ≡ true → ordered (insert_hit h hs) ≡ true
unfolding insert_hit
ordered-insert_hit h [] o = refl
ordered-insert_hit h (g ∷ gs) o = ground (
  arith,
  all-insert_hit (hit_le g) h gs,
  all-after h g gs,
  hit_le_total h g,
  ordered-insert_hit h gs,
)

ordered-sort_hits : (hs : List Hit) → ordered (sort_hits hs) ≡ true
unfolding sort_hits
ordered-sort_hits [] = refl
ordered-sort_hits (h ∷ hs) = ordered-insert_hit h (sort_hits hs) (ordered-sort_hits hs)

count-insert_hit :
    (q : Hit → Bool) (h : Hit) (hs : List Hit) → count q (insert_hit h hs) ≡ count q (h ∷ hs)
unfolding insert_hit
count-insert_hit q h [] = refl
count-insert_hit q h (g ∷ gs) = ground (arith, count-insert_hit q h gs)

count-sort_hits : (q : Hit → Bool) (hs : List Hit) → count q (sort_hits hs) ≡ count q hs
unfolding sort_hits
count-sort_hits q [] = refl
count-sort_hits q (h ∷ hs) =
    ground (arith, count-insert_hit q h (sort_hits hs), count-sort_hits q hs)

-- The hits of a check come in order: direct before related conflicts, then by case, then by our
-- party's name; and the sort loses and doubles none, whatever hits one counts.
pub sort_hits-ordered :
    (q : Hit → Bool) (hs : List Hit)
    → (ordered (sort_hits hs) ≡ true) × (count q (sort_hits hs) ≡ count q hs)
sort_hits-ordered q hs = (ordered-sort_hits hs, count-sort_hits q hs)
