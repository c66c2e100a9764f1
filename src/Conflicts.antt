-- ===== src/Conflicts.antt =====
-- app/conflicts.py: party names, the pairing of two cases' parties, and the hits of a check.
-- `unicodedata.normalize`, `lower` and the white space of `re` are given by a `Folding`. A party row
-- carries no title and no number of its case: the case's id stands for them.
pub mod Names
pub mod Pairing
pub mod Order
pub mod Clearance
mod Examples
use Prim.Native.Char.{code}
use law_review_local.Common.{
  ℕ, ◌+◌, ◌-◌, String, Bool, true, false, not, ◌&&◌, ◌||◌, Option, none, some, List, [], ◌∷◌, ◌++◌,
  map, keep, any, length, take, drop, is_some, str_eq, ◌==◌, ltb, leb, if◌then◌else◌,
}

-- The code points of a text.
abbrev pub codes : String → List ℕ
codes String.[] = []
codes (String.◌∷◌ c s) = code c ∷ codes s

abbrev pub codes_eq : List ℕ → List ℕ → Bool
codes_eq [] [] = true
codes_eq [] (y ∷ ys) = false
codes_eq (x ∷ xs) [] = false
codes_eq (x ∷ xs) (y ∷ ys) = (x == y) && codes_eq xs ys

-- What the standard library does to a name: NFKC and lower case, and the class `\s`.
pub record Folding : Type 0 where
  pub fold : String → List ℕ
  pub is_space : ℕ → Bool

-- The characters of `_PUNCTUATION` other than `\s`.
abbrev pub punctuation : List ℕ
punctuation = codes "·•．.,，、;；:：()（）[]【】{}<>《》'“”‘’`-—_/" ++ 0x22 ∷ 0x5c ∷ []

unfoldable pub legal_forms : List (List ℕ)
legal_forms =
    codes "股份有限公司"
    ∷ codes "有限责任公司"
    ∷ codes "有限公司"
    ∷ codes "集团有限公司"
    ∷ codes "集团公司"
    ∷ codes "集团"
    ∷ codes "公司"
    ∷ []

-- `value.endswith(suffix)`
unfoldable pub ends_with : List ℕ → List ℕ → Bool
ends_with suffix value =
    leb (length suffix) (length value)
    && codes_eq (drop (length value - length suffix) value) suffix

-- The loop of `match_key`: the first form of the list that fits is cut off.
unfoldable pub strip_form : List (List ℕ) → List ℕ → List ℕ
unfolding ends_with
strip_form [] value = value
strip_form (form ∷ forms) value =
    let rest = strip_form forms value in
    if ends_with form value && ltb (length form + 1) (length value)
    then take (length value - length form) value
    else rest

unfoldable pub bare_name : Folding → String → List ℕ
bare_name f name = keep (λ c. not (f.is_space c || any (λ d. d == c) punctuation)) (f.fold name)

unfoldable pub match_key : Folding → String → List ℕ
unfolding strip_form legal_forms bare_name
match_key f name = strip_form legal_forms (bare_name f name)

pub data PartyRole : Type 0 where
  client opposing related : PartyRole

pub record Party : Type 0 where
  pub case_id : ℕ
  pub role : PartyRole
  pub name : String
  pub former_names : List String
  pub credit_code : Option String

abbrev pub nonempty : List ℕ → Bool
nonempty [] = false
nonempty (x ∷ xs) = true

-- `_keys`; the set is read through intersection only.
unfoldable pub keys : Folding → String → List String → List (List ℕ)
unfolding match_key
keys f name former = keep nonempty (map (match_key f) (name ∷ former))

pub data Kind : Type 0 where
  direct indirect : Kind

-- `_kind`; `indirect` is the kind that the program spells "related".
unfoldable pub kind : PartyRole → PartyRole → Option Kind
kind client opposing = some direct
kind opposing client = some direct
kind related client = some indirect
kind related opposing = some indirect
kind client related = some indirect
kind opposing related = some indirect
kind client client = none
kind opposing opposing = none
kind related related = none

pub data MatchedOn : Type 0 where
  by_credit_code by_name by_former_name : MatchedOn

-- `ours["credit_code"] and ours["credit_code"] == theirs["credit_code"]`; a code that is the empty
-- text counts as none.
abbrev pub same_code : Option String → Option String → Bool
same_code none b = false
same_code (some a) none = false
same_code (some a) (some b) = not (str_eq a "") && str_eq a b

abbrev pub intersects : List (List ℕ) → List (List ℕ) → Bool
intersects ks ls = any (λ k. any (codes_eq k) ls) ks

unfoldable pub matched_on : Folding → Party → Party → Option MatchedOn
unfolding keys match_key
matched_on f ours theirs =
    if same_code ours.credit_code theirs.credit_code
    then some by_credit_code
    else if codes_eq (match_key f ours.name) (match_key f theirs.name)
    then some by_name
    else if intersects (keys f ours.name ours.former_names) (keys f theirs.name theirs.former_names)
    then some by_former_name
    else none

pub record Hit : Type 0 where
  pub kind : Kind
  pub matched_on : MatchedOn
  pub our_role : PartyRole
  pub our_name : String
  pub case_id : ℕ
  pub their_role : PartyRole
  pub their_name : String

abbrev hit : Party → Party → Option Kind → Option MatchedOn → List Hit
hit ours theirs none m = []
hit ours theirs (some k) none = []
hit ours theirs (some k) (some m) =
    record {
      kind = k;
      matched_on = m;
      our_role = ours.role;
      our_name = ours.name;
      case_id = theirs.case_id;
      their_role = theirs.role;
      their_name = theirs.name;
    }
    ∷ []

-- The body of the two loops, for one pair.
unfoldable pub pair_hits : Folding → Party → Party → List Hit
unfolding kind matched_on
pair_hits f ours theirs = hit ours theirs (kind ours.role theirs.role) (matched_on f ours theirs)

unfoldable pub hits_against : Folding → Party → List Party → List Hit
unfolding pair_hits
hits_against f ours [] = []
hits_against f ours (theirs ∷ rest) = pair_hits f ours theirs ++ hits_against f ours rest

unfoldable pub all_hits : Folding → List Party → List Party → List Hit
unfolding hits_against
all_hits f [] others = []
all_hits f (ours ∷ rest) others = hits_against f ours others ++ all_hits f rest others

abbrev pub is_direct : Kind → Bool
is_direct direct = true
is_direct indirect = false

-- `<=` on texts, by their code points.
abbrev pub codes_le : List ℕ → List ℕ → Bool
codes_le [] ys = true
codes_le (x ∷ xs) [] = false
codes_le (x ∷ xs) (y ∷ ys) = ltb x y || ((x == y) && codes_le xs ys)

-- `<=` on the sort key `(kind != "direct", case_id, our_party.name)`.
abbrev pub rank : Kind → ℕ
rank direct = 0
rank indirect = 1

unfoldable pub hit_le : Hit → Hit → Bool
hit_le a b =
    ltb (rank a.kind) (rank b.kind)
    || ((rank a.kind == rank b.kind)
        && (ltb a.case_id b.case_id
            || ((a.case_id == b.case_id) && codes_le (codes a.our_name) (codes b.our_name))))

-- A stable insertion sort, for `list.sort`.
unfoldable pub insert_hit : Hit → List Hit → List Hit
unfolding hit_le
insert_hit h [] = h ∷ []
insert_hit h (g ∷ gs) = if hit_le h g then h ∷ g ∷ gs else g ∷ insert_hit h gs

unfoldable pub sort_hits : List Hit → List Hit
unfolding insert_hit
sort_hits [] = []
sort_hits (h ∷ hs) = insert_hit h (sort_hits hs)

-- `find_conflicts` over the parties of the whole firm.
unfoldable pub find_conflicts : Folding → ℕ → List Party → List Party → List Hit
unfolding all_hits sort_hits
find_conflicts f c parties firm =
    sort_hits (all_hits f parties (keep (λ p. not (p.case_id == c)) firm))
