-- ===== src/BankTransactions/Rows.antt =====
-- app/bank_transactions.py: what the parsed rows of a statement hold.
use law_review_local.BankTransactions.{
  BankLibrary, amount_minor, amount, Minor, parse_from, parse_row, ParsedTransaction, cell_at,
  header_map, prepend, parse_rows, max_rows, Decimal, parsed_row, minor_of, with_amount, minor,
  no_number, unquantizable,
}
use law_review_local.Common.{
  Bool, List, Option, ◌≡◌, String, ℕ, [], str_eq, All, false, ◌∷◌, refl, true, is_some, Bool-cases,
  ◌&&◌, inl, not, inr, ◌∙◌, arith, some, ◌⊎◌, none, length, take, ◌==◌, ◌≤◌, ltb, suc, leb, ap,
  subst, ==_self, ◌+◌, any, ◌||◌,
}
use law_review_local.BankTransactions.Warnings.{IsUsable, is_parsed, parsed_row-IsUsable}

-- The row numbers go up one by one from the first.
abbrev pub numbered_from : ℕ → List ParsedTransaction → Bool
numbered_from n [] = true
numbered_from n (x ∷ xs) = (x.source_row_number == n) && numbered_from (suc n) xs

abbrev pub AllUsable : List ParsedTransaction → Type 0
AllUsable out = All (λ x. IsUsable x ⊎ (is_parsed x.parse_status ≡ false)) out

abbrev Faithful : ℕ → ℕ → Option (List ParsedTransaction) → Type 0
Faithful n k none = Unit {0}
Faithful n k (some out) = AllUsable out × (length out ≡ k) × (numbered_from n out ≡ true)

prepend-Faithful :
    (x : ParsedTransaction) (n k : ℕ) (o : Option (List ParsedTransaction))
    → (is_parsed x.parse_status ≡ true → IsUsable x)
    → x.source_row_number ≡ n
    → Faithful (suc n) k o
    → Faithful n (suc k) (prepend (some x) o)
prepend-Faithful x n k none usable at h = tt
prepend-Faithful x n k (some out) usable at (all_good, len, nums) = (
  (
    elim (Bool-cases (is_parsed x.parse_status)) [ inl e ↦ inl (usable e) | inr e ↦ inr e ],
    all_good,
  ),
  ap (λ z. suc z) len,
  rw at (rw (==_self n) nums),
)

row-Faithful :
    (l : BankLibrary) (headers : List String) (sheet : String) (n k : ℕ) (values : List String)
    (m : Option (Option Minor)) (o : Option (List ParsedTransaction))
    → Faithful (suc n) k o
    → Faithful n (suc k) (prepend (with_amount (parsed_row l headers sheet n values) m) o)
unfolding parsed_row
row-Faithful l headers sheet n k values none o h = tt
row-Faithful l headers sheet n k values (some m) o h =
    prepend-Faithful (parsed_row l headers sheet n values m) n k o
      (parsed_row-IsUsable l headers sheet n values m) refl h

parse_from-Faithful :
    (l : BankLibrary) (headers : List String) (sheet : String) (n : ℕ) (rows : List (List String))
    → Faithful n (length rows) (parse_from l headers sheet n rows)
unfolding parse_from parse_row
parse_from-Faithful l headers sheet n [] = (tt, refl, refl)
parse_from-Faithful l headers sheet n (values ∷ rows) = elim (Bool-cases (ltb (max_rows + 1) n)) [
  | inl e ↦ rw e tt
  | inr e ↦ rw e (
      row-Faithful l headers sheet n (length rows) values
        (amount_minor l (cell_at l (header_map l headers amount) (take (length headers) values)))
        (parse_from l headers sheet (suc n) rows)
        (parse_from-Faithful l headers sheet (suc n) rows))
]

abbrev pub is_unquantizable : Decimal → Bool
is_unquantizable no_number = false
is_unquantizable unquantizable = true
is_unquantizable (minor m) = false

-- Whether the amount of a row is a number that cannot be given in minor units.
abbrev pub overflows : BankLibrary → List String → List String → Bool
overflows l headers values =
    let text = l.tidy (cell_at l (header_map l headers amount) (take (length headers) values)) in
    not (str_eq text "") && is_unquantizable (l.decimal text)

minor_of-is_some : (d : Decimal) → is_some (minor_of d) ≡ not (is_unquantizable d)
minor_of-is_some no_number = refl
minor_of-is_some unquantizable = refl
minor_of-is_some (minor m) = refl

is_some-with_amount :
    (row : Option Minor → ParsedTransaction) (m : Option (Option Minor))
    → is_some (with_amount row m) ≡ is_some m
is_some-with_amount row none = refl
is_some-with_amount row (some m) = refl

bounds :
    (a b : Bool) (n k : ℕ)
    → (not a && (leb (suc n + k) (max_rows + 2) && not b))
      ≡ (leb (n + suc k) (max_rows + 2) && not (a || b))
bounds a b n k = ground arith

parse_row-overflows :
    (l : BankLibrary) (headers : List String) (sheet : String) (n : ℕ) (values : List String)
    → is_some (parse_row l headers sheet n values) ≡ not (overflows l headers values)
unfolding parse_row amount_minor
parse_row-overflows l headers sheet n values =
    let text = l.tidy (cell_at l (header_map l headers amount) (take (length headers) values)) in
    elim (Bool-cases (str_eq text "")) [
      | inl e ↦ rw e refl
      | inr e ↦
          rw e
            (is_some-with_amount _ (minor_of (l.decimal text)) ∙ minor_of-is_some (l.decimal text))
    ]

is_some-prepend :
    (x : Option ParsedTransaction) (o : Option (List ParsedTransaction))
    → is_some (prepend x o) ≡ (is_some x && is_some o)
is_some-prepend none o = refl
is_some-prepend (some x) none = refl
is_some-prepend (some x) (some xs) = refl

is_some-parse_from :
    (l : BankLibrary) (headers : List String) (sheet : String) (n : ℕ) (rows : List (List String))
    → n ≤ max_rows + 2
    → is_some (parse_from l headers sheet n rows)
      ≡ (leb (n + length rows) (max_rows + 2) && not (any (overflows l headers) rows))
unfolding parse_from
is_some-parse_from l headers sheet n [] h = ground (arith, h)
is_some-parse_from l headers sheet n (values ∷ rows) h = elim (Bool-cases (ltb (max_rows + 1) n)) [
  | inl e ↦ rw e (ground (arith, e))
  | inr e ↦
      let rest = is_some-parse_from l headers sheet (suc n) rows (ground (arith, e)) in
      let here = parse_row-overflows l headers sheet n values in
      rw e (
        is_some-prepend (parse_row l headers sheet n values)
          (parse_from l headers sheet (suc n) rows)
        ∙ rw (here, rest)
            (bounds (overflows l headers values) (any (overflows l headers) rows) n (length rows)))
]

-- A statement is parsed exactly when it has no more than `max_rows` rows and the amount of none of
-- them is a number, like NaN, Infinity or 1E30, that cannot be given in minor units.
pub is_some-parse_rows :
    (l : BankLibrary) (headers : List String) (rows : List (List String)) (sheet : String)
    → is_some (parse_rows l headers rows sheet)
      ≡ (leb (length rows) max_rows && not (any (overflows l headers) rows))
unfolding parse_rows
is_some-parse_rows l headers rows sheet =
    is_some-parse_from l headers sheet 2 rows (omega arith) ∙ ground arith

-- A parsed statement has one transaction for each row, numbered from 2 on as in the file, and each of
-- them needs review unless it has an account, a counterparty, an amount, a date and a direction.
pub parse_rows-usable :
    (l : BankLibrary) (headers : List String) (rows : List (List String)) (sheet : String)
    (out : List ParsedTransaction)
    → parse_rows l headers rows sheet ≡ some out
    → AllUsable out × (length out ≡ length rows) × (numbered_from 2 out ≡ true)
unfolding parse_rows
parse_rows-usable l headers rows sheet out h =
    subst (Faithful 2 (length rows)) h (parse_from-Faithful l headers sheet 2 rows)
