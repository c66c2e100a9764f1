-- ===== src/BankTransactions/Examples.antt =====
-- app/bank_transactions.py: an example of a statement with one full row and one without an amount.
use law_review_local.BankTransactions.{
  BankLibrary, parse_rows, ParsedTransaction, max_rows, unquantizable, minor,
}
use law_review_local.Common.{
  Option, List, map, is_some, ◌≡◌, str_eq, String, ◌∷◌, leb, true, false, [], length, refl, some,
  none, if◌then◌else◌, ◌&&◌, ◌++◌, not, any,
}
use law_review_local.BankTransactions.Warnings.{is_parsed}
use law_review_local.BankTransactions.Rows.{
  AllUsable, numbered_from, parse_rows-usable, is_some-parse_rows, overflows,
}

abbrev library : BankLibrary
library = record {
  norm_header = λ s. s;
  strip = λ s. s;
  lower = λ s. s;
  contains = λ t w. str_eq t w;
  starts_with = λ t w. false;
  tidy = λ s. s;
  decimal = λ s.
      if str_eq s "NaN" then unquantizable else minor (record { negative = false; units = 1000 });
  date_value = λ s. some s;
  dump = λ ps. "{}";
  fingerprint = λ ps. "f";
}

abbrev headers : List String
headers = "账号" ∷ "收支" ∷ "金额" ∷ "日期" ∷ "交易对手" ∷ []

abbrev statement : List (List String)
statement =
    ("1" ∷ "收入" ∷ "10" ∷ "2024-01-02" ∷ "bo" ∷ [])
    ∷ ("1" ∷ "支出" ∷ "" ∷ "2024-01-03" ∷ "ann" ∷ [])
    ∷ []

abbrev or_empty : Option (List ParsedTransaction) → List ParsedTransaction
or_empty none = []
or_empty (some xs) = xs

abbrev transactions : List ParsedTransaction
unfolding parse_rows
transactions = or_empty (parse_rows library headers statement "s")

parse_rows-usable_example :
    AllUsable transactions × (length transactions ≡ 2) × (numbered_from 2 transactions ≡ true)
unfolding parse_rows
parse_rows-usable_example = parse_rows-usable library headers statement "s" transactions refl

-- The statement with a third row, whose amount is NaN.
abbrev with_nan : List (List String)
with_nan = statement ++ ("1" ∷ "收入" ∷ "NaN" ∷ "2024-01-04" ∷ "ann" ∷ []) ∷ []

is_some-parse_rows_example :
    is_some (parse_rows library headers with_nan "s")
    ≡ (leb 3 max_rows && not (any (overflows library headers) with_nan))
is_some-parse_rows_example = is_some-parse_rows library headers with_nan "s"

nan_refused : parse_rows library headers with_nan "s" ≡ none
unfolding parse_rows
nan_refused = refl

one_parsed : map (λ x. is_parsed x.parse_status) transactions ≡ true ∷ false ∷ []
unfolding transactions
one_parsed = refl
