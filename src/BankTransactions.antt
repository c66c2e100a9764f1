-- ===== src/BankTransactions.antt =====
-- app/bank_transactions.py: the rows of a bank statement. Regular expressions, `Decimal` and JSON are
-- arguments: `tidy` is what `_amount_minor` does to a text before `decimal`, which gives the rounded
-- minor units or says what fails. Cells are texts already, as `_cell_text` gives them, cut to their length.
pub mod Warnings
pub mod Rows
mod Examples
use law_review_local.Common.{
  ℕ, Bool, Option, List, String, none, true, if◌then◌else◌, any, ◌∷◌, map, take, some, keep,
  is_some, ◌++◌, str_eq, not, length, false, suc, [], ltb, zero, ◌&&◌, ◌+◌,
}

abbrev pub max_rows : ℕ
max_rows = 100000

pub data Field : Type 0 where
  account direction amount time counterparty memo currency : Field

abbrev pub aliases : Field → List String
aliases account = "账号" ∷ "卡号" ∷ "账户" ∷ "本方账号" ∷ "账户号码" ∷ []
aliases direction = "收支方向" ∷ "借贷标志" ∷ "借贷方向" ∷ "收支" ∷ []
aliases amount = "交易金额" ∷ "发生额" ∷ "金额" ∷ "交易数额" ∷ []
aliases time = "交易日期" ∷ "交易时间" ∷ "日期" ∷ "入账日期" ∷ []
aliases counterparty = "对方户名" ∷ "交易对手" ∷ "对方账户" ∷ "对方账号" ∷ "交易对方" ∷ []
aliases memo = "摘要" ∷ "备注" ∷ "附言" ∷ "用途" ∷ []
aliases currency = "币种" ∷ "货币" ∷ []

-- Minor units with their sign.
pub record Minor : Type 0 where
  pub negative : Bool
  pub units : ℕ

-- `Decimal(text)` and what follows: `Decimal` refuses the text, or takes it, and then `quantize` or
-- `int` raises, as for NaN, Infinity and 1E30, or gives minor units.
pub data Decimal : Type 0 where
  no_number unquantizable : Decimal
  minor : Minor → Decimal

pub record BankLibrary : Type 0 where
  pub norm_header : String → String
  pub strip : String → String
  pub lower : String → String
  pub contains : String → String → Bool
  pub starts_with : String → String → Bool
  pub tidy : String → String
  pub decimal : String → Decimal
  pub date_value : String → Option String
  pub dump : List (String × String) → String
  pub fingerprint : List (String × String) → String

abbrev pub index_of : (String → Bool) → List String → Option ℕ
index_of p [] = none
index_of p (h ∷ hs) = let rest = index_of p hs in if p h then some 0 else after rest
  where
    after : Option ℕ → Option ℕ
    after none = none
    after (some i) = some (suc i)

unfoldable pub header_map : BankLibrary → List String → Field → Option ℕ
header_map l headers f =
    index_of (λ h. any (λ a. str_eq (l.norm_header a) h) (aliases f)) (map l.norm_header headers)

abbrev pub minor_of : Decimal → Option (Option Minor)
minor_of no_number = some none
minor_of unquantizable = none
minor_of (minor m) = some (some m)

-- `_amount_minor`: an amount or none, or else an exception that nothing catches.
unfoldable pub amount_minor : BankLibrary → String → Option (Option Minor)
amount_minor l raw = if str_eq (l.tidy raw) "" then some none else minor_of (l.decimal (l.tidy raw))

pub data Direction : Type 0 where
  inflow outflow unknown : Direction

abbrev inflow_words : List String
inflow_words = "收入" ∷ "贷" ∷ "借方" ∷ "存入" ∷ "入账" ∷ "inflow" ∷ "credit" ∷ []

abbrev outflow_words : List String
outflow_words = "支出" ∷ "借" ∷ "贷方" ∷ "转出" ∷ "出账" ∷ "outflow" ∷ "debit" ∷ []

unfoldable pub direction_of : BankLibrary → String → Option Minor → Direction
direction_of l raw a =
    if any (λ w. l.contains (l.lower (l.strip raw)) w) inflow_words
    then inflow
    else if any (λ w. l.contains (l.lower (l.strip raw)) w) outflow_words
    then outflow
    else if is_some a && l.starts_with (l.strip raw) "-"
    then outflow
    else unknown

pub data Warning : Type 0 where
  missing missing_value : Field → Warning
  invalid_amount invalid_date missing_direction ambiguous_direction : Warning

pub data ParseStatus : Type 0 where
  parsed needs_review : ParseStatus

pub record ParsedTransaction : Type 0 where
  pub account : String
  pub direction : Direction
  pub amount_minor : Option ℕ
  pub currency : String
  pub amount_raw : String
  pub transaction_time : Option String
  pub time_raw : String
  pub counterparty : String
  pub memo : String
  pub source_sheet : String
  pub source_row_number : ℕ
  pub raw_row_json : String
  pub parse_status : ParseStatus
  pub warnings : List Warning
  pub row_fingerprint : String

abbrev pub cell : ℕ → List String → String
cell i [] = ""
cell zero (c ∷ cs) = c
cell (suc i) (c ∷ cs) = cell i cs

abbrev pub cell_at : BankLibrary → Option ℕ → List String → String
cell_at l none row = ""
cell_at l (some i) row = l.strip (cell i row)

abbrev pub required : List Field
required = account ∷ amount ∷ time ∷ counterparty ∷ []

abbrev pub missing_fields : (Field → Option ℕ) → List Field
missing_fields mapping = keep (λ f. not (is_some (mapping f))) required

-- The pairs of the dictionary `raw`; a cell that the row does not have is empty.
abbrev pub raw_row : List String → List String → List (String × String)
raw_row [] row = []
raw_row (h ∷ hs) [] = (h, "") ∷ raw_row hs []
raw_row (h ∷ hs) (c ∷ cs) = (h, c) ∷ raw_row hs cs

abbrev pub when : Bool → Warning → List Warning
when b w = if b then w ∷ [] else []

abbrev is_unknown : Direction → Bool
is_unknown unknown = true
is_unknown _ = false

abbrev absolute : Option Minor → Option ℕ
absolute none = none
absolute (some m) = some m.units

-- The warnings of a row, given how its cells are looked up and its amount.
unfoldable pub row_warnings :
    BankLibrary → (Field → Option ℕ) → (Field → String) → Option Minor → List Warning
unfolding direction_of
row_warnings l mapping get a =
    map missing (missing_fields mapping)
    ++ (map missing_value (keep (λ f. is_some (mapping f) && str_eq (get f) "") required)
        ++ (when (not (is_some a) && not (str_eq (get amount) "")) invalid_amount
            ++ (when (not (is_some (l.date_value (get time))) && not (str_eq (get time) ""))
                  invalid_date
                ++ when (is_unknown (direction_of l (get direction) a)) (
                    if is_some (mapping direction)
                    then ambiguous_direction
                    else missing_direction))))

abbrev pub status_of : List Warning → ParseStatus
status_of [] = parsed
status_of (w ∷ ws) = needs_review

abbrev or_else_text : String → String → String
or_else_text s d = if str_eq s "" then d else s

-- A row by its number and its amount; `values` are cut to the headers before.
unfoldable pub parsed_row :
    BankLibrary → List String → String → ℕ → List String → Option Minor → ParsedTransaction
unfolding header_map direction_of row_warnings
parsed_row l headers sheet n values a =
    let row = take (length headers) values in
    let get = λ (f : Field). cell_at l (header_map l headers f) row in
    let warnings = row_warnings l (header_map l headers) get a in
    record {
      account = get account;
      direction = direction_of l (get direction) a;
      amount_minor = absolute a;
      currency = or_else_text (get currency) "CNY";
      amount_raw = get amount;
      transaction_time = l.date_value (get time);
      time_raw = get time;
      counterparty = get counterparty;
      memo = get memo;
      source_sheet = sheet;
      source_row_number = n;
      raw_row_json = l.dump (raw_row headers row);
      parse_status = status_of warnings;
      warnings = warnings;
      row_fingerprint = l.fingerprint (raw_row headers row);
    }

abbrev pub with_amount :
    (Option Minor → ParsedTransaction) → Option (Option Minor) → Option ParsedTransaction
with_amount row none = none
with_amount row (some a) = some (row a)

unfoldable pub parse_row :
    BankLibrary → List String → String → ℕ → List String → Option ParsedTransaction
unfolding header_map amount_minor parsed_row
parse_row l headers sheet n values =
    with_amount (parsed_row l headers sheet n values)
      (amount_minor l (cell_at l (header_map l headers amount) (take (length headers) values)))

abbrev pub prepend :
    Option ParsedTransaction → Option (List ParsedTransaction) → Option (List ParsedTransaction)
prepend none o = none
prepend (some x) none = none
prepend (some x) (some xs) = some (x ∷ xs)

-- The rows from number `n` on; `none` is an exception: the ValueError of the limit, or that of an amount.
unfoldable pub parse_from :
    BankLibrary → List String → String → ℕ → List (List String) → Option (List ParsedTransaction)
unfolding parse_row
parse_from l headers sheet n [] = some []
parse_from l headers sheet n (values ∷ rows) =
    let rest = parse_from l headers sheet (suc n) rows in
    if ltb (max_rows + 1) n then none else prepend (parse_row l headers sheet n values) rest

-- `_parse_rows`
unfoldable pub parse_rows :
    BankLibrary → List String → List (List String) → String → Option (List ParsedTransaction)
unfolding parse_from
parse_rows l headers rows sheet = parse_from l headers sheet 2 rows

-- The sheets of `parse_spreadsheet`: their names, headers and rows.
unfoldable pub parse_sheets :
    BankLibrary
    → List (String × (List String × List (List String)))
    → List ParsedTransaction
    → Option (List ParsedTransaction)
unfolding parse_rows
parse_sheets l [] output = some output
parse_sheets l ((name, (headers, rows)) ∷ sheets) output = elim (parse_rows l headers rows name) [
  | none ↦ none
  | some found ↦
      if ltb max_rows (length output + length found)
      then none
      else parse_sheets l sheets (output ++ found)
]
