-- ===== src/BankTransactions/Warnings.antt =====
-- app/bank_transactions.py, `_parse_rows`: the warnings of a row, and what a row without any holds.
use law_review_local.BankTransactions.{
  BankLibrary, row_warnings, Warning, Field, status_of, when, parsed, missing, account,
  counterparty, missing_fields, missing_value, amount, required, time, invalid_amount, is_unknown,
  direction_of, invalid_date, direction, Minor, ParseStatus, ParsedTransaction, needs_review,
  absolute, cell_at, header_map, parsed_row,
}
use law_review_local.Common.{
  Bool, List, map, ◌++◌, keep, Option, ◌≡◌, String, ℕ, [], str_eq, All, false, ◌∷◌, ◌≢◌, refl, true,
  is_some, Bool-cases, ◌&&◌, inl, not, inr, sym, ◌∙◌, arith, some, none, length, take,
}

cons≢nil {ℓ} : {A : Type ℓ} (x : A) (xs : List A) → x ∷ xs ≢ []
cons≢nil x xs = cc

append_empty {ℓ} : {A : Type ℓ} (xs ys : List A) → xs ++ ys ≡ [] → (xs ≡ []) × (ys ≡ [])
append_empty [] ys h = (refl, h)
append_empty (x ∷ xs) ys h = absurd (cons≢nil x (xs ++ ys) h)

map_empty {ℓ κ} : {A : Type ℓ} {B : Type κ} (f : A → B) (xs : List A) → map f xs ≡ [] → xs ≡ []
map_empty f [] h = refl
map_empty f (x ∷ xs) h = absurd (cons≢nil (f x) (map f xs) h)

keep_empty {ℓ} :
    {A : Type ℓ} (p : A → Bool) (xs : List A) → keep p xs ≡ [] → All (λ x. p x ≡ false) xs
keep_empty p [] h = tt
keep_empty p (x ∷ xs) h = elim (Bool-cases (p x)) [
  | inl e ↦
      let same : keep p (x ∷ xs) ≡ x ∷ keep p xs = rw e refl in
      absurd (cons≢nil x (keep p xs) (sym same ∙ h))
  | inr e ↦
      let same : keep p (x ∷ xs) ≡ keep p xs = rw e refl in (e, keep_empty p xs (sym same ∙ h))
]

value_present : (m b : Bool) → not m ≡ false → (m && b) ≡ false → b ≡ false
value_present m b h k = ground (arith, h, k)

read_value : (s b : Bool) → (not s && not b) ≡ false → b ≡ false → s ≡ true
read_value s b h k = ground (arith, h, k)

when_empty : (b : Bool) (w : Warning) → when b w ≡ [] → b ≡ false
when_empty true w h = cc
when_empty false w h = refl

status_of-parsed : (ws : List Warning) → status_of ws ≡ parsed → ws ≡ []
status_of-parsed [] h = refl
status_of-parsed (w ∷ ws) h = cc

-- The cells of the required columns, the amount, the date and the direction.
abbrev pub IsComplete : BankLibrary → (Field → String) → Option Minor → Type 0
IsComplete l get a =
    (str_eq (get account) "" ≡ false)
    × (str_eq (get counterparty) "" ≡ false)
    × (is_some a ≡ true)
    × (is_some (l.date_value (get time)) ≡ true)
    × (is_unknown (direction_of l (get direction) a) ≡ false)

row_warnings-IsComplete :
    (l : BankLibrary) (mapping : Field → Option ℕ) (get : Field → String) (a : Option Minor)
    → row_warnings l mapping get a ≡ []
    → IsComplete l get a
unfolding row_warnings
row_warnings-IsComplete l mapping get a h =
    let (absent, rest1) = append_empty (map missing (missing_fields mapping)) _ h in
    let (blank, rest2) =
      append_empty
        (map missing_value (keep (λ f. is_some (mapping f) && str_eq (get f) "") required)) _
        rest1 in
    let (amounts, rest3) =
      append_empty (when (not (is_some a) && not (str_eq (get amount) "")) invalid_amount) _
        rest2 in
    let (dates, directions) =
      append_empty
        (when (not (is_some (l.date_value (get time))) && not (str_eq (get time) "")) invalid_date)
        _ rest3 in
    let there = keep_empty (λ f. not (is_some (mapping f))) required (map_empty missing _ absent) in
    let filled =
      keep_empty (λ f. is_some (mapping f) && str_eq (get f) "") required
        (map_empty missing_value _ blank) in
    let no_amount = when_empty _ invalid_amount amounts in
    let no_date = when_empty _ invalid_date dates in
    let known = when_empty _ _ directions in
    let (no_account, (no_amount_column, (no_time_column, (no_counterparty, done)))) = there in
    let (empty_account, (empty_amount, (empty_time, (empty_counterparty, end)))) = filled in
    (
      value_present (is_some (mapping account)) _ no_account empty_account,
      value_present (is_some (mapping counterparty)) _ no_counterparty empty_counterparty,
      read_value _ (str_eq (get amount) "") no_amount
          (value_present (is_some (mapping amount)) _ no_amount_column empty_amount),
      read_value _ (str_eq (get time) "") no_date
          (value_present (is_some (mapping time)) _ no_time_column empty_time),
      known,
    )

-- A transaction has its account, counterparty, amount, date and direction.
abbrev pub IsUsable : ParsedTransaction → Type 0
IsUsable x =
    (str_eq x.account "" ≡ false)
    × (str_eq x.counterparty "" ≡ false)
    × (is_some x.amount_minor ≡ true)
    × (is_some x.transaction_time ≡ true)
    × (is_unknown x.direction ≡ false)

abbrev pub is_parsed : ParseStatus → Bool
is_parsed parsed = true
is_parsed needs_review = false

is_some-absolute : (m : Option Minor) → is_some (absolute m) ≡ is_some m
is_some-absolute none = refl
is_some-absolute (some m) = refl

is_parsed-empty : (ws : List Warning) → is_parsed (status_of ws) ≡ true → ws ≡ []
is_parsed-empty [] h = refl
is_parsed-empty (w ∷ ws) h = cc

pub parsed_row-IsUsable :
    (l : BankLibrary) (headers : List String) (sheet : String) (n : ℕ) (values : List String)
    (m : Option Minor)
    → is_parsed (parsed_row l headers sheet n values m).parse_status ≡ true
    → IsUsable (parsed_row l headers sheet n values m)
unfolding parsed_row
parsed_row-IsUsable l headers sheet n values m h =
    let get = λ (f : Field). cell_at l (header_map l headers f) (take (length headers) values) in
    let (a, c, i, d, k) =
      row_warnings-IsComplete l (header_map l headers) get m
        (is_parsed-empty (row_warnings l (header_map l headers) get m) h) in
    (a, c, is_some-absolute m ∙ i, d, k)
