-- ===== src/Blotter/Again.antt =====
-- A report that comes again, and what a report leaves of its order.
use beta_trader.Prelude.{
  ◌≡◌, refl, ap, ◌∙◌, String, str_eq, eq_iff, true, false, Option, none, some, List, [], ◌∷◌,
  if◌then◌else◌, arith, Bool-cases, inl, inr, ◌==◌, ltb, Option-cases,
}
use beta_trader.Common.Types.{
  Price, limit, OrderStatus, new, partially_filled, filled, cancelled, rejected,
}
use beta_trader.Fix.Text.{Bytes, eq_bytes}
use beta_trader.Blotter.{
  OrderRow, BlotterModel, ReceivedReport, find_row, put_row, erase_row, has_key, execution_key,
  is_terminal, row_for, updated_row, apply_execution, is_empty, process_execution,
}

eq_bytes_refl : (s : Bytes) → eq_bytes s s ≡ true
unfolding eq_bytes
eq_bytes_refl [] = refl
eq_bytes_refl (x ∷ xs) = ground (arith, eq_bytes_refl xs)

find_row-put_row :
    (id k : String) (row : OrderRow) (rows : List (String × OrderRow))
    → find_row k (put_row id row rows) ≡ (if str_eq id k then some row else find_row k rows)
unfolding find_row put_row
find_row-put_row id k row [] = ground arith
find_row-put_row id k row ((j, r) ∷ rows) =
    ground (arith, find_row-put_row id k row rows, eq_iff id k, eq_iff j id, eq_iff j k)

find_row-erase_row :
    (id k : String) (rows : List (String × OrderRow))
    → find_row k (erase_row id rows) ≡ (if str_eq id k then none else find_row k rows)
unfolding find_row erase_row
find_row-erase_row id k [] = ground arith
find_row-erase_row id k ((j, r) ∷ rows) =
    ground (arith, find_row-erase_row id k rows, eq_iff id k, eq_iff j id, eq_iff j k)

process_execution-seen :
    (print_price : Price → Bytes) (r : ReceivedReport) (m : BlotterModel)
    → is_empty r.execution_id ≡ false
    → has_key (execution_key print_price r) m.seen_execution_keys ≡ true
    → process_execution print_price r m ≡ m
unfolding process_execution
process_execution-seen print_price r m some' again = rw (some', again)

process_execution-seen_keys :
    (print_price : Price → Bytes) (r : ReceivedReport) (m : BlotterModel)
    → is_empty r.execution_id ≡ false
    → has_key (execution_key print_price r) m.seen_execution_keys ≡ false
    → (process_execution print_price r m).seen_execution_keys
      ≡ execution_key print_price r ∷ m.seen_execution_keys
unfolding process_execution apply_execution
process_execution-seen_keys print_price r m some' fresh = rw (some', fresh)

has_key-first : (key : Bytes) (keys : List Bytes) → has_key key (key ∷ keys) ≡ true
unfolding has_key
has_key-first key keys = rw (eq_bytes_refl key)

-- A key that has been seen stays so.
process_execution-has_key :
    (print_price : Price → Bytes) (key : Bytes) (r : ReceivedReport) (m : BlotterModel)
    → has_key key m.seen_execution_keys ≡ true
    → has_key key (process_execution print_price r m).seen_execution_keys ≡ true
unfolding process_execution apply_execution has_key
process_execution-has_key print_price key r m h = elim (Bool-cases (is_empty r.execution_id)) [
  | inl none' ↦ rw none' h
  | inr some' ↦ elim (Bool-cases (has_key (execution_key print_price r) m.seen_execution_keys)) [
    | inl again ↦ rw (some', again) h
    | inr fresh ↦ rw (some', fresh) (ground (arith, h))
  ]
]

-- The reports that come, one after the other.
abbrev pub process_all : (Price → Bytes) → List ReceivedReport → BlotterModel → BlotterModel
process_all print_price [] m = m
process_all print_price (r ∷ rs) m = process_all print_price rs (process_execution print_price r m)

process_all-has_key :
    (print_price : Price → Bytes) (key : Bytes) (rs : List ReceivedReport) (m : BlotterModel)
    → has_key key m.seen_execution_keys ≡ true
    → has_key key (process_all print_price rs m).seen_execution_keys ≡ true
process_all-has_key print_price key [] m h = h
process_all-has_key print_price key (r ∷ rs) m h =
    process_all-has_key print_price key rs (process_execution print_price r m)
      (process_execution-has_key print_price key r m h)

process_execution-own_key :
    (print_price : Price → Bytes) (r : ReceivedReport) (m : BlotterModel)
    → is_empty r.execution_id ≡ false
    → has_key (execution_key print_price r) (process_execution print_price r m).seen_execution_keys
      ≡ true
process_execution-own_key print_price r m some' =
    let key = execution_key print_price r in
    elim (Bool-cases (has_key key m.seen_execution_keys)) [
      | inl again ↦ process_execution-has_key print_price key r m again
      | inr fresh ↦
          ap (has_key key) (process_execution-seen_keys print_price r m some' fresh)
          ∙ has_key-first key m.seen_execution_keys
    ]

-- A report with an execution id that has been processed before, with any further reports after it,
-- changes nothing when it comes again.
pub process_execution-again :
    (print_price : Price → Bytes) (r : ReceivedReport) (rs : List ReceivedReport) (m : BlotterModel)
    → is_empty r.execution_id ≡ false
    → process_execution print_price r (process_all print_price (r ∷ rs) m)
      ≡ process_all print_price (r ∷ rs) m
process_execution-again print_price r rs m some' =
    process_execution-seen print_price r (process_all print_price (r ∷ rs) m) some' (
      process_all-has_key print_price (execution_key print_price r) rs
        (process_execution print_price r m) (process_execution-own_key print_price r m some'))

-- What `k` finds once the report has been applied.
abbrev pub applied : ReceivedReport → String → BlotterModel → Option OrderRow
applied r k m =
    if str_eq r.client_order_id k
    then (if is_terminal r.status then none else some (updated_row r (row_for r m.orders)))
    else find_row k m.orders

apply_execution-row :
    (r : ReceivedReport) (m : BlotterModel) (k : String)
    → find_row k (apply_execution r m).orders ≡ applied r k m
unfolding apply_execution
apply_execution-row r m k = elim (Bool-cases (is_terminal r.status)) [
  | inl over ↦ rw over (find_row-erase_row r.client_order_id k m.orders)
  | inr alive ↦
      rw alive (find_row-put_row r.client_order_id k (updated_row r (row_for r m.orders)) m.orders)
]

-- The row that a report with a status that is not final leaves, where there was none.
abbrev pub first_row : ReceivedReport → OrderRow
first_row r = record {
  client_order_id = r.client_order_id;
  symbol = r.symbol;
  side = r.side;
  order_type = limit;
  order_type_known = false;
  price = r.last_price;
  original_quantity = r.order_quantity;
  remaining_quantity = r.leaves_quantity;
  status = r.status;
  exchange_order_id = r.exchange_order_id;
  reason = r.text;
}

-- The row that it leaves of the row `old`.
abbrev pub next_row : ReceivedReport → OrderRow → OrderRow
next_row r old = record {
  client_order_id = old.client_order_id;
  symbol = r.symbol;
  side = r.side;
  order_type = old.order_type;
  order_type_known = old.order_type_known;
  price =
      if old.order_type_known
      then old.price
      else if r.last_price == 0
      then old.price
      else r.last_price;
  original_quantity = if ltb 0 r.order_quantity then r.order_quantity else old.original_quantity;
  remaining_quantity = r.leaves_quantity;
  status = r.status;
  exchange_order_id = r.exchange_order_id;
  reason = r.text;
}

-- What is found under its id.
abbrev pub row_after : ReceivedReport → OrderStatus → Option OrderRow → Option OrderRow
row_after r new none = some (first_row r)
row_after r new (some old) = some (next_row r old)
row_after r partially_filled none = some (first_row r)
row_after r partially_filled (some old) = some (next_row r old)
row_after r filled row = none
row_after r cancelled row = none
row_after r rejected row = none

applied-row_after :
    (r : ReceivedReport) (m : BlotterModel)
    → (if is_terminal r.status then none else some (updated_row r (row_for r m.orders)))
      ≡ row_after r r.status (find_row r.client_order_id m.orders)
unfolding updated_row
applied-row_after r m = elim (Option-cases (find_row r.client_order_id m.orders)) [
  | inl gone ↦ ground (arith, gone)
  | inr (old, e) ↦ ground (arith, e)
]

apply_execution-row_after :
    (r : ReceivedReport) (m : BlotterModel) (k : String)
    → find_row k (apply_execution r m).orders ≡ (
        if str_eq r.client_order_id k
        then row_after r r.status (find_row r.client_order_id m.orders)
        else find_row k m.orders)
apply_execution-row_after r m k =
    apply_execution-row r m k
    ∙ ap (λ row. if str_eq r.client_order_id k then row else find_row k m.orders)
        (applied-row_after r m)

-- After a report whose key, if it has an execution id, has not been seen, its order has no row if
-- the status is filled, cancelled or rejected. Otherwise it has a row with the status, the quantity
-- left and the text of the report, which keeps the type of the order, its price if the type is
-- known, and its quantity if the report has none. The rows of the other orders stay as they are.
pub process_execution-row :
    (print_price : Price → Bytes) (r : ReceivedReport) (m : BlotterModel) (k : String)
    → (is_empty r.execution_id ≡ false
        → has_key (execution_key print_price r) m.seen_execution_keys ≡ false)
    → find_row k (process_execution print_price r m).orders ≡ (
        if str_eq r.client_order_id k
        then row_after r r.status (find_row r.client_order_id m.orders)
        else find_row k m.orders)
unfolding process_execution
process_execution-row print_price r m k fresh = elim (Bool-cases (is_empty r.execution_id)) [
  | inl none' ↦ rw none' (apply_execution-row_after r m k)
  | inr some' ↦
      rw (some', fresh some')
        (apply_execution-row_after r
          (record m { seen_execution_keys = execution_key print_price r ∷ m.seen_execution_keys })
          k)
]
