-- ===== src/Manager.antt =====
-- exchange/exchange_state/src/OrderManager.cpp: the owner of the orders. A method that changes the
-- map returns it beside its result.
use beta_trader.Prelude.{
  ℕ, Bool, true, false, Option, none, some, [], ◌∷◌, String, str_eq, if◌then◌else◌, find, insert,
  erase, length,
}
use beta_trader.Common.Types.{OrderId}
use beta_trader.Common.Order.{Order}
use beta_trader.Book.{Store}

abbrev pub is_some {ℓ} : {A : Type ℓ} → Option A → Bool
is_some none = false
is_some (some a) = true

unfoldable pub contains_order_by_id : OrderId → Store → Bool
contains_order_by_id id orders = is_some (find id orders)

unfoldable pub get_order_by_id : OrderId → Store → Option Order
get_order_by_id id orders = find id orders

-- An order whose id is taken is dropped.
unfoldable pub add_order : Order → Store → Bool × Store
unfolding contains_order_by_id
add_order o orders =
    if contains_order_by_id o.core_order_id orders
    then (false, orders)
    else (true, insert o.core_order_id o orders)

-- The first order of the map with the client's id.
pub get_order_by_client_order_id : String → Store → Option Order
get_order_by_client_order_id id [] = none
get_order_by_client_order_id id ((k, o) ∷ orders) =
    if str_eq o.client_order_id id then some o else get_order_by_client_order_id id orders

unfoldable pub remove_order_by_id : OrderId → Store → Bool × Store
unfolding contains_order_by_id
remove_order_by_id id orders =
    if contains_order_by_id id orders then (true, erase id orders) else (false, orders)

pub size : Store → ℕ
size orders = length orders
