-- ===== src/Risk.antt =====
-- exchange/exchange_risk/src/RiskManager.cpp: the check before an order is accepted. A `none` is a
-- read through a dangling pointer. The deviation from the top of the book is compared exactly, where
-- the source divides doubles.
use beta_trader.Prelude.{
  ℕ, ◌-◌, ◌*◌, Bool, true, false, not, ◌&&◌, ◌||◌, Option, none, some, List, [], ◌∷◌, str_eq, ◌>>=◌,
  ltb, leb, ◌==◌, if◌then◌else◌, find,
}
use beta_trader.Common.Types.{OrderSide, buy, sell, OrderType, limit, Price}
use beta_trader.Common.Order.{Order}
use beta_trader.Book.{Store, PriceLevel, LevelMap, OrderBook}
pub mod SelfMatch
pub mod Check
pub mod Decides

pub is_limit : OrderType → Bool
is_limit limit = true
is_limit _ = false

pub crosses : Order → Price → Bool
crosses o p = elim o.order_side [ buy ↦ leb p o.price | sell ↦ leb o.price p ]

-- Whether an order of the level has the sender of `o`.
pub has_sender : Order → PriceLevel → Store → Option Bool
has_sender o [] orders = some false
has_sender o (r ∷ rs) orders = do
  resting ← find r orders
  (if str_eq resting.sender_comp_id o.sender_comp_id then some true else has_sender o rs orders)

pub check_for_self_match : Order → LevelMap → Store → Option Bool
unfolding is_limit crosses has_sender
check_for_self_match o [] orders = some false
check_for_self_match o ((p, level) ∷ m) orders =
    let rest = check_for_self_match o m orders in
    if is_limit o.order_type && not (crosses o p)
    then some false
    else (do found ← has_sender o level orders; (if found then some true else rest))

-- The best price of a map, and 0 for an empty one.
pub top_price : LevelMap → Price
top_price [] = 0
top_price ((p, level) ∷ m) = p

abbrev pub abs_diff : ℕ → ℕ → ℕ
abs_diff a b = if leb a b then b - a else a - b

-- `MAX_PRICE_DEVIATION` is 0.10.
pub deviates : Price → Price → Bool
deviates price top = ltb top (10 * abs_diff price top)

abbrev pub against : OrderSide → OrderBook → LevelMap
against buy b = b.asks
against sell b = b.bids

pub is_fat_finger : Order → OrderBook → Bool
unfolding is_limit top_price deviates
is_fat_finger o b =
    let top = top_price (against o.order_side b) in
    is_limit o.order_type && (ltb 0 top && deviates o.price top)

pub is_sane : Order → Bool
unfolding is_limit
is_sane o = not (o.original_quantity == 0 || (is_limit o.order_type && o.price == 0))

unfoldable pub pre_check : Order → OrderBook → Store → Option Bool
unfolding is_sane is_fat_finger check_for_self_match
pre_check o b orders =
    if not (is_sane o)
    then some false
    else if is_fat_finger o b
    then some false
    else (do found ← check_for_self_match o (against o.order_side b) orders; some (not found))
