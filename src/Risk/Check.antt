-- ===== src/Risk/Check.antt =====
-- What `preCheck` guarantees.
use beta_trader.Prelude.{
  ◌≡◌, refl, subst, ◌≢◌, inl, inr, Bool, true, false, not, ◌&&◌, some, none, find, insert,
  find-insert, All, arith, Option-cases,
}
use beta_trader.Common.Types.{OrderSide, buy, sell, OrderId, TradeId, Timestamp}
use beta_trader.Common.Order.{Order}
use beta_trader.Book.{Store, OrderBook, pointers}
use beta_trader.Book.Sound.{IsSound, AllRest-pointers}
use beta_trader.Matcher.{MatchState}
use beta_trader.Matcher.Run.{Has}
use beta_trader.Matcher.Fills.{IsKeyed}
use beta_trader.Matcher.Priority.{counterparty}
use beta_trader.Matcher.Prices.{opposite}
use beta_trader.Matcher.Ends.{opposite_map, IsMatchable, Ends}
use beta_trader.Matcher.Laws.{match-reach}
use beta_trader.Risk.{pre_check, is_sane, is_fat_finger, check_for_self_match, against}
use beta_trader.Risk.SelfMatch.{
  OtherSender, check_for_self_match-total, check_for_self_match-AllRest,
}

against-opposite_map : (side : OrderSide) (b : OrderBook) → against side b ≡ opposite_map side b
against-opposite_map buy b = refl
against-opposite_map sell b = refl

-- If every pointer of the opposite map can be read, preCheck returns, and it accepts exactly the
-- orders that are sane, are no fat finger, and for which the search for a self-match finds none.
pub pre_check-total :
    (o : Order) (b : OrderBook) (orders : Store)
    → All (Has orders) (pointers (against o.order_side b))
    → (found : Bool) × (check_for_self_match o (against o.order_side b) orders ≡ some found)
      × (pre_check o b orders ≡ some (is_sane o && not (is_fat_finger o b) && not found))
unfolding pre_check
pre_check-total o b orders h =
    let (found, e) = check_for_self_match-total o (against o.order_side b) orders h in
    (found, e, ground (arith, e))

pub pre_check-accepts :
    (o : Order) (b : OrderBook) (orders : Store)
    → pre_check o b orders ≡ some true
    → (is_sane o ≡ true)
      × (is_fat_finger o b ≡ false)
      × (check_for_self_match o (against o.order_side b) orders ≡ some false)
unfolding pre_check
pre_check-accepts o b orders h =
    elim (Option-cases (check_for_self_match o (against o.order_side b) orders)) [
      | inl gone ↦ absurd (ground arith)
      | inr (found, e) ↦ ground (arith, e)
    ]

-- The state of the matcher once an accepted order is owned.
abbrev pub admitted : Order → Store → TradeId → (TradeId → Timestamp) → MatchState
admitted o orders trade_id clock = record {
  orders = insert o.core_order_id o orders;
  trade_id = trade_id;
  clock = clock;
}

find-insert_ne :
    (i k : OrderId) (o : Order) (orders : Store)
    → find i orders ≡ none
    → (x : Order) → find k orders ≡ some x
    → (k ≢ i) × (find k (insert i o orders) ≡ some x)
find-insert_ne i k o orders fresh x e =
    (λ h. differ h, ground (arith, find-insert i k o orders, differ))
  where
    differ : k ≢ i
    differ h = absurd (ground arith)

-- A new order is matchable as soon as it is owned.
pub admitted-IsMatchable :
    (o : Order) (b : OrderBook) (orders : Store) (trade_id : TradeId) (clock : TradeId → Timestamp)
    → find o.core_order_id orders ≡ none
    → IsKeyed orders
    → IsSound orders (opposite o.order_side) (opposite_map o.order_side b)
    → IsMatchable o.core_order_id o b (admitted o orders trade_id clock)
admitted-IsMatchable o b orders trade_id clock fresh keyed sound = record {
  incoming = ground (arith, find-insert o.core_order_id o.core_order_id o orders);
  resting =
      AllRest-pointers _ _ (opposite_map o.order_side b)
        (λ p r (x, e, _, _, _). (x, (find-insert_ne o.core_order_id r o orders fresh x e).1))
        sound.resting;
  keyed = λ k x e. ground (arith, find-insert o.core_order_id k o orders, keyed k x);
  apart =
      AllRest-pointers _ _ (opposite_map o.order_side b)
        (λ p r (x, e, _, _, _). (find-insert_ne o.core_order_id r o orders fresh x e).0)
        sound.resting;
}

-- When orders are owned under their own ids and preCheck accepts a new order with a fresh id
-- against a sound opposite map, the order is then matched without a fault, and every trade is with
-- an order of another sender.
pub match-OtherSender :
    (o : Order) (b : OrderBook) (orders : Store) (trade_id : TradeId) (clock : TradeId → Timestamp)
    → pre_check o b orders ≡ some true
    → find o.core_order_id orders ≡ none
    → IsKeyed orders
    → IsSound orders (opposite o.order_side) (opposite_map o.order_side b)
    → Ends o.core_order_id o b
        (admitted o orders trade_id clock)
        λ _ _ ts. All (λ t. OtherSender o orders (counterparty o.order_side t)) ts
match-OtherSender o b orders trade_id clock passed fresh keyed sound =
    match-reach o.core_order_id o b (admitted o orders trade_id clock)
      (admitted-IsMatchable o b orders trade_id clock fresh keyed sound) (OtherSender o orders)
      (check_for_self_match-AllRest o (opposite_map o.order_side b) orders sound.sorted (
        subst (λ m. check_for_self_match o m orders ≡ some false)
          (against-opposite_map o.order_side b) (pre_check-accepts o b orders passed).2))
