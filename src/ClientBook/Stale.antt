-- ===== src/ClientBook/Stale.antt =====
-- What a client shows of a price after the refresh of one order.
use beta_trader.Prelude.{
  ◌<◌, ◌≡◌, refl, true, none, some, [], ◌∷◌, find, arith, subst, Option-cases, inl, inr,
}
use beta_trader.Common.Types.{Instrument, OrderSide, buy, sell, OrderId, Timestamp}
use beta_trader.Common.Order.{Order}
use beta_trader.Book.{
  MdUpdateAction, Store, OrderBook, MarketDataIncrementalRefresh, insert_order, insert_side,
  refresh_of, erase_from_book,
}
use beta_trader.Book
use beta_trader.ClientBook.{Ladder, ClientBook, handle_incremental}
use beta_trader.ClientBook.Valid.{IsValid, find-set_level, find-erase_level}

abbrev pub ladder : OrderSide → ClientBook → Ladder
ladder buy c = c.bids
ladder sell c = c.asks

-- When an order with something left is inserted into the exchange's book, the client that handles
-- the refresh shows for its price the quantity of this order alone, whatever it showed before and
-- whatever else rests at that price.
pub handle_incremental-insert_order :
    (o : Order) (b : OrderBook) (c : ClientBook)
    → 0 < o.remaining_quantity
    → find o.price (ladder o.order_side (handle_incremental (insert_order o b).1 c))
      ≡ some o.remaining_quantity
unfolding handle_incremental insert_order
handle_incremental-insert_order o b c z = ground (
  arith,
  find-set_level o.order_side o.price o.price o.remaining_quantity (ladder o.order_side c),
)

deleted :
    (o : Order) (symbol : Instrument) (now : Timestamp) (c : ClientBook)
    → IsValid c
    → find o.price
        (ladder o.order_side (handle_incremental (refresh_of symbol MdUpdateAction.delete o now) c))
      ≡ none
unfolding handle_incremental refresh_of
deleted o symbol now c h = go o.order_side refl
  where
    go :
        (d : OrderSide)
        → o.order_side ≡ d
        → find o.price (
            ladder o.order_side
              (handle_incremental (refresh_of symbol MdUpdateAction.delete o now) c))
          ≡ none
    go buy e = ground (arith, find-erase_level buy o.price o.price c.bids (h.bids_ladder).ordered)
    go sell e = ground (arith, find-erase_level sell o.price o.price c.asks (h.asks_ladder).ordered)

-- When the exchange cancels an order and publishes a refresh, a valid client that handles it shows
-- no level at the price of the order, whatever else still rests at that price.
pub handle_incremental-cancel_order :
    (id : OrderId) (now : Timestamp) (orders : Store) (b b' : OrderBook) (o : Order)
    (refresh : MarketDataIncrementalRefresh) (c : ClientBook)
    → Book.cancel_order id now orders b ≡ some (true, b', refresh ∷ [])
    → find id orders ≡ some o
    → IsValid c
    → find o.price (ladder o.order_side (handle_incremental refresh c)) ≡ none
unfolding handle_incremental Book.cancel_order
handle_incremental-cancel_order id now orders b b' o refresh c found owned h =
    elim (Option-cases (erase_from_book id b)) [
      | inl gone ↦ absurd (ground arith)
      | inr (b1, e) ↦
          subst (λ r. find o.price (ladder o.order_side (handle_incremental r c)) ≡ none)
            {x = refresh_of b.symbol MdUpdateAction.delete o now} {y = refresh} (ground arith)
            (deleted o b.symbol now c h)
    ]
