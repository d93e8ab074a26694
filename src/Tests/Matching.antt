-- ===== src/Tests/Matching.antt =====
-- The theorems on the book, on matching and on the risk check, at the orders of the scenario.
use beta_trader.Matcher.Beyond.{beyond}
use beta_trader.Publisher.{execution_report, trade_report, exec, Action}
use beta_trader.Publisher.Balance.{Tallies, match-Tallies}
use beta_trader.Prelude.{
  ◌≡◌, ◌⊎◌, ◌+◌, ◌==◌, if◌then◌else◌, refl, some, [], ◌∷◌, arith, find, All, length,
}
use beta_trader.Common.Types.{buy, sell, market, filled, cancelled, limit, eurusd}
use beta_trader.Common.Order.{Order, Trade}
use beta_trader.Book.{pointers, insert_order}
use beta_trader.Book.Pointers.{level_at, level_at-insert_order}
use beta_trader.Book.Sorted.{IsSorted}
use beta_trader.Matcher.Ends.{Ends, progress_status}
use beta_trader.Matcher.Fills.{FilledIn}
use beta_trader.Matcher.Numbers.{Numbered}
use beta_trader.Matcher.Prices.{WithinLimit}
use beta_trader.Matcher.Priority.{Serves, Spent, counterparty}
use beta_trader.Matcher.Laws.{
  match-Filled, match-Serves, match-price, match-stops, match-Numbered, match-status,
}
use beta_trader.Risk.{pre_check}
use beta_trader.Risk.Check.{admitted, match-OtherSender}
use beta_trader.Risk.SelfMatch.{OtherSender}
use beta_trader.Tests.Scenario.{
  first_ask, second_ask, bid_order, resting, asks, book, start, resting-IsKeyed, asks-IsSound,
  start-IsMatchable, env,
}

match-Filled_example : Ends 3 bid_order book start λ _ s' ts. FilledIn 2 ts second_ask s'.orders
unfolding find
match-Filled_example = match-Filled 3 bid_order book start start-IsMatchable 2 second_ask refl

match-Serves_example :
    Ends 3 bid_order book start λ m s' ts. Serves buy (1 ∷ 2 ∷ []) (pointers m) s'.orders ts
match-Serves_example = match-Serves 3 bid_order book start start-IsMatchable

match-price_example :
    Ends 3 bid_order book start λ _ _ ts. All (λ t. WithinLimit limit buy 101 t.price) ts
unfolding find
match-price_example =
    match-price 3 bid_order book start start-IsMatchable
      (((first_ask, refl, refl), tt), (((second_ask, refl, refl), tt), tt))

match-stops_example :
    Ends 3 bid_order book start
      λ m s' _. IsSorted sell m × (beyond limit buy 101 m ≡ []) × (Spent s'.orders 3 ⊎ (m ≡ []))
match-stops_example = match-stops 3 bid_order book start start-IsMatchable asks-IsSound.sorted

match-Numbered_example :
    Ends 3 bid_order book start λ _ s' ts. Numbered 40 ts × (s'.trade_id ≡ 40 + length ts)
match-Numbered_example = match-Numbered 3 bid_order book start start-IsMatchable (omega arith)

match-status_example : Ends 3 bid_order book start λ _ s' ts.
    (o : Order) × (find 3 s'.orders ≡ some o)
    × (o.order_status ≡ (
        if o.remaining_quantity == 0 then filled else elim o.order_type [
          | market ↦
              if o.original_quantity == o.remaining_quantity
              then cancelled
              else progress_status bid_order ts
          | _ ↦ progress_status bid_order ts
        ]))
match-status_example = match-status 3 bid_order book start start-IsMatchable

match-OtherSender_example :
    Ends 3 bid_order book
      (admitted bid_order resting 40 start.clock)
      λ _ _ ts. All (λ t. OtherSender bid_order resting (counterparty buy t)) ts
unfolding pre_check find
match-OtherSender_example =
    match-OtherSender bid_order book resting 40 start.clock refl refl resting-IsKeyed asks-IsSound

level_at-insert_order_example :
    (level_at 101 (insert_order (record first_ask { price = 101; core_order_id = 9 }) book).0.bids
      ≡ [])
    × (level_at 101 (insert_order (record first_ask { price = 101; core_order_id = 9 }) book).0.asks
        ≡ 2 ∷ 9 ∷ [])
unfolding level_at
level_at-insert_order_example =
    level_at-insert_order (record first_ask { price = 101; core_order_id = 9 }) book 101 tt
      asks-IsSound.sorted

abbrev a_trade : Trade
a_trade = record {
  trade_id = 41;
  order_symbol = eurusd;
  buy_order_id = 3;
  sell_order_id = 2;
  quantity = 4;
  price = 101;
  timestamp = 2000;
}

match-Tallies_example : Ends 3 bid_order book start λ _ s' ts.
    (o' : Order) × (find 2 s'.orders ≡ some o')
    × All
        (Tallies 2 second_ask ts)
        (execution_report env o' Action.new ∷ trade_report env (exec 2) a_trade o' ∷ [])
unfolding find
match-Tallies_example =
    match-Tallies 3 bid_order book start env (exec 2) a_trade Action.new 2 second_ask
      start-IsMatchable refl (omega arith) (omega arith)
