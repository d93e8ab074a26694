-- ===== src/Tests/Commands.antt =====
-- The theorems on the commands, at the partition of the scenario.
use beta_trader.Prelude.{
  List, ◌>>=◌, ◌≡◌, refl, inl, some, [], ◌∷◌, arith, find, insert, erase, map, length,
}
use mathlib.Core.Option.{map as map_some}
use beta_trader.Common.Types.{eurusd, buy, limit, OrderId}
use beta_trader.Common.Order.{Order, Trade, set_remaining_quantity}
use beta_trader.Matcher.Fills.{IsKeyed}
use beta_trader.Worker.{
  Command, is_rejected, process_batch, process_next_command, World, new_order, process_command,
  process_new_order, process_cancel_order, process_modify_order, settle_new,
}
use beta_trader.Risk.{pre_check}
use beta_trader.Manager.{add_order, get_order_by_id, remove_order_by_id}
use beta_trader.Publisher.{trade_reports}
use beta_trader.Worker.Batches.{process_next_command-drains}
use beta_trader.Matcher.{match}
use beta_trader.Worker.Consistent.{IsConsistent}
use beta_trader.Worker.Commands.{process_new_order-IsConsistent}
use beta_trader.Worker.Cancel.{process_cancel_order-IsConsistent}
use beta_trader.Worker.Modify.{process_modify_order-IsConsistent}
use beta_trader.Worker.Reach.{here, Reach-IsConsistent}
use beta_trader.Worker.Skipped.{settle_new-skips}
use beta_trader.Tests.Scenario.{order, first_ask, second_ask, bid_order, world, world-IsConsistent}

process_new_order-IsConsistent_example :
    (w' : World) × (process_new_order "7" 1000 bid_order world ≡ some w') × IsConsistent w'
unfolding find
process_new_order-IsConsistent_example =
    process_new_order-IsConsistent "7" 1000 bid_order world world-IsConsistent refl

process_cancel_order-IsConsistent_example :
    (w' : World) × (process_cancel_order "7" 2 world ≡ some w') × IsConsistent w'
process_cancel_order-IsConsistent_example =
    process_cancel_order-IsConsistent "7" 2 world world-IsConsistent

world-limit : (o : Order) → find 1 world.orders ≡ some o → o.order_type ≡ limit
unfolding find
world-limit o e = ground arith

process_modify_order-IsConsistent_example :
    (w' : World) × (process_modify_order "7" 1 102 9 world ≡ some w') × IsConsistent w'
process_modify_order-IsConsistent_example =
    process_modify_order-IsConsistent "7" 1 102 9 world world-IsConsistent world-limit

Reach-IsConsistent_example :
    IsConsistent world
    × ((v : World) × (process_command (new_order "7" 1000 bid_order) world ≡ some v)
        × IsConsistent v)
unfolding find
Reach-IsConsistent_example =
    Reach-IsConsistent {w = world} {v = world} (new_order "7" 1000 bid_order) world-IsConsistent
      here refl

-- All three orders are filled, by two trades.
abbrev done : Order → Order
done = set_remaining_quantity 0

abbrev trade : OrderId → OrderId → Trade
trade id ask = record {
  trade_id = id;
  order_symbol = eurusd;
  buy_order_id = 3;
  sell_order_id = ask;
  quantity = 4;
  price = 100;
  timestamp = 2000;
}

abbrev matched : World
matched = record world {
  orders = (1, done first_ask) ∷ (2, done second_ask) ∷ (3, done bid_order) ∷ [];
}

matched-IsKeyed : IsKeyed matched.orders
unfolding find
matched-IsKeyed k o e = ground arith

settle_new-skips_example :
    ((settle_new (trade 41 1 ∷ trade 42 2 ∷ []) matched).orders
      ≡ (settle_new (trade 41 1 ∷ []) matched).orders)
    × ((settle_new (trade 41 1 ∷ trade 42 2 ∷ []) matched).reports
        ≡ (settle_new (trade 41 1 ∷ []) matched).reports)
unfolding find
settle_new-skips_example =
    settle_new-skips 3 (done bid_order) (done bid_order) (done first_ask) (trade 41 1)
      (trade 42 2 ∷ []) matched matched-IsKeyed refl refl refl refl (inl refl) (inl refl, tt)

-- A run of the fault: a buy order of 12 takes both sell orders, and the second stays owned, with
-- nothing left, after the reports of the acceptance and of the first trade.
fault :
    map_some
      (λ w. map (λ e. e.0) w.orders)
      (process_new_order "7" 1000 (order 3 buy 12 101 "carol") world)
    ≡ some (2 ∷ [])
unfolding process_new_order pre_check add_order match get_order_by_id remove_order_by_id find insert
    erase
fault = refl

fault_reports :
    map_some (λ w. length w.reports) (process_new_order "7" 1000 (order 3 buy 12 101 "carol") world)
    ≡ some 3
unfolding process_new_order pre_check add_order match get_order_by_id remove_order_by_id find insert
    erase trade_reports
fault_reports = refl

process_next_command-drains_example : process_batch (new_order "7" 1000 bid_order ∷ []) world ≡ (
    process_next_command (new_order "7" 1000 bid_order ∷ []) world >>= λ r. process_batch r.0 r.1)
process_next_command-drains_example =
    process_next_command-drains (new_order "7" 1000 bid_order ∷ []) world

abbrev unknown_order : List Command
unknown_order = Command.cancel_order "7" 1000 99 ∷ []

-- The order 99 is not known.
abbrev refused : World
refused = is_rejected world "7" 99 eurusd buy "Order not found"
