-- ===== src/Worker/Within.antt =====
-- What holds of the ids and the types of the orders that are owned: processing a command keeps it, if
-- it holds of the order that a new order brings.
use beta_trader.Prelude.{
  ◌≡◌, some, List, [], ◌∷◌, ◌++◌, ◌==◌, String, find, insert, arith, subst, Bool-cases,
  Option-cases, inl, inr,
}
use beta_trader.Common.Types.{
  OrderType, limit, market, stop, stop_limit, OrderId, Price, Quantity, Timestamp,
}
use beta_trader.Common.Order.{Order, Trade}
use beta_trader.Book.{Store, OrderBook, MarketDataIncrementalRefresh}
use beta_trader.Book
use beta_trader.Manager.{add_order, get_order_by_id, contains_order_by_id}
use beta_trader.Matcher.{match}
use beta_trader.Matcher.Within.{Within, insert-Within, match-Within}
use beta_trader.Publisher.{Action, execution_report}
use beta_trader.Risk.{pre_check}
use beta_trader.Worker.{
  World, Command, new_order, cancel_order, modify_order, save_order, remove_order, match_in,
  forget_if_filled, settle_trade, settle_new, settle_modified, finish_new, finish_modified,
  rest_order, forget_order, process_command, process_new_order, process_cancel_order,
  process_modify_order, send_db, publish, revise,
}
use beta_trader.Worker.Settle.{find-forget_order}

module _ {κ} (P : OrderId → OrderType → Type κ) where
  match_in-Within :
      (i : OrderId) (w w' : World) (ts : List Trade)
      → match_in i w ≡ some (w', ts)
      → Within P w.orders
      → Within P w'.orders
  unfolding match_in
  match_in-Within i w w' ts e h =
      elim (Option-cases (
        match i w.book
          (record { orders = w.orders; trade_id = w.trade_id; clock = w.env.trade_clock }))) [
            | inl bad ↦ absurd (ground (arith, e, bad))
            | inr ((b', s', ts'), e1) ↦
                subst (λ x. Within P x) {x = s'.orders} (ground (arith, e, e1))
                  (match-Within P i w.book b' _ s' ts' e1 h)
          ]

  forget_order-Within :
      (id : OrderId) (w : World) → Within P w.orders → Within P (forget_order id w).orders
  forget_order-Within id w h k o e = h k o (ground (arith, find-forget_order id k w, e))

  forget_if_filled-Within :
      (o : Order) (w : World) → Within P w.orders → Within P (forget_if_filled o w).orders
  unfolding forget_if_filled
  forget_if_filled-Within o w h = elim (Bool-cases (o.remaining_quantity == 0)) [
    | inl z ↦ rw z (forget_order-Within o.core_order_id w h)
    | inr nz ↦ rw nz h
  ]

  settle_trade-Within :
      (t : Trade) (w : World) → Within P w.orders → Within P (settle_trade t w).orders
  unfolding settle_trade get_order_by_id
  settle_trade-Within t w h = elim (Option-cases (find t.buy_order_id w.orders)) [
    | inl gone ↦ rw (gone, settle_trade) h
    | inr (buyer, eb) ↦ elim (Option-cases (find t.sell_order_id w.orders)) [
      | inl gone ↦ rw (eb, settle_trade) (rw (gone, settle_trade) h)
      | inr (seller, es) ↦
          rw (eb, settle_trade)
            (rw (es, settle_trade)
              (forget_if_filled-Within seller _ (forget_if_filled-Within buyer _ h)))
    ]
  ]

  settle_new-Within :
      (ts : List Trade) (w : World) → Within P w.orders → Within P (settle_new ts w).orders
  unfolding settle_new
  settle_new-Within [] w h = h
  settle_new-Within (t ∷ ts) w h = settle_new-Within ts _ (settle_trade-Within t _ h)

  settle_modified-Within :
      (ts : List Trade) (w : World) → Within P w.orders → Within P (settle_modified ts w).orders
  unfolding settle_modified
  settle_modified-Within [] w h = h
  settle_modified-Within (t ∷ ts) w h = settle_modified-Within ts _ (settle_trade-Within t _ h)

  orders-rest_order : (id : OrderId) (w : World) → (rest_order id w).orders ≡ w.orders
  unfolding rest_order
  orders-rest_order id w = ground arith

  rest_order-Within :
      (id : OrderId) (w : World) → Within P w.orders → Within P (rest_order id w).orders
  rest_order-Within id w h = rw (orders-rest_order id w) h

  finish_new-Within :
      (type : OrderType) (id : OrderId) (w : World)
      → Within P w.orders
      → Within P (finish_new type id w).orders
  unfolding finish_new
  finish_new-Within limit id w h = rest_order-Within id w h
  finish_new-Within market id w h = elim (Bool-cases (contains_order_by_id id w.orders)) [
    | inl there ↦ rw there (forget_order-Within id w h)
    | inr gone ↦ rw gone h
  ]
  finish_new-Within stop id w h = h
  finish_new-Within stop_limit id w h = h

  finish_modified-Within :
      (id : OrderId) (w : World) → Within P w.orders → Within P (finish_modified id w).orders
  unfolding finish_modified get_order_by_id
  finish_modified-Within id w h =
      let h' = rest_order-Within id w h in
      elim (Option-cases (find id (rest_order id w).orders)) [
        | inl gone ↦ rw (gone, finish_modified) h'
        | inr (o, e) ↦ elim (Bool-cases (o.remaining_quantity == 0)) [
          | inl z ↦
              rw (e, finish_modified)
                (rw (z, finish_modified) (forget_order-Within id (rest_order id w) h'))
          | inr nz ↦ rw (e, finish_modified) (rw (nz, finish_modified) h')
        ]
      ]

  -- What a command brings.
  abbrev pub Brings : Command → Type κ
  Brings (new_order client ts o) = P o.core_order_id o.order_type
  Brings (cancel_order client ts id) = Unit
  Brings (modify_order client ts id price quantity) = Unit

  process_new_order-Within :
      (client : String) (ts : Timestamp) (o : Order) (w w' : World)
      → process_new_order client ts o w ≡ some w'
      → P o.core_order_id o.order_type
      → Within P w.orders
      → Within P w'.orders
  unfolding process_new_order add_order
  process_new_order-Within client ts o w w' e p h =
      elim (Option-cases (pre_check o w.book w.orders)) [
        | inl bad ↦ absurd (ground (arith, e, bad))
        | inr (passed, e1) ↦ elim (Bool-cases passed) [
          | inr miss ↦ subst (λ x. Within P x) {x = w.orders} (ground (arith, e, e1, miss)) h
          | inl hit ↦ elim (Bool-cases (contains_order_by_id o.core_order_id w.orders)) [
            | inl taken ↦ absurd (ground (arith, e, e1, hit, taken))
            | inr free ↦
                let w1 = publish (execution_report w.env o Action.new ∷ []) (
                  send_db (save_order o ∷ [])
                    (record w { orders = insert o.core_order_id o w.orders })) in
                elim (Option-cases (match_in o.core_order_id w1)) [
                  | inl bad ↦ absurd (ground (arith, e, e1, hit, free, bad))
                  | inr ((w2, trades), e2) ↦
                      subst (λ x. Within P x)
                        {x = (finish_new o.order_type o.core_order_id
                          (settle_new trades w2)).orders}
                        (ground (arith, e, e1, hit, free, e2))
                        (finish_new-Within o.order_type o.core_order_id _ (
                          settle_new-Within trades w2 (
                            match_in-Within o.core_order_id w1 w2 trades e2
                              (insert-Within P o.core_order_id o w.orders p h))))
                ]
          ]
        ]
      ]

  process_cancel_order-Within :
      (client : String) (id : OrderId) (w w' : World)
      → process_cancel_order client id w ≡ some w'
      → Within P w.orders
      → Within P w'.orders
  unfolding process_cancel_order get_order_by_id
  process_cancel_order-Within client id w w' e h = elim (Option-cases (find id w.orders)) [
    | inl gone ↦ subst (λ x. Within P x) {x = w.orders} (ground (arith, e, gone)) h
    | inr (o, eo) ↦ elim (Option-cases (Book.cancel_order id w.env.now w.orders w.book)) [
      | inl bad ↦ absurd (ground (arith, e, eo, bad))
      | inr ((found, book', refreshes), e1) ↦ elim (Bool-cases found) [
        | inr miss ↦ subst (λ x. Within P x) {x = w.orders} (ground (arith, e, eo, e1, miss)) h
        | inl hit ↦
            let v =
              publish (execution_report w.env o Action.canceled ∷ [])
                (record w { book = book'; market_data = w.market_data ++ refreshes }) in
            subst (λ x. Within P x) {x = (forget_order id v).orders}
              (ground (arith, e, eo, e1, hit)) (forget_order-Within id v h)
      ]
    ]
  ]

  process_modify_order-Within :
      (client : String) (id : OrderId) (price : Price) (quantity : Quantity) (w w' : World)
      → process_modify_order client id price quantity w ≡ some w'
      → Within P w.orders
      → Within P w'.orders
  unfolding process_modify_order get_order_by_id
  process_modify_order-Within client id price quantity w w' e h =
      elim (Option-cases (find id w.orders)) [
        | inl gone ↦ subst (λ x. Within P x) {x = w.orders} (ground (arith, e, gone)) h
        | inr (o, eo) ↦ elim (Option-cases (Book.cancel_order id w.env.now w.orders w.book)) [
          | inl bad ↦ absurd (ground (arith, e, eo, bad))
          | inr ((found, book', refreshes), e1) ↦
              let o' = revise price quantity o in
              let w1 = publish (execution_report w.env o' Action.replaced ∷ []) (
                send_db (remove_order id ∷ save_order o' ∷ []) (record w {
                  orders = insert id o' w.orders;
                  book = book';
                  market_data = w.market_data ++ refreshes;
                })) in
              elim (Option-cases (match_in id w1)) [
                | inl bad ↦ absurd (ground (arith, e, eo, e1, bad))
                | inr ((w2, trades), e2) ↦
                    subst (λ x. Within P x)
                      {x = (finish_modified id (settle_modified trades w2)).orders}
                      (ground (arith, e, eo, e1, e2))
                      (finish_modified-Within id _ (
                        settle_modified-Within trades w2 (
                          match_in-Within id w1 w2 trades e2
                            (insert-Within P id o' w.orders (h id o eo) h))))
              ]
        ]
      ]

  pub process_command-Within :
      (c : Command) (w w' : World)
      → process_command c w ≡ some w'
      → Brings c
      → Within P w.orders
      → Within P w'.orders
  unfolding process_command
  process_command-Within (new_order client ts o) w w' e p h =
      process_new_order-Within client ts o w w' e p h
  process_command-Within (cancel_order client ts id) w w' e p h =
      process_cancel_order-Within client id w w' e h
  process_command-Within (modify_order client ts id price quantity) w w' e p h =
      process_modify_order-Within client id price quantity w w' e h
