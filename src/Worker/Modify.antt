-- ===== src/Worker/Modify.antt =====
-- Modifying: the order leaves the book, is matched anew, and what is left of it rests again.
use beta_trader.Prelude.{
  ◌≡◌, refl, sym, ap, subst, ◌≢◌, inl, inr, Bool, true, false, some, List, [], ◌∷◌, ◌++◌, String,
  find, insert, find-insert, arith, Bool-cases, Option-cases, ◌==◌,
}
use beta_trader.Common.Types.{buy, limit, OrderId, Price, Quantity}
use beta_trader.Common.Order.{Order}
use beta_trader.Book
use beta_trader.Book.{Store, LevelMap, OrderBook, pointers, cancel_side, erase_from_book}
use beta_trader.Book.{refresh_of, MdUpdateAction, MarketDataIncrementalRefresh}
use beta_trader.Manager.{get_order_by_id}
use beta_trader.Publisher.{execution_report, Action}
use beta_trader.Worker.{
  World, process_modify_order, settle_modified, finish_modified, rest_order, forget_order, send_db,
  publish, is_rejected, save_order, remove_order, revise, unknown_symbol,
}
use beta_trader.Worker.Settle.{Settles, settle_modified-Settles}
use beta_trader.Worker.Consistent.{
  IsConsistent, IsOutside, MatchedWorld, match_in-MatchedWorld, forget_order-IsConsistent,
}
use beta_trader.Worker.Commands.{unchanged, insert-IsConsistent, settled_far, settled-IsConsistent}
use beta_trader.Worker.Cancel.{erase_from_book-Erased, erase_from_book-none, Erased-IsConsistent}
use beta_trader.Worker.Rest.{rest_order-IsConsistent}

finish_modified-empty :
    (i : OrderId) (v : World) (o : Order)
    → find i v.orders ≡ some o
    → o.remaining_quantity ≡ 0
    → finish_modified i v ≡ forget_order i v
unfolding finish_modified rest_order get_order_by_id
finish_modified-empty i v o e z = ground arith

finish_modified-rest :
    (i : OrderId) (v : World)
    → ((o : Order) → find i v.orders ≡ some o → o.remaining_quantity ≢ 0)
    → finish_modified i v ≡ rest_order i v
unfolding finish_modified rest_order get_order_by_id
finish_modified-rest i v n = elim (Option-cases (find i v.orders)) [
  | inl gone ↦ ground arith
  | inr (o, e) ↦ let nz = n o e in ground arith
]

-- The run from the matcher to the end of `processModifyOrder`.
finish_modified-IsConsistent :
    (i : OrderId) (inc : Order) (w v : World) (r : MatchedWorld i inc w)
    → Settles r.after v
    → inc.order_type ≡ limit
    → IsConsistent (finish_modified i v)
finish_modified-IsConsistent i inc w v r st t =
    let (c, out) = settled-IsConsistent i inc w v r st in
    let c' = rest_order-IsConsistent i v c out (settled_far i inc w v r st t) in
    elim (Option-cases (find i v.orders)) [
      | inl gone ↦
          subst IsConsistent (sym (finish_modified-rest i v (λ o e. absurd (ground arith)))) c'
      | inr (o, e) ↦ elim (Bool-cases (o.remaining_quantity == 0)) [
        | inl zero' ↦
            subst IsConsistent (sym (finish_modified-empty i v o e (ground arith)))
              (forget_order-IsConsistent i v out c)
        | inr more ↦ subst IsConsistent (sym (finish_modified-rest i v (λ x ex z. ground arith))) c'
      ]
    ]

-- From a consistent partition, a modification is processed without a fault, and the partition is
-- consistent again, if the order that it names, when there is one, is a limit order.
pub process_modify_order-IsConsistent :
    (client : String) (id : OrderId) (price : Price) (quantity : Quantity) (w : World)
    → IsConsistent w
    → ((o : Order) → find id w.orders ≡ some o → o.order_type ≡ limit)
    → (w' : World) × (process_modify_order client id price quantity w ≡ some w') × IsConsistent w'
unfolding process_modify_order get_order_by_id Book.cancel_order
process_modify_order-IsConsistent client id price quantity w h is_limit =
    elim (Option-cases (find id w.orders)) [
      | inl gone ↦ (
        is_rejected w client id unknown_symbol buy "Order not found",
        ground arith,
        unchanged w _ refl refl h,
      )
      | inr (o, e) ↦
          let o' : Order = revise price quantity o in
          let go : (b : OrderBook) (found : Bool) (refreshes : List MarketDataIncrementalRefresh)
              → Book.cancel_order id w.env.now w.orders w.book ≡ some (found, b, refreshes)
              → IsConsistent (record w { book = b })
              → IsOutside id b
              → (w' : World) × (process_modify_order client id price quantity w ≡ some w')
                × IsConsistent w' =
            λ b found refreshes result c out.
              let w1 : World = send_db (remove_order id ∷ save_order o' ∷ []) (record w {
                orders = insert id o' w.orders;
                book = b;
                market_data = w.market_data ++ refreshes;
              }) in
              let w2 : World = publish (execution_report w.env o' Action.replaced ∷ []) w1 in
              let key : o.core_order_id ≡ id = h.keyed id o e in
              let c2 : IsConsistent w2 =
                insert-IsConsistent o' (record w { book = b }) w2
                  (ap (λ x. insert x o' w.orders) (sym key)) refl
                  (subst (λ x. IsOutside x b) (sym key) out) c in
              let r =
                match_in-MatchedWorld id o' w2 c2 out
                  (ground (arith, find-insert id id o' w.orders)) in
              let st = settle_modified-Settles r.trades r.after (r.consistent).keyed in
              (
                finish_modified id (settle_modified r.trades r.after),
                ground (arith, e, result, r.result),
                finish_modified-IsConsistent id o' w2 _ r st (is_limit o e),
              ) in
          elim (Option-cases (erase_from_book id w.book)) [
            | inl missing ↦
                go w.book false [] (ground (arith, missing)) (unchanged w _ refl refl h)
                  (erase_from_book-none id w.book missing)
            | inr (b, found) ↦
                let r = erase_from_book-Erased id w b h found in
                go b true (refresh_of w.book.symbol MdUpdateAction.delete o w.env.now ∷ [])
                  (ground (arith, found, e))
                  (Erased-IsConsistent id w (record w { book = b }) b h r refl refl) r.outside
          ]
    ]
