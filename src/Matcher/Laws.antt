-- ===== src/Matcher/Laws.antt =====
-- The laws of `Matcher::match`: what it does to the book, the orders and the trades.
use beta_trader.Matcher.Beyond.{beyond, TableRun-beyond, AllOutOfReach-beyond}
use beta_trader.Prelude.{
  ◌+◌, ◌≡◌, refl, ◌⊎◌, ◌<◌, inl, inr, some, All-map, find, All, arith, false, ◌==◌, if◌then◌else◌,
  length, u64_mod, ◌∙◌,
}
use beta_trader.Common.Types.{market, OrderId, filled, cancelled}
use beta_trader.Common.Order.{Order, set_status}
use beta_trader.Book.{pointers, OrderBook, LevelMap}
use beta_trader.Book.Sorted.{IsSorted}
use beta_trader.Matcher.Fills.{FilledIn, Matched, TableRun-Filled}
use beta_trader.Matcher.Priority.{Serves, Spent, counterparty, TableRun-Serves}
use beta_trader.Matcher.Prices.{
  IsPriced, opposite, AllOutOfReach, TableRun-price, TableRun-IsSorted, TableRun-stops, WithinLimit,
  out_of_reach-WithinLimit,
}
use beta_trader.Matcher.Numbers.{Numbered, Progress, TableRun-Numbers, TableRun-Progress}
use beta_trader.Matcher.Reach.{TableRun-reach}
use beta_trader.Book.Sound.{AllRest}
use beta_trader.Matcher.{MatchState, out_of_reach, final_status}
use beta_trader.Matcher.Ends.{
  opposite_map, IsMatchable, Ends, closed, Spent-closed, FilledIn-closed, find-closed,
  progress_status, progress_status-ne-nil, Serves-length, ends,
}

module _ (i : OrderId) (inc : Order) (b : OrderBook) (s : MatchState)
    (h : IsMatchable i inc b s) where
  -- Quantity is conserved order by order: for an incoming order that can be matched, every order
  -- that was owned is still owned, unchanged but for its status and its remaining quantity, which
  -- fell by exactly the quantity of the trades that name it.
  pub match-Filled :
      (k : OrderId) (o : Order)
      → find k s.orders ≡ some o
      → Ends i inc b s λ _ s' ts. FilledIn k ts o s'.orders
  match-Filled k o e =
      ends i inc b s h _
        λ r. FilledIn-closed r k r.trades o (TableRun-Filled r.run h.keyed h.apart k o e)

  -- Price-time priority: for an incoming order that can be matched, the trades are with the orders
  -- of the opposite map in its order, from the front; each order that leaves the map has one trade
  -- and nothing left, and at most one more trade is with the order then in front.
  pub match-Serves : Ends i inc b s λ m s' ts.
      Serves inc.order_side (pointers (opposite_map inc.order_side b)) (pointers m) s'.orders ts
  match-Serves =
      ends i inc b s h _
        λ r. close r (TableRun-Serves inc r.run h.keyed h.apart (inc, h.incoming, refl))
    where
      close :
          (r : Matched i (opposite_map inc.order_side b) s)
          → Serves inc.order_side
              (pointers (opposite_map inc.order_side b))
              (pointers r.left)
              (r.after).orders
              r.trades
          → Serves inc.order_side
              (pointers (opposite_map inc.order_side b))
              (pointers r.left)
              (closed r).orders
              r.trades
      close r v = record {
        gone = v.gone;
        split = v.split;
        served = v.served;
        spent = All-map _ _ v.gone (Spent-closed r) v.spent;
      }

  -- If the incoming order can be matched and every order of the opposite map rests at its own
  -- price, then no trade of a limit order to buy is above its price, and none of a limit order to
  -- sell below.
  pub match-price :
      IsPriced s.orders (opposite_map inc.order_side b)
      → Ends i inc b s
          λ _ _ ts. All (λ t. WithinLimit inc.order_type inc.order_side inc.price t.price) ts
  match-price priced = ends i inc b s h _ λ r.
      All-map _ _ r.trades (λ t. out_of_reach-WithinLimit inc t.price)
        (TableRun-price inc r.run h.keyed h.apart priced (inc, h.incoming, refl))

  -- If the incoming order can be matched and the opposite map is in the order of its comparator, it
  -- stays so, and the levels above the price of a limit order to buy, or below that of a limit
  -- order to sell, stay in it as they were. At the end nothing is left of the incoming order, or
  -- these levels are all that is left of the map; for an order of another type there are no such
  -- levels.
  pub match-stops :
      IsSorted (opposite inc.order_side) (opposite_map inc.order_side b)
      → let kept = beyond inc.order_type inc.order_side inc.price (opposite_map inc.order_side b) in
        Ends i inc b s λ m s' _.
          IsSorted (opposite inc.order_side) m
          × (beyond inc.order_type inc.order_side inc.price m ≡ kept)
          × (Spent s'.orders i ⊎ (m ≡ kept))
  match-stops sorted = ends i inc b s h _ λ r.
      let keeps = TableRun-beyond inc r.run h.keyed h.apart (inc, h.incoming, refl) in
      (
        TableRun-IsSorted (opposite inc.order_side) r.run sorted,
        keeps,
        close r keeps (TableRun-stops inc r.run h.keyed h.apart sorted (inc, h.incoming, refl)),
      )
    where
      close :
          (r : Matched i (opposite_map inc.order_side b) s) {kept : LevelMap}
          → beyond inc.order_type inc.order_side inc.price r.left ≡ kept
          → Spent (r.after).orders i ⊎ AllOutOfReach inc r.left
          → Spent (closed r).orders i ⊎ (r.left ≡ kept)
      close r keeps (inl sp) = inl (Spent-closed r i sp)
      close r keeps (inr far) = inr (AllOutOfReach-beyond inc r.left far ∙ keeps)

  -- If the trade id generator cannot wrap around within one trade for each order of the opposite
  -- map, the ids of the trades of an incoming order that can be matched are the ones that follow
  -- its state, in order, and its new state is the last of them.
  pub match-Numbered :
      s.trade_id + length (pointers (opposite_map inc.order_side b)) < u64_mod
      → Ends i inc b s λ _ s' ts. Numbered s.trade_id ts × (s'.trade_id ≡ s.trade_id + length ts)
  match-Numbered bound = ends i inc b s h _ λ r. TableRun-Numbers r.run (
      omega
        (arith, Serves-length (TableRun-Serves inc r.run h.keyed h.apart (inc, h.incoming, refl))))

  -- The final status of an incoming order that can be matched: filled if nothing is left of it;
  -- otherwise cancelled for a market order of which all of the original quantity is left; otherwise
  -- partially filled if there was a trade, and what it was before if there was none.
  pub match-status : Ends i inc b s λ _ s' ts.
      (o : Order) × (find i s'.orders ≡ some o)
      × (o.order_status ≡ (
          if o.remaining_quantity == 0 then filled else elim o.order_type [
            | market ↦
                if o.original_quantity == o.remaining_quantity
                then cancelled
                else progress_status inc ts
            | _ ↦ progress_status inc ts
          ]))
  unfolding final_status
  match-status = ends i inc b s h _ λ r. (
    set_status (final_status r.last) r.last,
    ground (arith, find-closed r i),
    ground (arith, last_status r (TableRun-Progress r.run h.apart)),
  )
    where
      last_status :
          (r : Matched i (opposite_map inc.order_side b) s)
          → Progress i s.orders (r.after).orders r.trades
          → (r.last).order_status ≡ progress_status inc r.trades
      last_status r (inl (e, same)) = rw e (ground (arith, same, r.is_last, h.incoming))
      last_status r (inr (more, o, e, e')) =
          ground (arith, e, e', r.is_last, progress_status-ne-nil inc r.trades more)

  -- What holds of the orders at prices within reach holds of those that the trades are with.
  pub match-reach {κ} :
      (P : OrderId → Type κ)
      → AllRest (λ p r. out_of_reach inc p ≡ false → P r) (opposite_map inc.order_side b)
      → Ends i inc b s λ _ _ ts. All (λ t. P (counterparty inc.order_side t)) ts
  match-reach P a =
      ends i inc b s h _ λ r. TableRun-reach P inc r.run h.keyed h.apart (inc, h.incoming, refl) a
