-- ===== src/Matcher/Summary.antt =====
-- What a call of `Matcher::match` on a sound map leaves, in the form in which the worker uses it.
use beta_trader.Prelude.{
  ◌≡◌, refl, sym, ◌∙◌, ◌≢◌, ◌⊎◌, inl, inr, All-map, All-append_right, subst, find, All, arith,
}
use beta_trader.Common.Types.{OrderId, Price}
use beta_trader.Common.Order.{Order}
use beta_trader.Book.{LevelMap, pointers, OrderBook}
use beta_trader.Matcher.Fills.{IsKeyed, Matched, TableRun-IsKeyed, TableRun-Filled}
use beta_trader.Matcher.Priority.{Spent, Incoming, TableRun-Serves}
use beta_trader.Matcher.Prices.{opposite, AllOutOfReach, TableRun-stops, TableRun-AllPrices}
use beta_trader.Matcher.Sound.{TableRun-IsSound}
use beta_trader.Matcher.Resting.{TableRun-untouched}
use beta_trader.Book.Sound.{IsSound, IsSound-frame}
use beta_trader.Matcher.{MatchState}
use beta_trader.Matcher.Ends.{
  opposite_map, IsMatchable, Ends, closed, Spent-closed, FilledIn-closed, find-closed,
  find-closed_ne, ends,
}

module _ (i : OrderId) (inc : Order) (b : OrderBook) (s : MatchState)
    (h : IsMatchable i inc b s) where
  -- What the worker needs of a call, for a sound opposite map.
  pub record Summary (m : LevelMap) (s' : MatchState) : Type 1 where
    pub sound : IsSound s'.orders (opposite inc.order_side) m
    pub left_apart : All (λ k. k ≢ i) (pointers m)
    pub still_keyed : IsKeyed s'.orders
    pub untouched :
        (k : OrderId)
        → k ≢ i
        → All (λ r. r ≢ k) (pointers (opposite_map inc.order_side b))
        → find k s'.orders ≡ find k s.orders
    pub still_incoming : Incoming s'.orders i inc
    pub stops : Spent s'.orders i ⊎ AllOutOfReach inc m
    pub prices :
        (P : Price → Type 0) → All (λ e. P e.0) (opposite_map inc.order_side b) → All (λ e. P e.0) m

  pub match-Summary :
      IsSound s.orders (opposite inc.order_side) (opposite_map inc.order_side b)
      → Ends i inc b s λ m s' _. Summary m s'
  match-Summary sound = ends i inc b s h _ λ r.
      let hi : Incoming s.orders i inc = (inc, h.incoming, refl) in
      let v = TableRun-Serves inc r.run h.keyed h.apart hi in
      let apart' =
        All-append_right (λ k. k ≢ i) v.gone (pointers r.left)
          (subst (All (λ k. k ≢ i)) v.split h.apart) in
      let (o, e, f) =
        FilledIn-closed r i r.trades inc (TableRun-Filled r.run h.keyed h.apart i inc h.incoming) in
      record {
        sound =
            IsSound-frame (r.after).orders (closed r).orders (opposite inc.order_side) r.left
              (All-map _ _ (pointers r.left) (λ k n. find-closed_ne r k n) apart')
              (TableRun-IsSound (opposite inc.order_side) inc r.run h.keyed h.apart hi sound);
        left_apart = apart';
        still_keyed = λ k x e. closed_keyed r k x e;
        untouched = λ k n a. find-closed_ne r k n ∙ TableRun-untouched r.run k (λ e. n (sym e)) a;
        still_incoming = (o, e, f.same);
        stops = close r (TableRun-stops inc r.run h.keyed h.apart sound.sorted hi);
        prices = λ P a. TableRun-AllPrices P r.run a;
      }
    where
      closed_keyed : (r : Matched i (opposite_map inc.order_side b) s) → IsKeyed (closed r).orders
      closed_keyed r k x e =
          let before = TableRun-IsKeyed r.run h.keyed in
          ground (arith, find-closed r k, before i r.last r.is_last, before k x)

      close :
          (r : Matched i (opposite_map inc.order_side b) s)
          → Spent (r.after).orders i ⊎ AllOutOfReach inc r.left
          → Spent (closed r).orders i ⊎ AllOutOfReach inc r.left
      close r (inl sp) = inl (Spent-closed r i sp)
      close r (inr far) = inr far
