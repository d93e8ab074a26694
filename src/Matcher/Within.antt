-- ===== src/Matcher/Within.antt =====
-- What holds of the ids and the types of the orders that are owned goes on to hold: matching changes
-- neither.
use beta_trader.Prelude.{
  ◌≡◌, refl, some, List, [], ◌∷◌, ◌==◌, ◌||◌, find, insert, find-insert, arith, subst, Bool-cases,
  Option-cases, inl, inr,
}
use beta_trader.Common.Types.{OrderType, OrderId, OrderSide, buy, sell}
use beta_trader.Common.Order.{Order, Trade, set_status}
use beta_trader.Book.{Store, PriceLevel, LevelMap, OrderBook}
use beta_trader.Matcher.{
  MatchState, fill_incoming, fill_resting, after_trade, match_level, out_of_reach, match_levels,
  final_status, match_table, match,
}

abbrev pub Within {κ} : (OrderId → OrderType → Type κ) → Store → Type κ
Within P orders = (k : OrderId) (o : Order) → find k orders ≡ some o → P k o.order_type

module _ {κ} (P : OrderId → OrderType → Type κ) where
  pub insert-Within :
      (k : OrderId) (o : Order) (orders : Store)
      → P k o.order_type
      → Within P orders
      → Within P (insert k o orders)
  insert-Within k o orders p h j x e = elim (Bool-cases (k == j)) [
    | inl same ↦
        subst (λ (y : OrderId × Order). P y.0 y.1.order_type) {x = (k, o)} {y = (j, x)}
          (ground (arith, find-insert k j o orders, e, same)) p
    | inr other ↦ h j x (ground (arith, find-insert k j o orders, e, other))
  ]

  after_trade-Within :
      (i r : OrderId) (s : MatchState) (inc res : Order)
      → find i s.orders ≡ some inc
      → find r s.orders ≡ some res
      → Within P s.orders
      → Within P (after_trade i r s inc res).orders
  unfolding after_trade fill_incoming fill_resting
  after_trade-Within i r s inc res ei er h =
      insert-Within r (fill_resting inc res) (insert i (fill_incoming inc res) s.orders)
        (h r res er) (insert-Within i (fill_incoming inc res) s.orders (h i inc ei) h)

  match_level-Within :
      (i : OrderId) (level left : PriceLevel) (s s' : MatchState) (ts : List Trade)
      → match_level i level s ≡ some (left, s', ts)
      → Within P s.orders
      → Within P s'.orders
  unfolding match_level
  match_level-Within i [] left s s' ts e h =
      subst (λ x. Within P x) {x = s.orders} (ground (arith, e)) h
  match_level-Within i (r ∷ rs) left s s' ts e h = elim (Option-cases (find i s.orders)) [
    | inl gone ↦ absurd (ground (arith, e, gone))
    | inr (inc, ei) ↦ elim (Bool-cases (inc.remaining_quantity == 0)) [
      | inl z ↦ subst (λ x. Within P x) {x = s.orders} (ground (arith, e, ei, z)) h
      | inr nz ↦ elim (Option-cases (find r s.orders)) [
        | inl gone ↦ absurd (ground (arith, e, ei, nz, gone))
        | inr (res, er) ↦
            let s1 = after_trade i r s inc res in
            let h1 = after_trade-Within i r s inc res ei er h in
            elim (Bool-cases ((fill_resting inc res).remaining_quantity == 0)) [
              | inr more ↦
                  subst (λ x. Within P x) {x = s1.orders} (ground (arith, e, ei, nz, er, more)) h1
              | inl out ↦ elim (Option-cases (match_level i rs s1)) [
                | inl bad ↦ absurd (ground (arith, e, ei, nz, er, out, bad))
                | inr ((left1, s2, ts2), e2) ↦
                    match_level-Within i rs left1 s1 s' ts2 (ground (arith, e, ei, nz, er, out, e2))
                      h1
              ]
            ]
      ]
    ]
  ]

  match_levels-Within :
      (i : OrderId) (m left : LevelMap) (s s' : MatchState) (ts : List Trade)
      → match_levels i m s ≡ some (left, s', ts)
      → Within P s.orders
      → Within P s'.orders
  unfolding match_levels
  match_levels-Within i [] left s s' ts e h =
      subst (λ x. Within P x) {x = s.orders} (ground (arith, e)) h
  match_levels-Within i ((p, level) ∷ m) left s s' ts e h = elim (Option-cases (find i s.orders)) [
    | inl gone ↦ absurd (ground (arith, e, gone))
    | inr (inc, ei) ↦ elim (Bool-cases (inc.remaining_quantity == 0 || out_of_reach inc p)) [
      | inl z ↦ subst (λ x. Within P x) {x = s.orders} (ground (arith, e, ei, z)) h
      | inr nz ↦ elim (Option-cases (match_level i level s)) [
        | inl bad ↦ absurd (ground (arith, e, ei, nz, bad))
        | inr ((level1, s1, ts1), e1) ↦ elim (Option-cases (match_levels i m s1)) [
          | inl bad ↦ absurd (ground (arith, e, ei, nz, e1, bad))
          | inr ((m2, s2, ts2), e2) ↦
              match_levels-Within i m m2 s1 s' ts2 (ground (arith, e, ei, nz, e1, e2))
                (match_level-Within i level level1 s s1 ts1 e1 h)
        ]
      ]
    ]
  ]

  match_table-Within :
      (i : OrderId) (m left : LevelMap) (s s' : MatchState) (ts : List Trade)
      → match_table i m s ≡ some (left, s', ts)
      → Within P s.orders
      → Within P s'.orders
  unfolding match_table
  match_table-Within i m left s s' ts e h = elim (Option-cases (match_levels i m s)) [
    | inl bad ↦ absurd (ground (arith, e, bad))
    | inr ((m1, s1, ts1), e1) ↦ elim (Option-cases (find i s1.orders)) [
      | inl bad ↦ absurd (ground (arith, e, e1, bad))
      | inr (o, eo) ↦
          let h1 = match_levels-Within i m m1 s s1 ts1 e1 h in
          subst (λ x. Within P x) {x = insert i (set_status (final_status o) o) s1.orders}
            (ground (arith, e, e1, eo))
            (insert-Within i (set_status (final_status o) o) s1.orders (h1 i o eo) h1)
    ]
  ]

  pub match-Within :
      (i : OrderId) (b b' : OrderBook) (s s' : MatchState) (ts : List Trade)
      → match i b s ≡ some (b', s', ts)
      → Within P s.orders
      → Within P s'.orders
  unfolding match
  match-Within i b b' s s' ts e h = elim (Option-cases (find i s.orders)) [
    | inl bad ↦ absurd (ground (arith, e, bad))
    | inr (inc, ei) ↦ side inc ei inc.order_side refl
  ]
    where
      side :
          (inc : Order)
          → find i s.orders ≡ some inc
          → (d : OrderSide) → inc.order_side ≡ d
          → Within P s'.orders
      side inc ei buy ed = elim (Option-cases (match_table i b.asks s)) [
        | inl bad ↦ absurd (ground (arith, e, ei, ed, bad))
        | inr ((m, s1, ts1), e1) ↦
            match_table-Within i b.asks m s s' ts1 (ground (arith, e, ei, ed, e1)) h
      ]
      side inc ei sell ed = elim (Option-cases (match_table i b.bids s)) [
        | inl bad ↦ absurd (ground (arith, e, ei, ed, bad))
        | inr ((m, s1, ts1), e1) ↦
            match_table-Within i b.bids m s s' ts1 (ground (arith, e, ei, ed, e1)) h
      ]
