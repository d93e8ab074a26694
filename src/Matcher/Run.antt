-- ===== src/Matcher/Run.antt =====
-- The loops of the matcher as a relation, and that they never read a dangling pointer.
use beta_trader.Prelude.{
  ◌≤◌, ◌<◌, ◌≡◌, refl, ◌⊎◌, inl, inr, some, List, [], ◌∷◌, ◌++◌, ◌==◌, true, false, if◌then◌else◌,
  find, insert, find-insert, All, All-map, All-append_left, All-append_right, arith, Bool-cases,
}
use beta_trader.Common.Types.{OrderId, Price}
use beta_trader.Common.Order.{Order, Trade}
use beta_trader.Book.{Store, PriceLevel, LevelMap, pointers}
use beta_trader.Matcher.{
  MatchState, make_trade, fill_incoming, fill_resting, after_trade, match_level, out_of_reach,
  keep_level, match_levels,
}

-- The pointer `k` can be read.
abbrev pub Has : Store → OrderId → Type 0
Has orders k = (o : Order) × (find k orders ≡ some o)

-- One pass over a level.
pub data LevelRun (i : OrderId)
    : PriceLevel → MatchState → PriceLevel → MatchState → List Trade → Type 0 where
  emptied : {s : MatchState} → LevelRun i [] s [] s []
  satisfied :
      {r : OrderId} {rs : PriceLevel} {s : MatchState} (inc : Order)
      → find i s.orders ≡ some inc
      → inc.remaining_quantity ≡ 0
      → LevelRun i (r ∷ rs) s (r ∷ rs) s []
  takes :
      {r : OrderId} {rs left : PriceLevel} {s s' : MatchState} {ts : List Trade} (inc res : Order)
      → find i s.orders ≡ some inc
      → find r s.orders ≡ some res
      → 0 < inc.remaining_quantity
      → res.remaining_quantity ≤ inc.remaining_quantity
      → LevelRun i rs (after_trade i r s inc res) left s' ts
      → LevelRun i (r ∷ rs) s left s' (make_trade s inc res ∷ ts)
  bites :
      {r : OrderId} {rs : PriceLevel} {s : MatchState} (inc res : Order)
      → find i s.orders ≡ some inc
      → find r s.orders ≡ some res
      → 0 < inc.remaining_quantity
      → inc.remaining_quantity < res.remaining_quantity
      → LevelRun i (r ∷ rs) s (r ∷ rs) (after_trade i r s inc res) (make_trade s inc res ∷ [])

pub find-after_trade :
    (i r k : OrderId) (s : MatchState) (inc res : Order)
    → find k (after_trade i r s inc res).orders ≡ (
        if r == k
        then some (fill_resting inc res)
        else if i == k
        then some (fill_incoming inc res)
        else find k s.orders)
unfolding after_trade
find-after_trade i r k s inc res = ground (
  arith,
  find-insert r k (fill_resting inc res) (insert i (fill_incoming inc res) s.orders),
  find-insert i k (fill_incoming inc res) s.orders,
)

pub Has-after_trade :
    (i r k : OrderId) (s : MatchState) (inc res : Order)
    → Has s.orders k
    → Has (after_trade i r s inc res).orders k
Has-after_trade i r k s inc res (o, e) = elim (Bool-cases (r == k)) [
  | inl h ↦ (fill_resting inc res, ground (arith, find-after_trade i r k s inc res))
  | inr h ↦ elim (Bool-cases (i == k)) [
    | inl h' ↦ (fill_incoming inc res, ground (arith, find-after_trade i r k s inc res))
    | inr h' ↦ (o, ground (arith, find-after_trade i r k s inc res))
  ]
]

abbrev LevelResult : OrderId → PriceLevel → MatchState → Type 0
LevelResult i level s =
    (left : PriceLevel) × (s' : MatchState) × (ts : List Trade) × (match_level i level s
      ≡ some (left, s', ts))
    × LevelRun i level s left s' ts

-- With the incoming order and the level alive, the loop ends without a fault.
pub match_level-LevelRun :
    (i : OrderId) (level : PriceLevel) (s : MatchState)
    → Has s.orders i
    → All (Has s.orders) level
    → LevelResult i level s
unfolding match_level fill_resting
match_level-LevelRun i [] s hi h = ([], s, [], refl, emptied)
match_level-LevelRun i (r ∷ rs) s (inc, ei) ((res, er), h) =
    elim (Bool-cases (inc.remaining_quantity == 0)) [
      | inl done ↦ (r ∷ rs, s, [], ground arith, satisfied inc ei (ground arith))
      | inr more ↦ elim (Bool-cases ((fill_resting inc res).remaining_quantity == 0)) [
        | inl gone ↦
            let s1 = after_trade i r s inc res in
            let (left, s', ts, e, run) =
              match_level-LevelRun i rs s1 (Has-after_trade i r i s inc res (inc, ei))
                (All-map _ _ rs (λ k. Has-after_trade i r k s inc res) h) in
            (
              left,
              s',
              make_trade s inc res ∷ ts,
              ground (arith, e),
              takes inc res ei er (ground arith) (ground arith) run,
            )
        | inr stays ↦ (
          r ∷ rs,
          after_trade i r s inc res,
          make_trade s inc res ∷ [],
          ground arith,
          bites inc res ei er (ground arith) (ground arith),
        )
      ]
    ]

-- The outer loop.
pub data TableRun (i : OrderId)
    : LevelMap → MatchState → LevelMap → MatchState → List Trade → Type 0 where
  ended : {s : MatchState} → TableRun i [] s [] s []
  stopped :
      {p : Price} {level : PriceLevel} {m : LevelMap} {s : MatchState} (inc : Order)
      → find i s.orders ≡ some inc
      → (inc.remaining_quantity ≡ 0) ⊎ (out_of_reach inc p ≡ true)
      → TableRun i ((p, level) ∷ m) s ((p, level) ∷ m) s []
  passes :
      {p : Price} {level level' : PriceLevel} {m m' : LevelMap} {s s' s'' : MatchState}
      {ts ts' : List Trade} (inc : Order)
      → find i s.orders ≡ some inc
      → 0 < inc.remaining_quantity
      → out_of_reach inc p ≡ false
      → LevelRun i level s level' s' ts
      → TableRun i m s' m' s'' ts'
      → TableRun i ((p, level) ∷ m) s (keep_level p level' m') s'' (ts ++ ts')

pub LevelRun-Has :
    {i : OrderId} {level left : PriceLevel} {s s' : MatchState} {ts : List Trade}
    → LevelRun i level s left s' ts
    → (k : OrderId) → Has s.orders k
    → Has s'.orders k
LevelRun-Has emptied k h = h
LevelRun-Has (satisfied inc ei z) k h = h
LevelRun-Has {i} (takes {r = r} {s = s} inc res ei er z y run) k h =
    LevelRun-Has run k (Has-after_trade i r k s inc res h)
LevelRun-Has {i} (bites {r = r} {s = s} inc res ei er z y) k h = Has-after_trade i r k s inc res h

abbrev TableResult : OrderId → LevelMap → MatchState → Type 0
TableResult i m s =
    (m' : LevelMap) × (s' : MatchState) × (ts : List Trade) × (match_levels i m s
      ≡ some (m', s', ts))
    × TableRun i m s m' s' ts

pub match_levels-TableRun :
    (i : OrderId) (m : LevelMap) (s : MatchState)
    → Has s.orders i
    → All (Has s.orders) (pointers m)
    → TableResult i m s
unfolding match_levels
match_levels-TableRun i [] s hi h = ([], s, [], refl, ended)
match_levels-TableRun i ((p, level) ∷ m) s (inc, ei) h =
    elim (Bool-cases (inc.remaining_quantity == 0)) [
      | inl done ↦ ((p, level) ∷ m, s, [], ground arith, stopped inc ei (inl (ground arith)))
      | inr more ↦ elim (Bool-cases (out_of_reach inc p)) [
        | inl far ↦ ((p, level) ∷ m, s, [], ground arith, stopped inc ei (inr far))
        | inr near ↦
            let (level', s', ts, e, run) =
              match_level-LevelRun i level s (inc, ei) (All-append_left _ level (pointers m) h) in
            let (m', s'', ts', e', run') =
              match_levels-TableRun i m s' (LevelRun-Has run i (inc, ei)) (
                All-map _ _ (pointers m) (LevelRun-Has run)
                  (All-append_right _ level (pointers m) h)) in
            (
              keep_level p level' m',
              s'',
              ts ++ ts',
              ground (arith, e, e'),
              passes inc ei (ground arith) near run run',
            )
      ]
    ]

pub TableRun-Has :
    {i : OrderId} {m m' : LevelMap} {s s' : MatchState} {ts : List Trade}
    → TableRun i m s m' s' ts
    → (k : OrderId) → Has s.orders k
    → Has s'.orders k
TableRun-Has ended k h = h
TableRun-Has (stopped inc ei z) k h = h
TableRun-Has (passes inc ei z y run rest) k h = TableRun-Has rest k (LevelRun-Has run k h)
