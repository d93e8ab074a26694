-- ===== src/Book/Sorted.antt =====
-- The maps of the book stay in the order of their comparators, one level for each price.
use beta_trader.Prelude.{
  ◌≡◌, inl, inr, true, false, some, [], ◌∷◌, ◌==◌, All, All-map, arith, subst, Bool-cases,
  Option-cases,
}
use beta_trader.Common.Types.{OrderSide, buy, sell, Price, OrderId}
use beta_trader.Book.{LevelMap, before, push_back, erase_order, cancel_side}

-- Every price of the map comes strictly behind `p`.
abbrev pub Behind : OrderSide → Price → LevelMap → Type 0
Behind side p = All λ e. before side p e.0 ≡ true

-- The levels stand strictly in order, and none is empty.
abbrev pub IsSorted : OrderSide → LevelMap → Type 0
IsSorted side [] = Unit
IsSorted side ((p, []) ∷ m) = ⊥
IsSorted side ((p, r ∷ rs) ∷ m) = Behind side p m × IsSorted side m

pub before_trans :
    (side : OrderSide) (p q r : Price)
    → before side p q ≡ true
    → before side q r ≡ true
    → before side p r ≡ true
before_trans buy p q r h k = ground arith
before_trans sell p q r h k = ground arith

pub Behind-trans :
    (side : OrderSide) (p q : Price) (m : LevelMap)
    → before side p q ≡ true
    → Behind side q m
    → Behind side p m
Behind-trans side p q m h b = All-map _ _ m (λ e. before_trans side p q e.0 h) b

pub before_total :
    (side : OrderSide) (p q : Price)
    → (p == q) ≡ false
    → before side p q ≡ false
    → before side q p ≡ true
before_total buy p q h k = ground arith
before_total sell p q h k = ground arith

Behind-push_back :
    (side : OrderSide) (q p : Price) (r : OrderId) (m : LevelMap)
    → before side q p ≡ true
    → Behind side q m
    → Behind side q (push_back side p r m)
unfolding push_back
Behind-push_back side q p r [] h b = (h, tt)
Behind-push_back side q p r ((p', level) ∷ m) h b =
    ground (arith, Behind-push_back side q p r m h b.1)

-- `insertOrder` keeps a map in order, whatever the price.
pub push_back-IsSorted :
    (side : OrderSide) (p : Price) (r : OrderId) (m : LevelMap)
    → IsSorted side m
    → IsSorted side (push_back side p r m)
unfolding push_back
push_back-IsSorted side p r [] h = (tt, tt)
push_back-IsSorted side p r ((q, []) ∷ m) h = absurd h
push_back-IsSorted side p r ((q, r' ∷ rs) ∷ m) h = elim (Bool-cases (p == q)) [
  | inl e ↦ rw e h
  | inr ne ↦ elim (Bool-cases (before side p q)) [
    | inl lt ↦ rw (ne, lt) ((lt, Behind-trans side p q m lt h.0), h)
    | inr ge ↦
        rw (ne, ge)
          (
            Behind-push_back side q p r m (before_total side p q ne ge) h.0,
            push_back-IsSorted side p r m h.1,
          )
  ]
]

-- A map that lost some of its levels, or some orders of a level that stays, has its prices behind
-- what they were behind.
Behind-cancel_side :
    (side : OrderSide) (q : Price) (id : OrderId) (m m' : LevelMap)
    → cancel_side id m ≡ some m'
    → Behind side q m
    → Behind side q m'
unfolding cancel_side
Behind-cancel_side side q id [] m' e b = cc
Behind-cancel_side side q id ((p, level) ∷ m) m' e b = elim (Option-cases (erase_order id level)) [
  | inl missing ↦ elim (Option-cases (cancel_side id m)) [
    | inl none' ↦ absurd (ground arith)
    | inr (m1, e1) ↦
        subst (Behind side q) {x = (p, level) ∷ m1} (ground arith)
          (b.0, Behind-cancel_side side q id m m1 e1 b.1)
  ]
  | inr ([], found) ↦ subst (Behind side q) {x = m} (ground arith) b.1
  | inr (r ∷ rs, found) ↦ subst (Behind side q) {x = (p, r ∷ rs) ∷ m} (ground arith) b
]

-- `cancelOrder` keeps a map in order, and drops a level that it empties.
pub cancel_side-IsSorted :
    (side : OrderSide) (id : OrderId) (m m' : LevelMap)
    → cancel_side id m ≡ some m'
    → IsSorted side m
    → IsSorted side m'
unfolding cancel_side
cancel_side-IsSorted side id [] m' e h = cc
cancel_side-IsSorted side id ((p, []) ∷ m) m' e h = absurd h
cancel_side-IsSorted side id ((p, r0 ∷ rs0) ∷ m) m' e h =
    elim (Option-cases (erase_order id (r0 ∷ rs0))) [
      | inl missing ↦ elim (Option-cases (cancel_side id m)) [
        | inl none' ↦ absurd (ground arith)
        | inr (m1, e1) ↦
            subst (IsSorted side) {x = (p, r0 ∷ rs0) ∷ m1} (ground arith)
              (Behind-cancel_side side p id m m1 e1 h.0, cancel_side-IsSorted side id m m1 e1 h.1)
      ]
      | inr ([], found) ↦ subst (IsSorted side) {x = m} (ground arith) h.1
      | inr (r ∷ rs, found) ↦ subst (IsSorted side) {x = (p, r ∷ rs) ∷ m} (ground arith) (h.0, h.1)
    ]
