-- ===== src/Book/Pointers.antt =====
-- The orders that the maps of the book point to, in the order of matching, and the level of a price.
use beta_trader.Common.Order.{Order}
use mathlib.Core.List.{Perm, perm_middle}
use beta_trader.Prelude.{
  ◌≡◌, refl, sym, ap, subst, ◌∙◌, inl, inr, some, List, [], ◌∷◌, ◌++◌, append_assoc, ◌==◌,
  if◌then◌else◌, All, All-append, All-append_left, All-append_right, arith, Bool-cases,
  Option-cases, ◌⊎◌,
}
use beta_trader.Common.Types.{OrderSide, Price, OrderId}
use beta_trader.Book.{
  PriceLevel, LevelMap, pointers, before, push_back, erase_order, cancel_side, insert_order,
  insert_side, OrderBook,
}
use beta_trader.Book.Sorted.{Behind, IsSorted, Behind-trans}

-- `after` is `before` with `r` put in at one place.
abbrev pub Inserts : OrderId → List OrderId → List OrderId → Type 0
Inserts r old fresh =
    (xs : List OrderId) × (ys : List OrderId) × (old ≡ xs ++ ys) × (fresh ≡ xs ++ r ∷ ys)

pub Inserts-Perm :
    (r : OrderId) (old fresh : List OrderId) → Inserts r old fresh → Perm fresh (r ∷ old)
Inserts-Perm r old fresh (xs, ys, e, e') = rw (e, e') (perm_middle xs ys)

pub Inserts-All {κ} :
    (P : OrderId → Type κ) (r : OrderId) (old fresh : List OrderId)
    → Inserts r old fresh
    → P r
    → All P old
    → All P fresh
Inserts-All P r old fresh (xs, ys, e, e') p h =
    let h' : All P (xs ++ ys) = rw e at h in
    rw e' (All-append P xs (r ∷ ys) (All-append_left P xs ys h') (p, All-append_right P xs ys h'))

pub Inserts-All_rev {κ} :
    (P : OrderId → Type κ) (r : OrderId) (old fresh : List OrderId)
    → Inserts r old fresh
    → All P fresh
    → P r × All P old
Inserts-All_rev P r old fresh (xs, ys, e, e') h =
    let h' : All P (xs ++ r ∷ ys) = rw e' at h in
    let right = All-append_right P xs (r ∷ ys) h' in
    (right.0, rw e (All-append P xs ys (All-append_left P xs (r ∷ ys) h') right.1))

Inserts-append_left :
    (zs : List OrderId) (r : OrderId) (old fresh : List OrderId)
    → Inserts r old fresh
    → Inserts r (zs ++ old) (zs ++ fresh)
Inserts-append_left zs r old fresh (xs, ys, e, e') = (
  zs ++ xs,
  ys,
  ap (◌++◌ zs) e ∙ sym (append_assoc zs xs ys),
  ap (◌++◌ zs) e' ∙ sym (append_assoc zs xs (r ∷ ys)),
)

Inserts-append_right :
    (zs : List OrderId) (r : OrderId) (old fresh : List OrderId)
    → Inserts r old fresh
    → Inserts r (old ++ zs) (fresh ++ zs)
Inserts-append_right zs r old fresh (xs, ys, e, e') =
    (xs, ys ++ zs, rw e (append_assoc xs ys zs), rw e' (append_assoc xs (r ∷ ys) zs))

-- An insertion adds the order once, and moves no other.
pub push_back-Inserts :
    (side : OrderSide) (p : Price) (r : OrderId) (m : LevelMap)
    → Inserts r (pointers m) (pointers (push_back side p r m))
unfolding push_back
push_back-Inserts side p r [] = ([], [], refl, refl)
push_back-Inserts side p r ((q, level) ∷ m) = elim (Bool-cases (p == q)) [
  | inl e ↦ rw e (level, pointers m, refl, append_assoc level (r ∷ []) (pointers m))
  | inr ne ↦ elim (Bool-cases (before side p q)) [
    | inl lt ↦ rw (ne, lt) ([], level ++ pointers m, refl, refl)
    | inr ge ↦
        rw (ne, ge) (Inserts-append_left level r (pointers m) _ (push_back-Inserts side p r m))
  ]
]

erase_order-Inserts :
    (id : OrderId) (level level' : PriceLevel)
    → erase_order id level ≡ some level'
    → Inserts id level' level
unfolding erase_order
erase_order-Inserts id [] level' e = cc
erase_order-Inserts id (r ∷ rs) level' e = elim (Bool-cases (r == id)) [
  | inl hit ↦ ([], rs, ground arith, ground arith)
  | inr miss ↦ elim (Option-cases (erase_order id rs)) [
    | inl gone ↦ absurd (ground arith)
    | inr (rs', found) ↦
        let (xs, ys, e1, e2) = erase_order-Inserts id rs rs' found in
        (r ∷ xs, ys, ground (arith, e1), ground (arith, e2))
  ]
]

-- A cancellation takes the order out once, and moves no other.
pub cancel_side-Inserts :
    (id : OrderId) (m m' : LevelMap)
    → cancel_side id m ≡ some m'
    → Inserts id (pointers m') (pointers m)
unfolding cancel_side
cancel_side-Inserts id [] m' e = cc
cancel_side-Inserts id ((p, level) ∷ m) m' e = elim (Option-cases (erase_order id level)) [
  | inl missing ↦ elim (Option-cases (cancel_side id m)) [
    | inl none' ↦ absurd (ground arith)
    | inr (m1, e1) ↦
        subst (λ n. Inserts id (pointers n) (level ++ pointers m)) {x = (p, level) ∷ m1} {y = m'}
          (ground arith)
          (Inserts-append_left level id (pointers m1) (pointers m) (cancel_side-Inserts id m m1 e1))
  ]
  | inr ([], found) ↦
      subst (λ n. Inserts id (pointers n) (level ++ pointers m)) {x = m} {y = m'} (ground arith)
        (Inserts-append_right (pointers m) id [] level (erase_order-Inserts id level [] found))
  | inr (r ∷ rs, found) ↦
      subst (λ n. Inserts id (pointers n) (level ++ pointers m)) {x = (p, r ∷ rs) ∷ m} {y = m'}
        (ground arith)
        (Inserts-append_right (pointers m) id (r ∷ rs) level
          (erase_order-Inserts id level (r ∷ rs) found))
]

-- The level of a price; it is empty if the map has none.
unfoldable pub level_at : Price → LevelMap → PriceLevel
level_at p [] = []
level_at p ((q, level) ∷ m) = if q == p then level else level_at p m

level_at-Behind :
    (side : OrderSide) (p : Price) (m : LevelMap) → Behind side p m → level_at p m ≡ []
unfolding level_at
level_at-Behind side p [] b = refl
level_at-Behind OrderSide.buy p ((q, level) ∷ m) b =
    ground (arith, level_at-Behind OrderSide.buy p m b.1)
level_at-Behind OrderSide.sell p ((q, level) ∷ m) b =
    ground (arith, level_at-Behind OrderSide.sell p m b.1)

Side-cases : (side : OrderSide) → (side ≡ OrderSide.buy) ⊎ (side ≡ OrderSide.sell)
Side-cases OrderSide.buy = inl refl
Side-cases OrderSide.sell = inr refl

level_at-push_back :
    (side : OrderSide) (p q : Price) (r : OrderId) (m : LevelMap)
    → IsSorted side m
    → level_at q (push_back side p r m) ≡ (if p == q then level_at q m ++ r ∷ [] else level_at q m)
unfolding push_back level_at
level_at-push_back side p q r [] h = ground arith
level_at-push_back side p q r ((p', []) ∷ m) h = absurd h
level_at-push_back OrderSide.buy p q r ((p', r' ∷ rs) ∷ m) h = ground (
  arith,
  level_at-push_back OrderSide.buy p q r m h.1,
  level_at-Behind OrderSide.buy p m,
  Behind-trans OrderSide.buy p p' m,
)
level_at-push_back OrderSide.sell p q r ((p', r' ∷ rs) ∷ m) h = ground (
  arith,
  level_at-push_back OrderSide.sell p q r m h.1,
  level_at-Behind OrderSide.sell p m,
  Behind-trans OrderSide.sell p p' m,
)

-- In a book with both maps in the order of their comparators, insertOrder puts the order at the end
-- of the level of its price on its own side; the levels of the other prices, and the other side,
-- stay as they are.
pub level_at-insert_order :
    (o : Order) (b : OrderBook) (q : Price)
    → IsSorted OrderSide.buy b.bids
    → IsSorted OrderSide.sell b.asks
    → (level_at q (insert_order o b).0.bids ≡ elim o.order_side [
      | OrderSide.buy ↦
          if o.price == q then level_at q b.bids ++ o.core_order_id ∷ [] else level_at q b.bids
      | OrderSide.sell ↦ level_at q b.bids
    ])
      × (level_at q (insert_order o b).0.asks ≡ elim o.order_side [
        | OrderSide.buy ↦ level_at q b.asks
        | OrderSide.sell ↦
            if o.price == q then level_at q b.asks ++ o.core_order_id ∷ [] else level_at q b.asks
      ])
unfolding insert_order insert_side
level_at-insert_order o b q hb ha = elim (Side-cases o.order_side) [
  | inl e ↦ rw e (level_at-push_back OrderSide.buy o.price q o.core_order_id b.bids hb, refl)
  | inr e ↦ rw e (refl, level_at-push_back OrderSide.sell o.price q o.core_order_id b.asks ha)
]
