-- ===== src/Book/Sound.antt =====
-- When a map of the book is sound: its levels are in order, and each order in it is owned, once there,
-- on its side, at its price, with something left.
use beta_trader.Prelude.{
  ◌<◌, ◌≡◌, sym, ◌∙◌, ◌≢◌, inl, inr, true, some, none, List, [], ◌∷◌, ◌++◌, find, All, All-map,
  All-append, All-append_left, All-append_right, Distinct, arith, Bool-cases, Option-cases, subst,
  ◌==◌,
}
use beta_trader.Common.Types.{OrderSide, OrderId, Price}
use beta_trader.Common.Order.{Order}
use beta_trader.Book.{
  Store, PriceLevel, LevelMap, pointers, before, push_back, erase_order, cancel_side,
}
use beta_trader.Book.Sorted.{IsSorted, push_back-IsSorted, cancel_side-IsSorted}
use beta_trader.Book.Pointers.{push_back-Inserts, cancel_side-Inserts}

abbrev pub Resting : Store → OrderSide → Price → OrderId → Type 0
Resting orders side p r =
    (o : Order) × (find r orders ≡ some o)
    × (o.price ≡ p)
    × (o.order_side ≡ side)
    × (0 < o.remaining_quantity)

-- Each order of each level, with the price of the level.
abbrev pub AllRest {κ} : (Price → OrderId → Type κ) → LevelMap → Type κ
AllRest Q = All λ e. All (Q e.0) e.1

pub record IsSound (orders : Store) (side : OrderSide) (m : LevelMap) : Type 0 where
  pub sorted : IsSorted side m
  pub resting : AllRest (Resting orders side) m
  pub distinct : Distinct (pointers m)

pub AllRest-pointers {κ κ'} :
    (Q : Price → OrderId → Type κ) (P : OrderId → Type κ') (m : LevelMap)
    → ((p : Price) (r : OrderId) → Q p r → P r)
    → AllRest Q m
    → All P (pointers m)
AllRest-pointers Q P [] f h = tt
AllRest-pointers Q P ((p, level) ∷ m) f h =
    All-append P level (pointers m) (All-map _ _ level (f p) h.0) (AllRest-pointers Q P m f h.1)

pub AllRest-zip {κ κ' μ} :
    (Q : Price → OrderId → Type κ) (P : OrderId → Type κ') (R : Price → OrderId → Type μ)
    (m : LevelMap)
    → ((p : Price) (r : OrderId) → Q p r → P r → R p r)
    → AllRest Q m
    → All P (pointers m)
    → AllRest R m
AllRest-zip Q P R [] f h k = tt
AllRest-zip Q P R ((p, level) ∷ m) f h k = (
  zip level h.0 (All-append_left P level (pointers m) k),
  AllRest-zip Q P R m f h.1 (All-append_right P level (pointers m) k),
)
  where
    zip : (rs : PriceLevel) → All (Q p) rs → All P rs → All (R p) rs
    zip [] a b = tt
    zip (r ∷ rs) a b = (f p r a.0 b.0, zip rs a.1 b.1)

-- The map stays sound while its orders stay as they are.
pub IsSound-frame :
    (orders orders' : Store) (side : OrderSide) (m : LevelMap)
    → All (λ k. find k orders' ≡ find k orders) (pointers m)
    → IsSound orders side m
    → IsSound orders' side m
IsSound-frame orders orders' side m same h = record {
  sorted = h.sorted;
  resting =
      AllRest-zip (Resting orders side) (λ k. find k orders' ≡ find k orders) (Resting orders' side)
        m (λ p r (o, e, price, sided, pos) e'. (o, e' ∙ e, price, sided, pos)) h.resting same;
  distinct = h.distinct;
}

-- An insertion at one price puts one order among those of that price.
push_back-AllRest {κ} :
    (Q : Price → OrderId → Type κ) (side : OrderSide) (p : Price) (r : OrderId) (m : LevelMap)
    → Q p r
    → AllRest Q m
    → AllRest Q (push_back side p r m)
unfolding push_back
push_back-AllRest Q side p r [] q h = ((q, tt), tt)
push_back-AllRest Q side p r ((p', level) ∷ m) q h = elim (Bool-cases (p == p')) [
  | inl e ↦ rw e (All-append (Q p') level (r ∷ []) h.0 (subst (λ x. Q x r) (at p p' e) q, tt), h.1)
  | inr ne ↦ elim (Bool-cases (before side p p')) [
    | inl lt ↦ rw (ne, lt) ((q, tt), h)
    | inr ge ↦ rw (ne, ge) (h.0, push_back-AllRest Q side p r m q h.1)
  ]
]
  where
    at : (a b : Price) → (a == b) ≡ true → a ≡ b
    at a b e = ground arith

erase_order-All {κ} :
    (P : OrderId → Type κ) (id : OrderId) (level level' : PriceLevel)
    → erase_order id level ≡ some level'
    → All P level
    → All P level'
unfolding erase_order
erase_order-All P id [] level' e h = cc
erase_order-All P id (r ∷ rs) level' e h = elim (Bool-cases (r == id)) [
  | inl hit ↦ subst (All P) {x = rs} {y = level'} (ground arith) h.1
  | inr miss ↦ elim (Option-cases (erase_order id rs)) [
    | inl gone ↦ absurd (ground arith)
    | inr (rs', found) ↦
        subst (All P) {x = r ∷ rs'} {y = level'} (ground arith)
          (h.0, erase_order-All P id rs rs' found h.1)
  ]
]

cancel_side-AllRest {κ} :
    (Q : Price → OrderId → Type κ) (id : OrderId) (m m' : LevelMap)
    → cancel_side id m ≡ some m'
    → AllRest Q m
    → AllRest Q m'
unfolding cancel_side
cancel_side-AllRest Q id [] m' e h = cc
cancel_side-AllRest Q id ((p, level) ∷ m) m' e h = elim (Option-cases (erase_order id level)) [
  | inl missing ↦ elim (Option-cases (cancel_side id m)) [
    | inl none' ↦ absurd (ground arith)
    | inr (m1, e1) ↦
        subst (AllRest Q) {x = (p, level) ∷ m1} {y = m'} (ground arith)
          (h.0, cancel_side-AllRest Q id m m1 e1 h.1)
  ]
  | inr ([], found) ↦ subst (AllRest Q) {x = m} {y = m'} (ground arith) h.1
  | inr (r ∷ rs, found) ↦
      subst (AllRest Q) {x = (p, r ∷ rs) ∷ m} {y = m'} (ground arith)
        (erase_order-All (Q p) id level (r ∷ rs) found h.0, h.1)
]

-- Distinct lists stay so when an element is put in that they do not have, or taken out.
Distinct-insert :
    (r : OrderId) (xs ys : List OrderId)
    → All (λ k. k ≢ r) (xs ++ ys)
    → Distinct (xs ++ ys)
    → Distinct (xs ++ r ∷ ys)
Distinct-insert r [] ys ne d = (ne, d)
Distinct-insert r (x ∷ xs) ys ne d = (
  All-append _ xs (r ∷ ys) (All-append_left _ xs ys d.0)
      ((λ e. ne.0 (sym e)), All-append_right _ xs ys d.0),
  Distinct-insert r xs ys ne.1 d.1,
)

Distinct-remove :
    (r : OrderId) (xs ys : List OrderId)
    → Distinct (xs ++ r ∷ ys)
    → Distinct (xs ++ ys) × All (λ k. k ≢ r) (xs ++ ys)
Distinct-remove r [] ys d = (d.1, d.0)
Distinct-remove r (x ∷ xs) ys d =
    let right = All-append_right _ xs (r ∷ ys) d.0 in
    let rest = Distinct-remove r xs ys d.1 in
    (
      (All-append _ xs ys (All-append_left _ xs (r ∷ ys) d.0) right.1, rest.0),
      ((λ e. right.0 (sym e)), rest.1),
    )

-- insertOrder keeps a map sound, for an order that is owned, on this side, with something left, and
-- not in the map.
pub push_back-IsSound :
    (orders : Store) (side : OrderSide) (p : Price) (r : OrderId) (m : LevelMap)
    → Resting orders side p r
    → All (λ k. k ≢ r) (pointers m)
    → IsSound orders side m
    → IsSound orders side (push_back side p r m)
push_back-IsSound orders side p r m rest ne h =
    let (xs, ys, e, e') = push_back-Inserts side p r m in
    record {
      sorted = push_back-IsSorted side p r m h.sorted;
      resting = push_back-AllRest (Resting orders side) side p r m rest h.resting;
      distinct =
          rw e'
            (Distinct-insert r xs ys (subst (All (λ k. k ≢ r)) e ne) (subst Distinct e h.distinct));
    }

-- When cancelOrder finds the order in a sound map, the map stays sound, and the order is then no
-- longer in it.
pub cancel_side-IsSound :
    (orders : Store) (side : OrderSide) (id : OrderId) (m m' : LevelMap)
    → cancel_side id m ≡ some m'
    → IsSound orders side m
    → IsSound orders side m' × All (λ k. k ≢ id) (pointers m')
cancel_side-IsSound orders side id m m' found h =
    let (xs, ys, e, e') = cancel_side-Inserts id m m' found in
    let (d, ne) = Distinct-remove id xs ys (subst Distinct e' h.distinct) in
    (
      record {
        sorted = cancel_side-IsSorted side id m m' found h.sorted;
        resting = cancel_side-AllRest (Resting orders side) id m m' found h.resting;
        distinct = subst Distinct (sym e) d;
      },
      subst (All (λ k. k ≢ id)) (sym e) ne,
    )

pub push_back-AllPrices {κ} :
    (P : Price → Type κ) (side : OrderSide) (p : Price) (r : OrderId) (m : LevelMap)
    → P p
    → All (λ e. P e.0) m
    → All (λ e. P e.0) (push_back side p r m)
unfolding push_back
push_back-AllPrices P side p r [] q h = (q, tt)
push_back-AllPrices P side p r ((p', level) ∷ m) q h = elim (Bool-cases (p == p')) [
  | inl e ↦ rw e h
  | inr ne ↦ elim (Bool-cases (before side p p')) [
    | inl lt ↦ rw (ne, lt) (q, h)
    | inr ge ↦ rw (ne, ge) (h.0, push_back-AllPrices P side p r m q h.1)
  ]
]

pub cancel_side-AllPrices {κ} :
    (P : Price → Type κ) (id : OrderId) (m m' : LevelMap)
    → cancel_side id m ≡ some m'
    → All (λ e. P e.0) m
    → All (λ e. P e.0) m'
unfolding cancel_side
cancel_side-AllPrices P id [] m' e h = cc
cancel_side-AllPrices P id ((p, level) ∷ m) m' e h = elim (Option-cases (erase_order id level)) [
  | inl missing ↦ elim (Option-cases (cancel_side id m)) [
    | inl none' ↦ absurd (ground arith)
    | inr (m1, e1) ↦
        subst (All (λ e. P e.0)) {x = (p, level) ∷ m1} {y = m'} (ground arith)
          (h.0, cancel_side-AllPrices P id m m1 e1 h.1)
  ]
  | inr ([], found) ↦ subst (All (λ e. P e.0)) {x = m} {y = m'} (ground arith) h.1
  | inr (r ∷ rs, found) ↦ subst (All (λ e. P e.0)) {x = (p, r ∷ rs) ∷ m} {y = m'} (ground arith) h
]

erase_order-none :
    (id : OrderId) (level : PriceLevel) → erase_order id level ≡ none → All (λ k. k ≢ id) level
unfolding erase_order
erase_order-none id [] e = tt
erase_order-none id (r ∷ rs) e = elim (Bool-cases (r == id)) [
  | inl hit ↦ absurd (ground arith)
  | inr miss ↦ elim (Option-cases (erase_order id rs)) [
    | inl gone ↦ ((ground arith), erase_order-none id rs gone)
    | inr (rs', found) ↦ absurd (ground arith)
  ]
]

-- A search that fails shows that the order is not in the map.
pub cancel_side-none :
    (id : OrderId) (m : LevelMap) → cancel_side id m ≡ none → All (λ k. k ≢ id) (pointers m)
unfolding cancel_side
cancel_side-none id [] e = tt
cancel_side-none id ((p, level) ∷ m) e = elim (Option-cases (erase_order id level)) [
  | inl missing ↦ elim (Option-cases (cancel_side id m)) [
    | inl gone ↦
        All-append _ level (pointers m) (erase_order-none id level missing)
          (cancel_side-none id m gone)
    | inr (m1, e1) ↦ absurd (ground arith)
  ]
  | inr ([], found) ↦ absurd (ground arith)
  | inr (r ∷ rs, found) ↦ absurd (ground arith)
]
