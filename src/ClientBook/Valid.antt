-- ===== src/ClientBook/Valid.antt =====
-- The laws of the client's ladders.
use beta_trader.Prelude.{
  ◌<◌, ◌≡◌, refl, true, none, some, List, [], ◌∷◌, ◌==◌, find, All, All-map, subst, arith,
  Bool-cases, if◌then◌else◌, inl, inr,
}
use beta_trader.Common.Types.{OrderSide, buy, sell, Price, Quantity}
use beta_trader.Book.{
  MdUpdateAction, new, change, delete, MdEntryType, bid, offer, trade, MarketDataIncrementalEntry,
  MarketDataIncrementalRefresh, before,
}
use beta_trader.Book.Sorted.{before_trans, before_total}
use beta_trader.ClientBook.{
  Ladder, ClientBook, set_level, erase_level, update_side, update_level, handle_entries,
  handle_incremental,
}

-- Every price of the ladder comes strictly behind `p`.
abbrev pub Later : OrderSide → Price → Ladder → Type 0
Later side p = All λ e. before side p e.0 ≡ true

-- The prices stand strictly in order.
abbrev pub IsOrdered : OrderSide → Ladder → Type 0
IsOrdered side [] = Unit
IsOrdered side ((p, x) ∷ m) = Later side p m × IsOrdered side m

Later-trans :
    (side : OrderSide) (p q : Price) (m : Ladder)
    → before side p q ≡ true
    → Later side q m
    → Later side p m
Later-trans side p q m h = All-map _ _ m λ e. before_trans side p q e.0 h

pub find-set_level :
    (side : OrderSide) (p k : Price) (q : Quantity) (m : Ladder)
    → find k (set_level side p q m) ≡ (if p == k then some q else find k m)
unfolding find set_level
find-set_level side p k q [] = refl
find-set_level side p k q ((r, x) ∷ m) = ground (arith, find-set_level side p k q m)

find-Later : (side : OrderSide) (p : Price) (m : Ladder) → Later side p m → find p m ≡ none
unfolding find
find-Later side p [] h = refl
find-Later buy p ((r, x) ∷ m) h = ground (arith, find-Later buy p m h.1)
find-Later sell p ((r, x) ∷ m) h = ground (arith, find-Later sell p m h.1)

pub find-erase_level :
    (side : OrderSide) (p k : Price) (m : Ladder)
    → IsOrdered side m
    → find k (erase_level p m) ≡ (if p == k then none else find k m)
unfolding find erase_level
find-erase_level side p k [] h = ground arith
find-erase_level side p k ((r, x) ∷ m) h =
    ground (arith, find-erase_level side p k m h.1, find-Later side r m h.0)

Later-set_level :
    (side : OrderSide) (p r : Price) (q : Quantity) (m : Ladder)
    → before side p r ≡ true
    → Later side p m
    → Later side p (set_level side r q m)
unfolding set_level
Later-set_level side p r q [] h l = (h, tt)
Later-set_level side p r q ((s, x) ∷ m) h l = ground (arith, Later-set_level side p r q m h l.1)

Later-erase_level :
    (side : OrderSide) (p r : Price) (m : Ladder) → Later side p m → Later side p (erase_level r m)
unfolding erase_level
Later-erase_level side p r [] l = tt
Later-erase_level side p r ((s, x) ∷ m) l = ground (arith, Later-erase_level side p r m l.1)

erase_level-IsOrdered :
    (side : OrderSide) (r : Price) (m : Ladder)
    → IsOrdered side m
    → IsOrdered side (erase_level r m)
unfolding erase_level
erase_level-IsOrdered side r [] h = tt
erase_level-IsOrdered side r ((s, x) ∷ m) h =
    ground (arith, erase_level-IsOrdered side r m h.1, Later-erase_level side s r m h.0)

set_level-IsOrdered :
    (side : OrderSide) (p : Price) (q : Quantity) (m : Ladder)
    → IsOrdered side m
    → IsOrdered side (set_level side p q m)
unfolding set_level
set_level-IsOrdered side p q [] h = (tt, tt)
set_level-IsOrdered side p q ((r, x) ∷ m) h = elim (Bool-cases (p == r)) [
  | inl e ↦ rw e (subst (λ s. Later side s m × IsOrdered side m) {x = r} {y = p} (ground arith) h)
  | inr ne ↦ elim (Bool-cases (before side p r)) [
    | inl lt ↦ rw (ne, lt) ((lt, Later-trans side p r m lt h.0), h)
    | inr ge ↦
        rw (ne, ge)
          (
            Later-set_level side r p q m (before_total side p r ne ge) h.0,
            set_level-IsOrdered side p q m h.1,
          )
  ]
]

-- Every quantity of the ladder is positive.
abbrev pub AllPositive : Ladder → Type 0
AllPositive = All λ e. 0 < e.1

erase_level-AllPositive : (p : Price) (m : Ladder) → AllPositive m → AllPositive (erase_level p m)
unfolding erase_level
erase_level-AllPositive p [] h = tt
erase_level-AllPositive p ((r, x) ∷ m) h = elim (Bool-cases (p == r)) [
  | inl e ↦ rw e (h.1)
  | inr ne ↦ rw ne (h.0, erase_level-AllPositive p m h.1)
]

set_level-AllPositive :
    (side : OrderSide) (p : Price) (q : Quantity) (m : Ladder)
    → 0 < q
    → AllPositive m
    → AllPositive (set_level side p q m)
unfolding set_level
set_level-AllPositive side p q [] z h = (z, tt)
set_level-AllPositive side p q ((r, x) ∷ m) z h = elim (Bool-cases (p == r)) [
  | inl e ↦ rw e (z, h.1)
  | inr ne ↦ elim (Bool-cases (before side p r)) [
    | inl lt ↦ rw (ne, lt) (z, h)
    | inr ge ↦ rw (ne, ge) (h.0, set_level-AllPositive side p q m z h.1)
  ]
]

erase_level-Later :
    (side : OrderSide) (p : Price) (m : Ladder) → Later side p m → erase_level p m ≡ m
unfolding erase_level
erase_level-Later side p [] h = refl
erase_level-Later buy p ((r, x) ∷ m) h = ground (arith, erase_level-Later buy p m h.1)
erase_level-Later sell p ((r, x) ∷ m) h = ground (arith, erase_level-Later sell p m h.1)

-- A level set and erased again is a level erased.
erase_level-set_level :
    (side : OrderSide) (p : Price) (q : Quantity) (m : Ladder)
    → IsOrdered side m
    → erase_level p (set_level side p q m) ≡ erase_level p m
unfolding erase_level set_level
erase_level-set_level side p q [] h = ground arith
erase_level-set_level side p q ((r, x) ∷ m) h = ground (
  arith,
  erase_level-set_level side p q m h.1,
  erase_level-Later side p m,
  Later-trans side p r m,
  h,
)

-- What a ladder must be.
pub record IsLadder (side : OrderSide) (m : Ladder) : Type 0 where
  pub ordered : IsOrdered side m
  pub positive : AllPositive m

stored-IsLadder :
    (side : OrderSide) (p : Price) (q : Quantity) (m : Ladder)
    → IsLadder side m
    → IsLadder side (let m' = set_level side p q m in if q == 0 then erase_level p m' else m')
stored-IsLadder side p q m h = elim (Bool-cases (q == 0)) [
  | inl z ↦
      rw (z, erase_level-set_level side p q m h.ordered)
        record {
          ordered = erase_level-IsOrdered side p m h.ordered;
          positive = erase_level-AllPositive p m h.positive;
        }
  | inr nz ↦ rw nz record {
    ordered = set_level-IsOrdered side p q m h.ordered;
    positive = set_level-AllPositive side p q m (ground arith) h.positive;
  }
]

update_side-IsLadder :
    (side : OrderSide) (p : Price) (q : Quantity) (action : MdUpdateAction) (m : Ladder)
    → IsLadder side m
    → IsLadder side (update_side side p q action m)
unfolding update_side
update_side-IsLadder side p q delete m h = record {
  ordered = erase_level-IsOrdered side p m h.ordered;
  positive = erase_level-AllPositive p m h.positive;
}
update_side-IsLadder side p q new m h = stored-IsLadder side p q m h
update_side-IsLadder side p q change m h = stored-IsLadder side p q m h

pub record IsValid (b : ClientBook) : Type 0 where
  pub bids_ladder : IsLadder buy b.bids
  pub asks_ladder : IsLadder sell b.asks

update_level-IsValid :
    (e : MdEntryType) (p : Price) (q : Quantity) (action : MdUpdateAction) (b : ClientBook)
    → IsValid b
    → IsValid (update_level e p q action b)
unfolding update_level
update_level-IsValid bid p q action b h = record {
  bids_ladder = update_side-IsLadder buy p q action b.bids h.bids_ladder;
  asks_ladder = h.asks_ladder;
}
update_level-IsValid offer p q action b h = record {
  bids_ladder = h.bids_ladder;
  asks_ladder = update_side-IsLadder sell p q action b.asks h.asks_ladder;
}
update_level-IsValid trade p q action b h = record {
  bids_ladder = h.bids_ladder;
  asks_ladder = update_side-IsLadder sell p q action b.asks h.asks_ladder;
}

-- Incremental refreshes keep both ladders of a client strictly in the order of their comparators,
-- without a level of quantity 0.
pub handle_incremental-IsValid :
    (refresh : MarketDataIncrementalRefresh) (b : ClientBook)
    → IsValid b
    → IsValid (handle_incremental refresh b)
unfolding handle_incremental handle_entries
handle_incremental-IsValid refresh b h = go refresh.entries b h
  where
    go :
        (es : List MarketDataIncrementalEntry) (b : ClientBook)
        → IsValid b
        → IsValid (handle_entries es b)
    go [] b h = h
    go (e ∷ es) b h = go es _ (update_level-IsValid e.entry_type e.price e.size e.update_action b h)
