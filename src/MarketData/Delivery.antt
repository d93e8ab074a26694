-- ===== src/MarketData/Delivery.antt =====
-- Who gets the market data after subscriptions and their removal.
use beta_trader.Prelude.{
  ◌≡◌, ◌≢◌, refl, ap, ◌∙◌, ℕ, true, false, List, [], ◌∷◌, ◌++◌, map, ◌==◌, if◌then◌else◌, All,
  arith, Bool-cases, inl, inr,
}
use beta_trader.Common.Types.{Instrument, SessionId}
use beta_trader.Common.Names.{instrument_index}
use beta_trader.Book.{MarketDataIncrementalRefresh}
use beta_trader.MarketData.{
  Subscriptions, MarketDataPublisher, same, sessions_of, add_session, has_session, add_subscription,
  remove_session, remove_all_subscriptions, aim, publish_to, publish_incremental,
}

same_trans : (a b k : Instrument) → same a b ≡ true → same a k ≡ same b k
unfolding same
same_trans a b k e = rw (eq a b e) refl
  where
    eq :
        (x y : Instrument)
        → (instrument_index x == instrument_index y) ≡ true
        → instrument_index x ≡ instrument_index y
    eq x y h = decided (instrument_index x) (instrument_index y) h
      where
        decided : (m n : ℕ) → (m == n) ≡ true → m ≡ n
        decided m n h = ground (arith, h)

same_sym : (a b : Instrument) → same a b ≡ same b a
unfolding same
same_sym a b = swap (instrument_index a) (instrument_index b)
  where
    swap : (m n : ℕ) → (m == n) ≡ (n == m)
    swap m n = ground arith

-- The map has one entry for each instrument.
abbrev pub IsMap : Subscriptions → Type 0
IsMap [] = Unit
IsMap ((k, sessions) ∷ m) = All (λ e. same e.0 k ≡ false) m × IsMap m

-- A subscription adds the session behind the sessions of its instrument, unless it is among them,
-- and leaves the sessions of the other instruments as they are.
pub sessions_of-add_subscription :
    (symbol k : Instrument) (id : SessionId) (m : Subscriptions)
    → sessions_of k (add_subscription symbol id m)
      ≡ (if same symbol k then add_session id (sessions_of k m) else sessions_of k m)
unfolding sessions_of add_subscription add_session has_session
sessions_of-add_subscription symbol k id [] = ground arith
sessions_of-add_subscription symbol k id ((j, sessions) ∷ m) = ground (
  arith,
  sessions_of-add_subscription symbol k id m,
  same_trans j symbol k,
  same_sym j symbol,
  same_trans symbol k j,
  same_sym j k,
  same_sym k j,
)

sessions_of-absent :
    (k j : Instrument) (m : Subscriptions)
    → same j k ≡ true
    → All (λ e. same e.0 j ≡ false) m
    → sessions_of k m ≡ []
unfolding sessions_of
sessions_of-absent k j [] e h = refl
sessions_of-absent k j ((i, sessions) ∷ m) e h =
    ground
      (arith, sessions_of-absent k j m e h.1, same_sym i j, same_trans j k i, same_sym k i, h.0, e)

absent-remove_all :
    (id : SessionId) (j : Instrument) (m : Subscriptions)
    → All (λ e. same e.0 j ≡ false) m
    → All (λ e. same e.0 j ≡ false) (remove_all_subscriptions id m)
unfolding remove_all_subscriptions
absent-remove_all id j [] h = tt
absent-remove_all id j ((i, sessions) ∷ m) h = ground (arith, absent-remove_all id j m h.1)

-- If the map has one entry for each instrument, the removal of all subscriptions of a session takes
-- that session, and no other, from the sessions of every instrument, and keeps their order.
pub sessions_of-remove_all_subscriptions :
    (id : SessionId) (k : Instrument) (m : Subscriptions)
    → IsMap m
    → sessions_of k (remove_all_subscriptions id m) ≡ remove_session id (sessions_of k m)
unfolding sessions_of remove_all_subscriptions remove_session
sessions_of-remove_all_subscriptions id k [] h = refl
sessions_of-remove_all_subscriptions id k ((j, sessions) ∷ m) h = ground (
  arith,
  sessions_of-remove_all_subscriptions id k m h.1,
  sessions_of-absent k j (remove_all_subscriptions id m),
  absent-remove_all id j m h.0,
)

absent-add_subscription :
    (symbol j : Instrument) (id : SessionId) (m : Subscriptions)
    → same symbol j ≡ false
    → All (λ e. same e.0 j ≡ false) m
    → All (λ e. same e.0 j ≡ false) (add_subscription symbol id m)
unfolding add_subscription
absent-add_subscription symbol j id [] n h = (n, tt)
absent-add_subscription symbol j id ((i, sessions) ∷ m) n h =
    ground (arith, absent-add_subscription symbol j id m n h.1)

-- Adding and removing subscriptions keeps one entry for each instrument.
pub add_subscription-IsMap :
    (symbol : Instrument) (id : SessionId) (m : Subscriptions)
    → IsMap m
    → IsMap (add_subscription symbol id m)
unfolding add_subscription
add_subscription-IsMap symbol id [] h = (tt, tt)
add_subscription-IsMap symbol id ((i, sessions) ∷ m) h = elim (Bool-cases (same i symbol)) [
  | inl e ↦ rw e h
  | inr ne ↦ rw ne (
    absent-add_subscription symbol i id m (same_sym symbol i ∙ ne) h.0,
    add_subscription-IsMap symbol id m h.1,
  )
]

pub remove_all_subscriptions-IsMap :
    (id : SessionId) (m : Subscriptions) → IsMap m → IsMap (remove_all_subscriptions id m)
unfolding remove_all_subscriptions
remove_all_subscriptions-IsMap id [] h = tt
remove_all_subscriptions-IsMap id ((i, sessions) ∷ m) h =
    ground (arith, remove_all_subscriptions-IsMap id m h.1, absent-remove_all id i m h.0)

removed : (id : SessionId) (xs : List SessionId) → All (λ x. x ≢ id) (remove_session id xs)
unfolding remove_session
removed id [] = tt
removed id (x ∷ xs) = elim (Bool-cases (x == id)) [
  | inl e ↦ rw e (removed id xs)
  | inr ne ↦ rw ne (λ h. absurd (ground (arith, ne, h)), removed id xs)
]

publish_to-aims :
    (P : SessionId → Type 0) (refresh : MarketDataIncrementalRefresh) (cbs : List ℕ)
    (ids : List SessionId)
    → All P ids
    → All (λ d. P d.1.target_session_id) (publish_to refresh cbs ids)
unfolding publish_to
publish_to-aims P refresh cbs [] h = tt
publish_to-aims P refresh cbs (id ∷ ids) (p, h) = go (publish_to-aims P refresh cbs ids h) cbs
  where
    go :
        All (λ d. P d.1.target_session_id) (publish_to refresh cbs ids)
        → (xs : List ℕ)
        → All
            (λ d. P d.1.target_session_id)
            (map (λ cb. (cb, aim refresh id)) xs ++ publish_to refresh cbs ids)
    go rest [] = rest
    go rest (x ∷ xs) = (p, go rest xs)

-- If the map has one entry for each instrument, then after the removal of all subscriptions of a
-- session an incremental refresh goes to the general callbacks as it is, and to the session
-- callbacks only with other sessions as targets.
pub publish_incremental-remove_all_subscriptions :
    (refresh : MarketDataIncrementalRefresh) (id : SessionId) (p : MarketDataPublisher)
    → IsMap p.subscriptions
    → (ds : List (ℕ × MarketDataIncrementalRefresh)) × (publish_incremental refresh
          (record p { subscriptions = remove_all_subscriptions id p.subscriptions })
        ≡ map (λ cb. (cb, refresh)) p.general_incremental_callbacks ++ ds)
      × All (λ d. d.1.target_session_id ≢ id) ds
unfolding publish_incremental
publish_incremental-remove_all_subscriptions refresh id p h =
    let ids = sessions_of refresh.symbol p.subscriptions in
    (
      publish_to refresh p.session_incremental_callbacks (remove_session id ids),
      ap
          (λ xs.
            map (λ cb. (cb, refresh)) p.general_incremental_callbacks
            ++ publish_to refresh p.session_incremental_callbacks xs)
          (sessions_of-remove_all_subscriptions id refresh.symbol p.subscriptions h),
      publish_to-aims (λ x. x ≢ id) refresh p.session_incremental_callbacks (remove_session id ids)
          (removed id ids),
    )
