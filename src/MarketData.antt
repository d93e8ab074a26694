-- ===== src/MarketData.antt =====
-- exchange/exchange_publishers/src/MarketDataPublisher.cpp: which sessions want the market data of
-- which instrument, and what the callbacks get. A callback is the number under which it was added.
pub mod Delivery
use beta_trader.Prelude.{
  ℕ, Bool, false, ◌||◌, Option, List, [], ◌∷◌, ◌++◌, map, ◌==◌, if◌then◌else◌,
}
use beta_trader.Common.Types.{Instrument, SessionId}
use beta_trader.Common.Names.{instrument_index}
use beta_trader.Book.{MarketDataIncrementalRefresh, MarketDataSnapshotFullRefresh}

abbrev pub CallbackId : Type 0
CallbackId = ℕ

abbrev pub Subscriptions : Type 0
Subscriptions = List (Instrument × List SessionId)

pub record MarketDataPublisher : Type 0 where
  pub subscriptions : Subscriptions
  pub general_snapshot_callbacks : List CallbackId
  pub session_snapshot_callbacks : List CallbackId
  pub general_incremental_callbacks : List CallbackId
  pub session_incremental_callbacks : List CallbackId

unfoldable pub same : Instrument → Instrument → Bool
same a b = instrument_index a == instrument_index b

-- The sessions of an instrument; there are none if the map has no entry.
unfoldable pub sessions_of : Instrument → Subscriptions → List SessionId
sessions_of symbol [] = []
sessions_of symbol ((k, sessions) ∷ m) =
    let rest = sessions_of symbol m in if same k symbol then sessions else rest

unfoldable pub has_session : SessionId → List SessionId → Bool
has_session id [] = false
has_session id (x ∷ xs) = x == id || has_session id xs

-- `if (std::find(...) == sessions.end()) sessions.push_back(sessionId)`
unfoldable pub add_session : SessionId → List SessionId → List SessionId
unfolding has_session
add_session id sessions = if has_session id sessions then sessions else sessions ++ id ∷ []

unfoldable pub add_subscription : Instrument → SessionId → Subscriptions → Subscriptions
unfolding add_session
add_subscription symbol id [] = (symbol, id ∷ []) ∷ []
add_subscription symbol id ((k, sessions) ∷ m) =
    let rest = add_subscription symbol id m in
    if same k symbol then (k, add_session id sessions) ∷ m else (k, sessions) ∷ rest

-- `sessions.erase(std::remove(...), sessions.end())`
unfoldable pub remove_session : SessionId → List SessionId → List SessionId
remove_session id [] = []
remove_session id (x ∷ xs) = let rest = remove_session id xs in if x == id then rest else x ∷ rest

-- An entry without a session is erased.
abbrev pub keep_entry : Instrument → List SessionId → Subscriptions → Subscriptions
keep_entry k [] m = m
keep_entry k (x ∷ xs) m = (k, x ∷ xs) ∷ m

-- `removeSubscription(symbol, sessionId)`
unfoldable pub remove_subscription : Instrument → SessionId → Subscriptions → Subscriptions
unfolding remove_session
remove_subscription symbol id [] = []
remove_subscription symbol id ((k, sessions) ∷ m) =
    let rest = remove_subscription symbol id m in
    if same k symbol then keep_entry k (remove_session id sessions) m else (k, sessions) ∷ rest

-- `removeSubscription(sessionId)`
unfoldable pub remove_all_subscriptions : SessionId → Subscriptions → Subscriptions
unfolding remove_session
remove_all_subscriptions id [] = []
remove_all_subscriptions id ((k, sessions) ∷ m) =
    keep_entry k (remove_session id sessions) (remove_all_subscriptions id m)

-- What the callbacks get, in order.
unfoldable pub publish_snapshot :
    MarketDataSnapshotFullRefresh
    → MarketDataPublisher
    → List (CallbackId × MarketDataSnapshotFullRefresh)
publish_snapshot snapshot p =
    map (λ cb. (cb, snapshot)) p.general_snapshot_callbacks
    ++ (if snapshot.target_session_id == 0
        then []
        else map (λ cb. (cb, snapshot)) p.session_snapshot_callbacks)

abbrev pub aim : MarketDataIncrementalRefresh → SessionId → MarketDataIncrementalRefresh
aim refresh id = record refresh { target_session_id = id }

-- The loop over the sessions.
unfoldable pub publish_to :
    MarketDataIncrementalRefresh
    → List CallbackId
    → List SessionId
    → List (CallbackId × MarketDataIncrementalRefresh)
publish_to refresh cbs [] = []
publish_to refresh cbs (id ∷ ids) =
    map (λ cb. (cb, aim refresh id)) cbs ++ publish_to refresh cbs ids

unfoldable pub publish_incremental :
    MarketDataIncrementalRefresh
    → MarketDataPublisher
    → List (CallbackId × MarketDataIncrementalRefresh)
unfolding publish_to sessions_of
publish_incremental refresh p =
    map (λ cb. (cb, refresh)) p.general_incremental_callbacks
    ++ publish_to refresh p.session_incremental_callbacks
        (sessions_of refresh.symbol p.subscriptions)

pub subscribe_to_snapshots : CallbackId → MarketDataPublisher → MarketDataPublisher
subscribe_to_snapshots cb p = record p {
  session_snapshot_callbacks = p.session_snapshot_callbacks ++ cb ∷ [];
}

pub subscribe_to_incrementals : CallbackId → MarketDataPublisher → MarketDataPublisher
subscribe_to_incrementals cb p = record p {
  session_incremental_callbacks = p.session_incremental_callbacks ++ cb ∷ [];
}

pub add_general_incremental_subscriber : CallbackId → MarketDataPublisher → MarketDataPublisher
add_general_incremental_subscriber cb p = record p {
  general_incremental_callbacks = p.general_incremental_callbacks ++ cb ∷ [];
}

pub add_general_snapshot_subscriber : CallbackId → MarketDataPublisher → MarketDataPublisher
add_general_snapshot_subscriber cb p = record p {
  general_snapshot_callbacks = p.general_snapshot_callbacks ++ cb ∷ [];
}
