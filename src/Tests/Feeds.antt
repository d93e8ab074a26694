-- ===== src/Tests/Feeds.antt =====
-- The theorems on a client's book and on the sessions, at small inputs.
use beta_trader.Prelude.{◌≡◌, refl, true, none, some, [], ◌∷◌, find, arith}
use beta_trader.Common.Types.{eurusd, sell}
use beta_trader.Common.Order.{Order}
use beta_trader.Book.{
  Store, OrderBook, MdUpdateAction, MdEntryType, bid, offer, MarketDataIncrementalEntry,
  MarketDataIncrementalRefresh, MarketDataSnapshotFullRefresh, insert_order, publish_snapshot,
  erase_from_book, cancel_side, erase_order,
}
use beta_trader.Book
use beta_trader.ClientBook.{ClientBook, handle_incremental, handle_snapshot}
use beta_trader.ClientBook.Valid.{IsValid, handle_incremental-IsValid}
use beta_trader.ClientBook.Stale.{handle_incremental-insert_order, handle_incremental-cancel_order}
use beta_trader.ClientBook.Sync.{handle_snapshot-publish_snapshot}
use beta_trader.Session.{SessionState, SessionManager, get_session_state, validate_sequence}
use beta_trader.Session.Laws.{validate_sequence-accepts}
use beta_trader.Common.Types.{usdjpy}
use beta_trader.MarketData.{Subscriptions, MarketDataPublisher, same}
use beta_trader.MarketData.Delivery.{IsMap}
use beta_trader.Tests.Scenario.{order, first_ask, second_ask, resting, book, asks-IsSound}

abbrev client : ClientBook
client = record { symbol = "EURUSD"; bids = (99, 3) ∷ []; asks = (100, 5) ∷ (101, 7) ∷ [] }

client-IsValid : IsValid client
client-IsValid = record {
  bids_ladder = record { ordered = (tt, tt); positive = (omega arith, tt) };
  asks_ladder = record {
    ordered = ((refl, tt), (tt, tt));
    positive = (omega arith, (omega arith, tt));
  };
}

abbrev entry : MarketDataIncrementalEntry
entry = record {
  update_action = MdUpdateAction.change;
  entry_type = offer;
  price = 101;
  size = 0;
  entry_time = 3000;
  entry_position = 0;
}

abbrev emptied_level : MarketDataIncrementalRefresh
emptied_level = record {
  target_session_id = 5;
  md_req_id = "";
  symbol = eurusd;
  entries = entry ∷ [];
}

handle_incremental-IsValid_example : IsValid (handle_incremental emptied_level client)
handle_incremental-IsValid_example = handle_incremental-IsValid emptied_level client client-IsValid

-- A third order at the price of the first one.
abbrev third_ask : Order
third_ask = order 4 sell 2 100 "dave"

handle_incremental-insert_order_example :
    find 100 (handle_incremental (insert_order third_ask book).1 client).asks ≡ some 2
handle_incremental-insert_order_example =
    handle_incremental-insert_order third_ask book client (omega arith)

abbrev deletion : MarketDataIncrementalRefresh
deletion = record {
  target_session_id = 0;
  md_req_id = "";
  symbol = eurusd;
  entries =
      record {
        update_action = MdUpdateAction.delete;
        entry_type = offer;
        price = 100;
        size = 5;
        entry_time = 3000;
        entry_position = 0;
      }
      ∷ [];
}

-- The first and the third order rest at one price; the first is cancelled.
abbrev shared : OrderBook
shared = record book { asks = (100, 1 ∷ 4 ∷ []) ∷ [] }

abbrev left : OrderBook
left = record book { asks = (100, 4 ∷ []) ∷ [] }

abbrev owned : Store
owned = (1, first_ask) ∷ (4, third_ask) ∷ []

handle_incremental-cancel_order_example : find 100 (handle_incremental deletion client).asks ≡ none
unfolding Book.cancel_order find cancel_side erase_order
handle_incremental-cancel_order_example =
    handle_incremental-cancel_order 1 3000 owned shared left first_ask deletion client refl refl
      client-IsValid

handle_snapshot-publish_snapshot_example :
    (s : MarketDataSnapshotFullRefresh) × (publish_snapshot 5 resting book ≡ some s)
    × (handle_snapshot s client ≡ record client { bids = []; asks = (100, 5) ∷ (101, 7) ∷ [] })
unfolding find
handle_snapshot-publish_snapshot_example =
    handle_snapshot-publish_snapshot 5 resting book client tt asks-IsSound.sorted tt
      ((first_ask, refl), ((second_ask, refl), tt))

abbrev alice : SessionState
alice = record { sender_comp_id = "alice"; is_logged_on = true; in_seq_num = 6; out_seq_num = 9 }

abbrev manager : SessionManager
manager = record {
  valid_clients = "alice" ∷ [];
  session_states = ("alice", alice) ∷ [];
  connection_to_comp_id = (5, "alice") ∷ [];
  seq_repo = none;
  updates = [];
}

validate_sequence-accepts_example :
    (get_session_state 5 (validate_sequence 5 7 manager).1
      ≡ some ("alice", record alice { in_seq_num = 7 }))
    × ((validate_sequence 5 7 manager).0 ≡ true)
unfolding get_session_state find
validate_sequence-accepts_example = validate_sequence-accepts 5 7 "alice" alice manager refl refl

abbrev subscriptions : Subscriptions
subscriptions = (eurusd, 5 ∷ 6 ∷ []) ∷ (usdjpy, 5 ∷ []) ∷ []

subscriptions-IsMap : IsMap subscriptions
unfolding same
subscriptions-IsMap = ((refl, tt), (tt, tt))

abbrev publisher : MarketDataPublisher
publisher = record {
  subscriptions = subscriptions;
  general_snapshot_callbacks = [];
  session_snapshot_callbacks = [];
  general_incremental_callbacks = 1 ∷ [];
  session_incremental_callbacks = 2 ∷ [];
}
