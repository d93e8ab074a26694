-- ===== src/Lib.antt =====
-- The BetaTrader exchange: what one partition does with the commands on its instrument, how the core
-- routes commands to the partitions, and how a FIX connection turns bytes into commands.
--
-- Parts and files (paths from the repository's root):
-- - Common: common/include/common (Types.h, Instrument.h, Order.h, Trade.h). Common/Types has the
--   enumerators, Common/Order the orders and the trades with their setters, Common/Names the tables
--   of names with `to_string` and `from_string`.
-- - Book: exchange/exchange_matching/src/OrderBook.cpp, with the refreshes of
--   common/include/common_fix. `insert_order`, `cancel_order` and `publish_snapshot` are the methods
--   of the class. Book/Sorted, Book/Pointers and Book/Sound have the order of the levels, the
--   sequence of the orders, and both with what the orders themselves must be.
-- - Matcher: exchange/exchange_matching/src/Matcher.cpp. `match_level` is the inner loop of
--   `matchTable`, `match_levels` the outer one, `match_table` adds the final status, and `match`
--   chooses the map. Matcher/Run describes the loops as step relations; the other files under
--   Matcher prove by induction on these what matching does, and Matcher/Laws states it of `match`.
-- - Manager: exchange/exchange_state/src/OrderManager.cpp, the owner of the orders.
-- - Risk: exchange/exchange_risk/src/RiskManager.cpp, the check before an order is accepted.
-- - Publisher: exchange/exchange_publishers/src/ExecutionPublisher.cpp, the execution reports.
-- - Worker: exchange/exchange_routing/src/WorkerThread.cpp. `process_new_order`,
--   `process_cancel_order` and `process_modify_order` are the methods of the same names. They put
--   the other parts together: the check, the owner, the matcher, the book and the publisher work on
--   one `World`. The files under Worker hold the invariant of a partition and its proof.
-- - ClientBook: client/client_orderbook/src/OrderBook.cpp, the ladders of prices that a client keeps
--   from the refreshes that Book publishes; ClientBook/Sync and ClientBook/Stale set them against it.
-- - Session: exchange/exchange_fix/src/FixSessionManager.cpp, the clients' connections and sequence
--   numbers. It shares no state with the partitions.
-- - MarketData: exchange/exchange_publishers/src/MarketDataPublisher.cpp, the subscriptions of the
--   sessions and what the callbacks get of a refresh.
-- - Partition: exchange/exchange_routing/src/Partition.cpp, the queue, the owner and the book of one
--   instrument around the worker's `World`.
-- - Core: exchange/exchange_app/src/TradingCore.cpp, the partitions of all instruments.
--   `submit_command` routes a command, `work` is a pass of one worker. Core/Reach has every
--   interleaving of submissions and passes.
-- - Fix: the connections. Fix/Text has what is used of strings, Fix/Builder is
--   common/src/common_fix/OutboundMessageBuilder.cpp, Fix/Framer is
--   exchange/exchange_fix/src/FixMessageFramer.cpp, Fix/Values is common/src/common_fix/FixUtils.cpp,
--   Fix/Requests the converters exchange/exchange_fix/src/BinaryTo*Converter.cpp; Fix/Sending,
--   Fix/Session and Fix/Reading are exchange/exchange_fix/src/FixSession.cpp on top of Session and Core.
--   Fix/Reports is the text of execution reports, from
--   exchange/exchange_fix/src/ExecutionReportToBinaryConverter.cpp to
--   client/client_fix/src/FixMessageParser.cpp, and Fix/Server is
--   exchange/exchange_fix/src/FixServer.cpp, the table of the sessions.
-- - ClientSession: client/client_fix/src/FixClientSession.cpp and SeqNumStore.cpp, the other end of a
--   connection, with the same builder.
-- - Blotter: client/client_blotter/src/BlotterModel.cpp, a client's orders from its reports.
-- - Candles: client/client_ohlc/src/CandleAggregator.cpp, candles from trades.
-- - Prelude: what the files share. Tests: runs, and the theorems at concrete inputs.
--
-- How the source is read:
-- - A raw pointer to an order is the id under which the order manager owns it. Reading a pointer
--   whose order has been destroyed is undefined in C++; here it gives `none`, and a command that
--   does so, or that goes on with an order that `addOrder` has refused, gives `none` as a whole.
-- - A `std::map` of levels is the list of its entries in the order of its comparator; an
--   `unordered_map` is an association list.
-- - A price is a decimal that is not negative, as a number of ticks, where the source has a double:
--   rounding, NaN and negative prices are not represented, and the deviation of a price from the top
--   of the book is compared exactly. Quantities and ids are natural numbers; where a `uint64_t` of the
--   source can wrap around (totals, ids, differences) the model does.
-- - The clock, `std::stoul` and `std::to_string` of the publishers are the fields of `Environment`.
-- - The statements to the database are kept as the list that is handed to the database worker, the
--   reports and the market data as the lists that the callbacks get.
-- - What the repository of sequence numbers answers is the field `seq_repo` of the session manager.
-- - A text of a message is the list of its bytes. `std::stod`, and `std::get_time` with
--   `std::mktime`, are the fields of `Readers`; the printing of prices and `std::put_time` with
--   `gmtime_r` those of `Printers`; the clock and its text those of `Surroundings`. A time is in
--   nanoseconds since the epoch, and not before it. The sum of the characters that the builder prints as a checksum is taken as
--   exact, where the source adds up in an `int`. The snapshot that the core publishes when a session
--   subscribes is not written to the session here.
-- - The framer's `checksumStart + 3` wraps around as a `size_t`; the exception that follows is the
--   result `throws` of `extract_next_frame`, and a fault of the read loop. No buffer is taken to have
--   2^64 - 3 bytes.
-- - The read loop of a connection, at both ends, runs on fuel, as much as the buffer has bytes; each
--   round takes at least one byte off it. Printed numbers have twenty digits of fuel, enough for 64
--   bits. All other loops are structural recursion.
-- - A worker's pass and a submission are single steps of the core: the races between a session that
--   looks for an order and the worker that owns it are not represented.
--
-- Not modelled: logging, most null pointers, threads and locks, the databases behind the
-- repositories, the sockets, the text of market data, the callback for executions, and the rest of
-- the client.
pub mod Prelude
pub mod Common
pub mod Book
pub mod Matcher
pub mod Manager
pub mod Risk
pub mod Publisher
pub mod Worker
pub mod ClientBook
pub mod Session
pub mod MarketData
pub mod Partition
pub mod Core
pub mod Fix
pub mod Candles
pub mod Blotter
pub mod ClientSession
pub mod Tests
