-- ===== src/Candles.antt =====
-- client/client_ohlc/src/CandleAggregator.cpp: candles of one and five minutes from trades. Times are
-- not negative. `finished` keeps the calls of `addCandle`, `published` those of the callback. A `std::map`
-- entry that is not there yet is an aggregate that is not active.
pub mod Summary
use beta_trader.Prelude.{
  ℕ, ◌+◌, ◌*◌, ◌/◌, ◌%◌, String, str_eq, Bool, true, false, ◌||◌, not, ◌&&◌, Option, none, some,
  List, [], ◌∷◌, ◌++◌, ltb, ◌==◌, if◌then◌else◌, u64_mod,
}
use beta_trader.Common.Types.{Price, Quantity}

pub record Candle : Type 0 where
  pub symbol : String
  pub timestamp : ℕ
  pub open_price : Price
  pub high : Price
  pub low : Price
  pub close : Price
  pub volume : Quantity

pub record Aggregate : Type 0 where
  pub active : Bool
  pub current : Candle

pub record CandleAggregator : Type 0 where
  pub aggregates : String → ℕ → Aggregate
  pub finished : List (ℕ × Candle)
  pub published : List (ℕ × Candle)

pub record Tick : Type 0 where
  pub price : Price
  pub qty : Quantity
  pub timestamp_ns : ℕ

-- `std::max` and `std::min`
abbrev pub std_max : ℕ → ℕ → ℕ
std_max a b = if ltb a b then b else a

abbrev pub std_min : ℕ → ℕ → ℕ
std_min a b = if ltb b a then b else a

abbrev pub bucket_start : ℕ → ℕ → ℕ
bucket_start interval timestamp_ns = timestamp_ns / 1000000000 / (interval * 60) * (interval * 60)

abbrev pub fresh_candle : ℕ → String → Tick → Candle
fresh_candle interval symbol t = record {
  symbol = symbol;
  timestamp = bucket_start interval t.timestamp_ns;
  open_price = t.price;
  high = t.price;
  low = t.price;
  close = t.price;
  volume = t.qty;
}

abbrev pub grown_candle : Tick → Candle → Candle
grown_candle t c = record c {
  high = std_max c.high t.price;
  low = std_min c.low t.price;
  close = t.price;
  volume = (c.volume + t.qty) % u64_mod;
}

abbrev pub begins_candle : ℕ → Tick → Aggregate → Bool
begins_candle interval t agg =
    not agg.active || ltb (agg.current).timestamp (bucket_start interval t.timestamp_ns)

-- The new state of the aggregate.
unfoldable pub update_aggregate : ℕ → String → Tick → Aggregate → Aggregate
update_aggregate interval symbol t agg =
    if begins_candle interval t agg
    then record { active = true; current = fresh_candle interval symbol t }
    else record agg { current = grown_candle t agg.current }

-- What is handed to the repository.
unfoldable pub finished_candles : ℕ → Tick → Aggregate → List Candle
finished_candles interval t agg =
    if agg.active && begins_candle interval t agg then agg.current ∷ [] else []

abbrev pub with_interval : ℕ → List Candle → List (ℕ × Candle)
with_interval interval [] = []
with_interval interval (c ∷ cs) = (interval, c) ∷ with_interval interval cs

-- `updateAggregate(mAggregates[symbol][interval], ...)`
unfoldable pub update_interval : ℕ → String → Tick → CandleAggregator → CandleAggregator
unfolding update_aggregate finished_candles
update_interval interval symbol t a =
    let agg = a.aggregates symbol interval in
    let agg' = update_aggregate interval symbol t agg in
    record {
      aggregates = λ s i. if str_eq s symbol && (i == interval) then agg' else a.aggregates s i;
      finished = a.finished ++ with_interval interval (finished_candles interval t agg);
      published = a.published ++ (interval, agg'.current) ∷ [];
    }

unfoldable pub on_trade : String → Tick → CandleAggregator → CandleAggregator
unfolding update_interval
on_trade symbol t a = update_interval 5 symbol t (update_interval 1 symbol t a)
