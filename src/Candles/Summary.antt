-- ===== src/Candles/Summary.antt =====
-- A candle against the trades that went into it.
use beta_trader.Prelude.{
  ◌≡◌, refl, sym, ◌∙◌, ℕ, ◌+◌, ◌%◌, ◌≤◌, ◌<◌, String, true, false, List, [], ◌∷◌, ◌++◌, ltb,
  u64_mod, arith, All, subst,
}
use beta_trader.Common.Types.{Price, Quantity}
use beta_trader.Candles.{
  Candle, Aggregate, Tick, std_max, std_min, bucket_start, fresh_candle, grown_candle,
  update_aggregate, finished_candles,
}

-- The trades one after the other, with what is handed to the repository.
pub update_all : ℕ → String → List Tick → Aggregate → Aggregate × List Candle
unfolding update_aggregate finished_candles
update_all interval symbol [] agg = (agg, [])
update_all interval symbol (t ∷ ts) agg =
    let (agg', done) = update_all interval symbol ts (update_aggregate interval symbol t agg) in
    (agg', finished_candles interval t agg ++ done)

pub highest : Tick → List Tick → Price
highest t [] = t.price
highest t (u ∷ us) = std_max t.price (highest u us)

pub lowest : Tick → List Tick → Price
lowest t [] = t.price
lowest t (u ∷ us) = std_min t.price (lowest u us)

pub last_price : Tick → List Tick → Price
last_price t [] = t.price
last_price t (u ∷ us) = last_price u us

pub total : Tick → List Tick → Quantity
total t [] = t.qty
total t (u ∷ us) = t.qty + total u us

-- The candle of these trades, from their prices and quantities alone.
pub summary : ℕ → String → Tick → List Tick → Candle
unfolding highest lowest last_price total
summary interval symbol t ts = record {
  symbol = symbol;
  timestamp = bucket_start interval t.timestamp_ns;
  open_price = t.price;
  high = highest t ts;
  low = lowest t ts;
  close = last_price t ts;
  volume = total t ts % u64_mod;
}

-- The trade is not after the bucket.
abbrev pub IsWithin : ℕ → ℕ → Tick → Type 0
IsWithin interval bucket t = bucket_start interval t.timestamp_ns ≤ bucket

max_assoc : (a b c : ℕ) → std_max (std_max a b) c ≡ std_max a (std_max b c)
max_assoc a b c = ground arith

min_assoc : (a b c : ℕ) → std_min (std_min a b) c ≡ std_min a (std_min b c)
min_assoc a b c = ground arith

-- A candle with trades that are not after its bucket.
abbrev grown : Candle → Tick → List Tick → Candle
grown c u us = record c {
  high = std_max c.high (highest u us);
  low = std_min c.low (lowest u us);
  close = last_price u us;
  volume = (c.volume + total u us) % u64_mod;
}

abbrev active_with : Candle → Aggregate
active_with c = record { active = true; current = c }

grown-grown :
    (c : Candle) (u v : Tick) (vs : List Tick) → grown (grown_candle u c) v vs ≡ grown c u (v ∷ vs)
unfolding highest lowest last_price total
grown-grown c u v vs =
    let volume : ((c.volume + u.qty) % u64_mod + total v vs) % u64_mod
        ≡ (c.volume + (u.qty + total v vs)) % u64_mod =
      omega arith in
    rw (max_assoc c.high u.price (highest v vs), min_assoc c.low u.price (lowest v vs), volume)

update_aggregate-within :
    (interval : ℕ) (symbol : String) (u : Tick) (c : Candle)
    → IsWithin interval c.timestamp u
    → update_aggregate interval symbol u (active_with c) ≡ active_with (grown_candle u c)
unfolding update_aggregate
update_aggregate-within interval symbol u c h =
    let b : ltb c.timestamp (bucket_start interval u.timestamp_ns) ≡ false = ground (arith, h) in
    rw b

finished_candles-within :
    (interval : ℕ) (u : Tick) (c : Candle)
    → IsWithin interval c.timestamp u
    → finished_candles interval u (active_with c) ≡ []
unfolding finished_candles
finished_candles-within interval u c h =
    let b : ltb c.timestamp (bucket_start interval u.timestamp_ns) ≡ false = ground (arith, h) in
    rw b

update_all-within :
    (interval : ℕ) (symbol : String) (u : Tick) (us : List Tick) (c : Candle)
    → IsWithin interval c.timestamp u
    → All (IsWithin interval c.timestamp) us
    → update_all interval symbol (u ∷ us) (active_with c) ≡ (active_with (grown c u us), [])
unfolding update_all highest lowest last_price total
update_all-within interval symbol u [] c h hs =
    rw (update_aggregate-within interval symbol u c h, finished_candles-within interval u c h)
update_all-within interval symbol u (v ∷ vs) c h hs =
    let e = update_all-within interval symbol v vs (grown_candle u c) hs.0 hs.1 in
    rw (
      update_aggregate-within interval symbol u c h,
      finished_candles-within interval u c h,
      e,
      grown-grown c u v vs,
    )

first :
    (interval : ℕ) (symbol : String) (t : Tick) (ts : List Tick) (agg : Aggregate)
    → agg.active ≡ false
    → update_all interval symbol (t ∷ ts) agg
      ≡ update_all interval symbol ts (active_with (fresh_candle interval symbol t))
unfolding update_all update_aggregate finished_candles
first interval symbol t ts agg idle = rw idle

update_all-summary :
    (interval : ℕ) (symbol : String) (t : Tick) (ts : List Tick)
    → t.qty < u64_mod
    → All (IsWithin interval (bucket_start interval t.timestamp_ns)) ts
    → update_all interval symbol ts (active_with (fresh_candle interval symbol t))
      ≡ (active_with (summary interval symbol t ts), [])
unfolding summary
update_all-summary interval symbol t [] q h =
    let e : t.qty ≡ total t [] % u64_mod = unfold total in omega (arith, q) in
    unfold update_all highest lowest last_price in rw (← e)
update_all-summary interval symbol t (u ∷ us) q h =
    unfold highest lowest last_price total in
    update_all-within interval symbol u us (fresh_candle interval symbol t) h.0 h.1

-- What holds of the aggregate, and of what was handed to the repository, after these trades and before `u`.
abbrev pub Finishes : ℕ → String → Tick → Tick → List Tick → Aggregate × List Candle → Type 0
Finishes interval symbol t u ts (agg, done) =
    (done ≡ [])
    × (agg.current ≡ summary interval symbol t ts)
    × (finished_candles interval u agg ≡ summary interval symbol t ts ∷ [])
    × ((update_aggregate interval symbol u agg).current ≡ fresh_candle interval symbol u)

-- After a trade on an aggregate that is not active and further trades that are not after its
-- bucket, the candle is the one that these trades have, and nothing is finished; a trade in a later
-- bucket finishes exactly this candle and begins its own, if the quantity of the first trade is
-- below 2^64.
pub update_all-Finishes :
    (interval : ℕ) (symbol : String) (t u : Tick) (ts : List Tick) (agg : Aggregate)
    → agg.active ≡ false
    → t.qty < u64_mod
    → All (IsWithin interval (bucket_start interval t.timestamp_ns)) ts
    → bucket_start interval t.timestamp_ns < bucket_start interval u.timestamp_ns
    → Finishes interval symbol t u ts (update_all interval symbol (t ∷ ts) agg)
update_all-Finishes interval symbol t u ts agg idle q h later =
    let e = first interval symbol t ts agg idle ∙ update_all-summary interval symbol t ts q h in
    subst (Finishes interval symbol t u ts) (sym e) (
      refl,
      refl,
      unfold finished_candles summary in
          (let b : ltb (bucket_start interval t.timestamp_ns) (bucket_start interval u.timestamp_ns)
                ≡ true =
              ground (arith, later) in
            rw b),
      unfold update_aggregate summary in
          (let b : ltb (bucket_start interval t.timestamp_ns) (bucket_start interval u.timestamp_ns)
                ≡ true =
              ground (arith, later) in
            rw b),
    )
