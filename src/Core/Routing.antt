-- ===== src/Core/Routing.antt =====
-- Where the commands go.
use beta_trader.Common.Names.{instrument_index}
use beta_trader.Prelude.{
  ◌≡◌, refl, ◌==◌, ℕ, true, false, none, some, List, [], ◌∷◌, arith, All, Option-cases, Bool-cases,
  inl, inr, String, if◌then◌else◌, String, subst, ap, sym, ◌∙◌, ◌⊎◌, ◌&&◌, ltb, length, ◌++◌,
}
use beta_trader.Common.Types.{
  Instrument, OrderId, Timestamp, eurusd, usdjpy, gbpusd, usdcad, usdinr, eurinr, gbpinr, audusd,
  usdmxn,
}
use beta_trader.Manager.{contains_order_by_id}
use beta_trader.Worker.{Command, new_order, cancel_order, modify_order}
use beta_trader.Partition.{Partition, enqueue, queue_capacity}
use beta_trader.Partition
use beta_trader.MarketData.{same}
use beta_trader.Core.{
  TradingCore, set_partition, find_partition, find_partition_for_order, enqueue_at, enqueue_for,
  submit_command, stop_accepting_commands, all_instruments,
}

-- The partition of the loop over `is` that owns the order.
find_partition-owner :
    (id : OrderId) (is : List Instrument) (core : TradingCore) (i : Instrument)
    → find_partition id is core ≡ some i
    → (j : Instrument) × (p : Partition) × (core.partitions j ≡ some p)
      × (p.symbol ≡ i)
      × (contains_order_by_id id (p.world).orders ≡ true)
unfolding find_partition
find_partition-owner id [] core i e = cc
find_partition-owner id (j ∷ is) core i e = elim (Option-cases (core.partitions j)) [
  | inl gone ↦ find_partition-owner id is core i (ground (arith, e, gone))
  | inr (p, ep) ↦ elim (Bool-cases (contains_order_by_id id (p.world).orders)) [
    | inl has ↦ (j, p, ep, ground (arith, e, ep, has), has)
    | inr lacks ↦ find_partition-owner id is core i (ground (arith, e, ep, lacks))
  ]
]

find_partition-none :
    (id : OrderId) (is : List Instrument) (core : TradingCore)
    → find_partition id is core ≡ none
    → All
        (λ j.
          (p : Partition)
          → core.partitions j ≡ some p
          → contains_order_by_id id (p.world).orders ≡ false)
        is
unfolding find_partition
find_partition-none id [] core e = tt
find_partition-none id (j ∷ is) core e = elim (Option-cases (core.partitions j)) [
  | inl gone ↦ (
    λ p ep. absurd (ground (arith, gone, ep)),
    find_partition-none id is core (ground (arith, e, gone)),
  )
  | inr (q, eq) ↦ elim (Bool-cases (contains_order_by_id id (q.world).orders)) [
    | inl has ↦ absurd (ground (arith, e, eq, has))
    | inr lacks ↦ (
      λ p ep.
          subst (λ (x : Partition). contains_order_by_id id (x.world).orders ≡ false) {x = q}
            {y = p} (ground (arith, eq, ep)) lacks,
      find_partition-none id is core (ground (arith, e, eq, lacks)),
    )
  ]
]

-- The instrument of an index.
abbrev instrument_at : ℕ → Instrument
instrument_at n =
    if n == 0
    then eurusd
    else if n == 1
    then usdjpy
    else if n == 2
    then gbpusd
    else if n == 3
    then usdcad
    else if n == 4
    then usdinr
    else if n == 5
    then eurinr
    else if n == 6
    then gbpinr
    else if n == 7
    then audusd
    else usdmxn

instrument_at-index : (i : Instrument) → instrument_at (instrument_index i) ≡ i
instrument_at-index eurusd = refl
instrument_at-index usdjpy = refl
instrument_at-index gbpusd = refl
instrument_at-index usdcad = refl
instrument_at-index usdinr = refl
instrument_at-index eurinr = refl
instrument_at-index gbpinr = refl
instrument_at-index audusd = refl
instrument_at-index usdmxn = refl

same-eq : (i j : Instrument) → same i j ≡ true → i ≡ j
unfolding same
same-eq i j h =
    sym (instrument_at-index i)
    ∙ ap instrument_at (decided (instrument_index i) (instrument_index j) h)
    ∙ instrument_at-index j
  where
    decided : (m n : ℕ) → (m == n) ≡ true → m ≡ n
    decided m n e = ground (arith, e)

enqueue-closed : (c : Command) (p : Partition) → p.accepting_commands ≡ false → enqueue c p ≡ p
unfolding enqueue
enqueue-closed c p h = ground (arith, h)

-- A command for a partition that is closed leaves all of them as they are.
enqueue_at-closed :
    (k i : Instrument) (c : Command) (core core' : TradingCore)
    → ((p : Partition) → core.partitions k ≡ some p → p.accepting_commands ≡ false)
    → enqueue_at k c core ≡ some core'
    → core'.partitions i ≡ core.partitions i
unfolding enqueue_at set_partition
enqueue_at-closed k i c core core' h e = elim (Option-cases (core.partitions k)) [
  | inl gone ↦ absurd (ground (arith, e, gone))
  | inr (p, ep) ↦ elim (Bool-cases (same k i)) [
    | inl hit ↦
        ground
          (arith, e, ep, enqueue-closed c p (h p ep), hit, ap core.partitions (same-eq k i hit))
    | inr miss ↦ ground (arith, e, ep, miss)
  ]
]

stopped :
    (core : TradingCore) (k : Instrument) (p : Partition)
    → (stop_accepting_commands core).partitions k ≡ some p
    → p.accepting_commands ≡ false
unfolding stop_accepting_commands Partition.stop_accepting_commands
stopped core k p e = elim (Option-cases (core.partitions k)) [
  | inl gone ↦ absurd (ground (arith, e, gone))
  | inr (q, eq) ↦ ground (arith, e, eq)
]

enqueue_for-closed :
    (id : OrderId) (i : Instrument) (c : Command) (core core' : TradingCore)
    → ((k : Instrument) (p : Partition) → core.partitions k ≡ some p → p.accepting_commands ≡ false)
    → enqueue_for id c core ≡ some core'
    → core'.partitions i ≡ core.partitions i
unfolding enqueue_for
enqueue_for-closed id i c core core' h e = elim (Option-cases (find_partition_for_order id core)) [
  | inl gone ↦ ground (arith, e, gone)
  | inr (k, f) ↦ enqueue_at-closed k i c core core' (h k) (ground (arith, e, f))
]

-- After the core has stopped accepting commands, a command that is submitted without a fault leaves
-- every partition as it is.
pub submit_command-stop_accepting_commands :
    (c : Command) (core core' : TradingCore) (i : Instrument)
    → submit_command c (stop_accepting_commands core) ≡ some core'
    → core'.partitions i ≡ (stop_accepting_commands core).partitions i
unfolding submit_command
submit_command-stop_accepting_commands (new_order client ts o) core core' i e =
    enqueue_at-closed o.symbol i (new_order client ts o) (stop_accepting_commands core) core'
      (stopped core o.symbol) e
submit_command-stop_accepting_commands (cancel_order client ts id) core core' i e =
    enqueue_for-closed id i (cancel_order client ts id) (stop_accepting_commands core) core'
      (stopped core) e
submit_command-stop_accepting_commands (modify_order client ts id price quantity) core core' i e =
    enqueue_for-closed id i (modify_order client ts id price quantity)
      (stop_accepting_commands core) core' (stopped core) e

-- The partition with the command at the end of its queue, if it is open and has room.
abbrev pub queued : Command → Partition → Partition
queued c p = record p {
  queue =
      if p.accepting_commands && ltb (length p.queue) 262144 then p.queue ++ c ∷ [] else p.queue;
}

enqueue-queued : (c : Command) (p : Partition) → enqueue c p ≡ queued c p
unfolding enqueue
enqueue-queued c p = elim (Bool-cases p.accepting_commands) [
  | inr shut ↦ rw shut
  | inl ready ↦ elim (Bool-cases (ltb (length p.queue) queue_capacity)) [
    | inl room ↦ rw (ready, room)
    | inr full ↦ rw (ready, full)
  ]
]

-- What becomes of a command on an order: it goes to the partition that owns the order, or nowhere.
abbrev pub Routed : OrderId → Command → TradingCore → TradingCore → Type 0
Routed id c core core' =
    ((core' ≡ core)
      × All
          (λ j.
            (p : Partition)
            → core.partitions j ≡ some p
            → contains_order_by_id id (p.world).orders ≡ false)
          all_instruments)
    ⊎ ((i : Instrument) × (p : Partition) × (core.partitions i ≡ some p)
        × (contains_order_by_id id (p.world).orders ≡ true)
        × ((j : Instrument)
            → core'.partitions j ≡ (if same i j then some (queued c p) else core.partitions j)))

enqueue_for-Routed :
    (id : OrderId) (c : Command) (core : TradingCore)
    → ((i : Instrument) (p : Partition) → core.partitions i ≡ some p → p.symbol ≡ i)
    → (core' : TradingCore) × (enqueue_for id c core ≡ some core') × Routed id c core core'
unfolding enqueue_for enqueue_at find_partition_for_order set_partition
enqueue_for-Routed id c core own = elim (Option-cases (find_partition id all_instruments core)) [
  | inl gone ↦
      (core, ground (arith, gone), inl (refl, find_partition-none id all_instruments core gone))
  | inr (i, f) ↦
      let (j, p, ep, es, has) = find_partition-owner id all_instruments core i f in
      let at : core.partitions i ≡ some p = ap core.partitions (sym es ∙ own j p ep) ∙ ep in
      (
        set_partition i (enqueue c p) core,
        ground (arith, f, at),
        inr (
          i,
          p,
          at,
          has,
          λ j. ap (λ q. if same i j then some q else core.partitions j) (enqueue-queued c p),
        ),
      )
]

-- If every partition is that of its own instrument, a cancellation is submitted without a fault. If
-- a partition owns the order, one that does gets the cancellation at the end of its queue, when it
-- accepts commands and has fewer than 262144 of them, and stays as it is otherwise; the other
-- partitions stay as they are. If none owns it, nothing changes.
pub submit_command-Routed :
    (client : String) (ts : Timestamp) (id : OrderId) (core : TradingCore)
    → ((i : Instrument) (p : Partition) → core.partitions i ≡ some p → p.symbol ≡ i)
    → (core' : TradingCore) × (submit_command (cancel_order client ts id) core ≡ some core')
      × Routed id (cancel_order client ts id) core core'
unfolding submit_command
submit_command-Routed client ts id core own =
    enqueue_for-Routed id (cancel_order client ts id) core own
