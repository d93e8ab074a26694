-- ===== src/Core/Reach.antt =====
-- The whole core: orders with ids from the generator are submitted, and the workers of the partitions
-- run in any interleaving of their batches.
use beta_trader.Prelude.{
  ◌≡◌, ◌<◌, ◌++◌, ◌+◌, refl, sym, subst, some, [], ◌∷◌, arith, Option-cases, Bool-cases, inl, inr,
  String, ltb, length, u64_mod,
}
use beta_trader.Common.Types.{
  Instrument, OrderSide, limit, TimeInForce, OrderId, Price, Quantity, Timestamp,
}
use beta_trader.Common.Order.{make_order}
use beta_trader.Worker.{Command, new_order, cancel_order, modify_order}
use beta_trader.Partition.{Partition, enqueue, queue_capacity}
use beta_trader.Partition
use beta_trader.MarketData.{same}
use beta_trader.Core.{
  TradingCore, set_partition, next_order_id, find_partition_for_order, enqueue_at, enqueue_for,
  submit_command, stop_accepting_commands, work,
}
use beta_trader.Core.Safe.{
  IsSafe, IsLimitCommand, new_ids, process_next_command-IsSafe, with_trade_id-IsSafe,
  new_order-IsSafe, other-IsSafe, IsSafe-mono,
}

abbrev pub IsSafePartition : OrderId → Partition → Type 0
IsSafePartition n p = IsSafe n p.world p.queue

-- Each partition is consistent, and its queue can be processed.
abbrev pub IsSafeCore : TradingCore → Type 0
IsSafeCore core =
    (i : Instrument) (p : Partition) → core.partitions i ≡ some p → IsSafePartition core.order_id p

-- The core with one order id more given out.
abbrev pub give_order_id : TradingCore → TradingCore
give_order_id core = record core { order_id = next_order_id core.order_id }

-- What a session, or the worker of a partition, does to the core.
pub data Moves (core : TradingCore) : TradingCore → Type 0 where
  ordered :
      {core' : TradingCore} (cl client sender : String) (symbol : Instrument) (side : OrderSide)
      (tif : TimeInForce) (quantity : Quantity) (price : Price) (ts : Timestamp)
      → core.order_id + 1 < u64_mod
      → submit_command
          (new_order client ts (
            make_order cl
              (next_order_id core.order_id)
              symbol
              client
              sender
              side
              limit
              tif
              quantity
              price
              ts))
          (give_order_id core)
        ≡ some core'
      → Moves core core'
  cancelled :
      {core' : TradingCore} (client : String) (ts : Timestamp) (id : OrderId)
      → submit_command (cancel_order client ts id) core ≡ some core'
      → Moves core core'
  modified :
      {core' : TradingCore} (client : String) (ts : Timestamp) (id : OrderId) (price : Price)
      (quantity : Quantity)
      → submit_command (modify_order client ts id price quantity) core ≡ some core'
      → Moves core core'
  worked : {core' : TradingCore} (i : Instrument) → work i core ≡ some core' → Moves core core'
  closed : Moves core (stop_accepting_commands core)

pub data Reaches (core : TradingCore) : TradingCore → Type 0 where
  here : Reaches core core
  next : {u v : TradingCore} → Reaches core u → Moves u v → Reaches core v

pub set_partition-IsSafe :
    (i : Instrument) (p : Partition) (core : TradingCore)
    → IsSafePartition core.order_id p
    → IsSafeCore core
    → IsSafeCore (set_partition i p core)
unfolding set_partition
set_partition-IsSafe i p core new h j q e = elim (Bool-cases (same i j)) [
  | inl hit ↦ subst (IsSafePartition core.order_id) {x = p} {y = q} (ground (arith, e, hit)) new
  | inr miss ↦ h j q (ground (arith, e, miss))
]

-- A safe command may be put into the queue of a partition, or dropped.
enqueue-IsSafe :
    (n : OrderId) (c : Command) (p : Partition)
    → IsSafe n p.world p.queue
    → IsSafe n p.world (p.queue ++ c ∷ [])
    → IsSafePartition n (enqueue c p)
unfolding enqueue
enqueue-IsSafe n c p h h' = elim (Bool-cases p.accepting_commands) [
  | inr closed' ↦ rw closed' h
  | inl open' ↦ elim (Bool-cases (ltb (length p.queue) queue_capacity)) [
    | inl room ↦ rw (open', room) h'
    | inr full ↦ rw (open', full) h
  ]
]

enqueue_at-IsSafe :
    (i : Instrument) (c : Command) (core core' : TradingCore)
    → enqueue_at i c core ≡ some core'
    → IsSafeCore core
    → ((p : Partition)
        → core.partitions i ≡ some p
        → IsSafe core.order_id p.world (p.queue ++ c ∷ []))
    → IsSafeCore core'
unfolding enqueue_at
enqueue_at-IsSafe i c core core' e h more = elim (Option-cases (core.partitions i)) [
  | inl bad ↦ absurd (ground (arith, e, bad))
  | inr (p, ep) ↦
      subst IsSafeCore {x = set_partition i (enqueue c p) core} {y = core'} (ground (arith, e, ep))
        (set_partition-IsSafe i (enqueue c p) core
          (enqueue-IsSafe core.order_id c p (h i p ep) (more p ep)) h)
]

enqueue_for-IsSafe :
    (id : OrderId) (c : Command) (core core' : TradingCore)
    → enqueue_for id c core ≡ some core'
    → new_ids (c ∷ []) ≡ []
    → IsLimitCommand c
    → IsSafeCore core
    → IsSafeCore core'
unfolding enqueue_for
enqueue_for-IsSafe id c core core' e none' lim h =
    elim (Option-cases (find_partition_for_order id core)) [
      | inl gone ↦ subst IsSafeCore {x = core} {y = core'} (ground (arith, e, gone)) h
      | inr (i, f) ↦
          enqueue_at-IsSafe i c core core' (ground (arith, e, f)) h
            λ p ep. other-IsSafe core.order_id c p.world p.queue none' lim (h i p ep)
    ]

pub work-some :
    (i : Instrument) (core : TradingCore)
    → IsSafeCore core
    → (core' : TradingCore) × (work i core ≡ some core') × IsSafeCore core'
unfolding work
work-some i core h = elim (Option-cases (core.partitions i)) [
  | inl gone ↦ (core, ground (arith, gone), h)
  | inr (p, ep) ↦ elim (Bool-cases p.running) [
    | inr idle ↦ (core, ground (arith, ep, idle), h)
    | inl busy ↦
        let (rest, w', e, h') =
          process_next_command-IsSafe core.order_id p.queue
            (record (p.world) { trade_id = core.trade_id })
            (with_trade_id-IsSafe core.order_id core.trade_id p.world p.queue (h i p ep)) in
        (
          set_partition i (record p { queue = rest; world = w' })
              (record core { trade_id = w'.trade_id }),
          ground (arith, ep, busy, e),
          set_partition-IsSafe i (record p { queue = rest; world = w' })
              (record core { trade_id = w'.trade_id }) h' h,
        )
  ]
]

next_order_id-eq : (n : OrderId) → n + 1 < u64_mod → n + 1 ≡ next_order_id n
next_order_id-eq n h = omega (arith, h)

Moves-IsSafe : {u v : TradingCore} → Moves u v → IsSafeCore u → IsSafeCore v
unfolding submit_command stop_accepting_commands Partition.stop_accepting_commands
Moves-IsSafe {u} {v} (ordered cl client sender symbol side tif quantity price ts bound e) h =
    let n = u.order_id in
    let o = make_order cl (next_order_id n) symbol client sender side limit tif quantity price ts in
    let up = next_order_id-eq n bound in
    enqueue_at-IsSafe symbol (new_order client ts o) (give_order_id u) v e
      (λ i p ep.
        subst (λ m. IsSafe m p.world p.queue) up (IsSafe-mono n p.world p.queue (h i p ep)))
      λ p ep.
        subst (λ m. IsSafe m p.world (p.queue ++ new_order client ts o ∷ [])) up
          (new_order-IsSafe n client ts o p.world p.queue (sym up) refl (h symbol p ep))
Moves-IsSafe {u} {v} (cancelled client ts id e) h =
    enqueue_for-IsSafe id (cancel_order client ts id) u v e refl tt h
Moves-IsSafe {u} {v} (modified client ts id price quantity e) h =
    enqueue_for-IsSafe id (modify_order client ts id price quantity) u v e refl tt h
Moves-IsSafe {u} {v} (worked i e) h =
    let (w, e', h') = work-some i u h in subst IsSafeCore {x = w} {y = v} (ground (arith, e, e')) h'
Moves-IsSafe {u} closed h = λ i q e. elim (Option-cases (u.partitions i)) [
  | inl gone ↦ absurd (ground (arith, e, gone))
  | inr (p, ep) ↦
      subst (IsSafePartition u.order_id) {x = Partition.stop_accepting_commands p} {y = q}
        (ground (arith, e, ep)) (h i p ep)
]

-- From a safe core, in which all orders that are queued or owned are limit orders, limit orders
-- with ids of the generator that do not wrap around, as the sessions make them, cancellations and
-- modifications that are submitted, passes of the workers and the end of the acceptance of commands
-- lead, in any order, only to safe cores; there the next pass of every worker ends without a fault,
-- in a safe core again.
pub Reaches-IsSafe :
    {core core' : TradingCore} (i : Instrument)
    → IsSafeCore core
    → Reaches core core'
    → IsSafeCore core' × ((after : TradingCore) × (work i core' ≡ some after) × IsSafeCore after)
Reaches-IsSafe {core} {core'} i h r = let k = go r in (k, work-some i core' k)
  where
    go : {v : TradingCore} → Reaches core v → IsSafeCore v
    go here = h
    go (next r' m) = Moves-IsSafe m (go r')
