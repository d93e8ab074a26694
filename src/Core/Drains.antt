-- ===== src/Core/Drains.antt =====
-- A worker that goes on works off its queue.
use beta_trader.Prelude.{
  ◌≡◌, refl, ap, ◌∙◌, ℕ, zero, suc, ◌-◌, ◌*◌, ◌≤◌, true, Option, some, ◌>>=◌, arith, length,
}
use beta_trader.Common.Types.{Instrument}
use beta_trader.Worker.Batches.{length-process_next_command}
use beta_trader.Partition.{Partition}
use beta_trader.MarketData.{same}
use beta_trader.Core.{TradingCore, set_partition, work}
use beta_trader.Core.Safe.{process_next_command-IsSafe, with_trade_id-IsSafe}
use beta_trader.Core.Reach.{IsSafeCore, set_partition-IsSafe}

-- A number of passes of the worker of one partition.
unfoldable pub work_often : ℕ → Instrument → TradingCore → Option TradingCore
unfolding work
work_often zero i core = some core
work_often (suc n) i core = work i core >>= work_often n i

same_refl : (i : Instrument) → same i i ≡ true
unfolding same
same_refl i = ground arith

-- A running partition with at most this many commands.
abbrev pub Holds : Instrument → ℕ → TradingCore → Type 0
Holds i n core =
    (p : Partition) × (core.partitions i ≡ some p) × (p.running ≡ true) × (length p.queue ≤ n)

work-Holds :
    (i : Instrument) (n : ℕ) (core : TradingCore)
    → IsSafeCore core
    → Holds i n core
    → (core' : TradingCore) × (work i core ≡ some core') × IsSafeCore core' × Holds i (n - 64) core'
unfolding work
work-Holds i n core h (p, ep, run, le) =
    let w = record (p.world) { trade_id = core.trade_id } in
    let (rest, w', e, h') =
      process_next_command-IsSafe core.order_id p.queue w
        (with_trade_id-IsSafe core.order_id core.trade_id p.world p.queue (h i p ep)) in
    let p' : Partition = record p { queue = rest; world = w' } in
    let core1 : TradingCore = record core { trade_id = w'.trade_id } in
    let l = length-process_next_command p.queue rest w w' e in
    (
      set_partition i p' core1,
      ground (arith, ep, run, e),
      set_partition-IsSafe i p' core1 h' h,
      (p', unfold set_partition in ground (arith, same_refl i), run, omega (arith, l, le)),
    )

-- In a safe core, the queue of a running partition that has at most 64 k commands is empty after k
-- passes of its worker, none of which faults, and the core is safe then.
pub work_often-drains :
    (k : ℕ) (i : Instrument) (core : TradingCore)
    → IsSafeCore core
    → Holds i (64 * k) core
    → (core' : TradingCore) × (work_often k i core ≡ some core')
      × IsSafeCore core'
      × Holds i 0 core'
unfolding work_often
work_often-drains zero i core h holds = (core, refl, h, holds)
work_often-drains (suc k) i core h (p, ep, run, le) =
    let (core1, e, h1, (p1, e1, run1, le1)) = work-Holds i (64 * suc k) core h (p, ep, run, le) in
    let (core2, e2, h2, empty) =
      work_often-drains k i core1 h1 (p1, e1, run1, omega (arith, le1)) in
    (core2, ap (λ o. o >>= work_often k i) e ∙ e2, h2, empty)
