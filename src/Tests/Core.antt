-- ===== src/Tests/Core.antt =====
-- The theorems on the whole core, at the partition of two resting orders.
use beta_trader.Prelude.{
  ◌≡◌, refl, true, false, none, some, [], ◌∷◌, arith, find, ◌≤◌, subst, if◌then◌else◌,
}
use beta_trader.Common.Types.{Instrument, eurusd, limit}
use beta_trader.Worker.{cancel_order}
use beta_trader.Partition.{Partition, enqueue}
use beta_trader.Core.{
  TradingCore, submit_command, stop_accepting_commands, work, enqueue_for, enqueue_at,
  set_partition, find_partition_for_order,
}
use beta_trader.MarketData.{same}
use beta_trader.Manager.{contains_order_by_id}
use beta_trader.Partition
use beta_trader.Core.Drains.{Holds, work_often, work_often-drains}
use beta_trader.Core.Safe.{IsSafe}
use beta_trader.Core.Reach.{IsSafeCore, here, next, cancelled, closed, Reaches-IsSafe}
use beta_trader.Core.Routing.{Routed, submit_command-Routed, submit_command-stop_accepting_commands}
use beta_trader.Matcher.Within.{Within}
use beta_trader.Tests.Scenario.{world, world-IsConsistent, resting}

abbrev pub partition : Partition
partition = record {
  symbol = eurusd;
  queue = [];
  accepting_commands = true;
  running = true;
  world = world;
}

abbrev pub core : TradingCore
core = record {
  partitions = λ i. elim i [ eurusd ↦ some partition | _ ↦ none ];
  trade_id = 40;
  order_id = 3;
  market_data_publisher = record {
    subscriptions = [];
    general_snapshot_callbacks = [];
    session_snapshot_callbacks = [];
    general_incremental_callbacks = [];
    session_incremental_callbacks = [];
  };
}

abbrev pub cancelled_core : TradingCore
cancelled_core = record core {
  partitions = λ i.
      if same eurusd i
      then some (record partition { queue = cancel_order "7" 1000 1 ∷ [] })
      else core.partitions i;
}

submitted : submit_command (cancel_order "7" 1000 1) core ≡ some cancelled_core
unfolding submit_command enqueue_for enqueue_at set_partition enqueue find_partition_for_order
    contains_order_by_id find
submitted = refl

resting-Within : Within (λ k t. (k ≤ 3) × (t ≡ limit)) resting
unfolding find
resting-Within k o e = ground arith

partition-IsSafe : IsSafe 3 world []
partition-IsSafe = record {
  consistent = world-IsConsistent;
  owned = resting-Within;
  fresh = tt;
  distinct = tt;
  limits = tt;
}

core-IsSafe : IsSafeCore core
core-IsSafe eurusd p e =
    subst (λ (x : Partition). IsSafe 3 x.world x.queue) {x = partition} {y = p} (ground (arith, e))
      partition-IsSafe
core-IsSafe i p e = absurd (ground (arith, e))

Reaches-IsSafe_example :
    IsSafeCore (stop_accepting_commands cancelled_core)
    × ((after : TradingCore) × (work eurusd (stop_accepting_commands cancelled_core) ≡ some after)
        × IsSafeCore after)
Reaches-IsSafe_example =
    Reaches-IsSafe eurusd core-IsSafe (next (next here (cancelled "7" 1000 1 submitted)) closed)

core-symbols : (i : Instrument) (p : Partition) → core.partitions i ≡ some p → p.symbol ≡ i
core-symbols eurusd p e = ground (arith, e)
core-symbols i p e = absurd (ground (arith, e))

submit_command-Routed_example :
    (core' : TradingCore) × (submit_command (cancel_order "7" 1000 2) core ≡ some core')
    × Routed 2 (cancel_order "7" 1000 2) core core'
submit_command-Routed_example = submit_command-Routed "7" 1000 2 core core-symbols

stopped :
    submit_command (cancel_order "7" 1000 1) (stop_accepting_commands core)
    ≡ some (
        set_partition eurusd
          (record partition { accepting_commands = false })
          (stop_accepting_commands core))
unfolding submit_command enqueue_for enqueue_at set_partition enqueue find_partition_for_order
    contains_order_by_id find stop_accepting_commands Partition.stop_accepting_commands
stopped = refl

submit_command-stop_accepting_commands_example :
    (set_partition eurusd
        (record partition { accepting_commands = false })
        (stop_accepting_commands core)).partitions
      eurusd
    ≡ (stop_accepting_commands core).partitions eurusd
submit_command-stop_accepting_commands_example =
    submit_command-stop_accepting_commands (cancel_order "7" 1000 1) core
      (set_partition eurusd (record partition { accepting_commands = false })
        (stop_accepting_commands core))
      eurusd stopped

work_often-drains_example :
    (core' : TradingCore) × (work_often 1 eurusd cancelled_core ≡ some core')
    × IsSafeCore core'
    × Holds eurusd 0 core'
unfolding same
work_often-drains_example =
    work_often-drains 1 eurusd cancelled_core
      (Reaches-IsSafe eurusd core-IsSafe (next here (cancelled "7" 1000 1 submitted))).0
      (record partition { queue = cancel_order "7" 1000 1 ∷ [] }, refl, refl, omega arith)
