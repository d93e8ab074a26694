-- ===== src/Worker/Reach.antt =====
-- Any history of commands: the states that a partition can reach.
use beta_trader.Prelude.{◌≡◌, subst, some, none, find, arith}
use beta_trader.Common.Types.{limit}
use beta_trader.Common.Order.{Order}
use beta_trader.Worker.{World, Command, new_order, cancel_order, modify_order, process_command}
use beta_trader.Worker.Consistent.{IsConsistent}
use beta_trader.Worker.Commands.{process_new_order-IsConsistent}
use beta_trader.Worker.Cancel.{process_cancel_order-IsConsistent}
use beta_trader.Worker.Modify.{process_modify_order-IsConsistent}

-- The id generator gives a new order an id that no order has, and only limit orders are modified.
abbrev pub IsAdmissible : Command → World → Type 0
IsAdmissible (new_order client ts o) w = find o.core_order_id w.orders ≡ none
IsAdmissible (cancel_order client ts id) w = Unit {0}
IsAdmissible (modify_order client ts id price quantity) w =
    (o : Order) → find id w.orders ≡ some o → o.order_type ≡ limit

pub data Reach (w : World) : World → Type 0 where
  here : Reach w w
  next :
      {u v : World} (c : Command)
      → Reach w u
      → IsAdmissible c u
      → process_command c u ≡ some v
      → Reach w v

pub process_command-IsConsistent :
    (c : Command) (w : World)
    → IsConsistent w
    → IsAdmissible c w
    → (w' : World) × (process_command c w ≡ some w') × IsConsistent w'
unfolding process_command
process_command-IsConsistent (new_order client ts o) w h a =
    process_new_order-IsConsistent client ts o w h a
process_command-IsConsistent (cancel_order client ts id) w h a =
    process_cancel_order-IsConsistent client id w h
process_command-IsConsistent (modify_order client ts id price quantity) w h a =
    process_modify_order-IsConsistent client id price quantity w h a

-- Every state that admissible commands reach from a consistent state is consistent, and there the
-- next admissible command ends without using a destroyed order.
pub Reach-IsConsistent :
    {w v : World} (c : Command)
    → IsConsistent w
    → Reach w v
    → IsAdmissible c v
    → IsConsistent v × ((v' : World) × (process_command c v ≡ some v') × IsConsistent v')
Reach-IsConsistent {w} {v} c h r a = let k = go h r in (k, process_command-IsConsistent c v k a)
  where
    arrive :
        (d : Command) (u x : World)
        → process_command d u ≡ some x
        → (y : World) × (process_command d u ≡ some y) × IsConsistent y
        → IsConsistent x
    arrive d u x e (y, e', k) = subst IsConsistent (ground (arith, e, e')) k

    go : {x : World} → IsConsistent w → Reach w x → IsConsistent x
    go h here = h
    go h (next {u = u} {v = x} c' r' a' e) =
        arrive c' u x e (process_command-IsConsistent c' u (go h r') a')
