-- ===== src/Core/Safe.antt =====
-- When the queue of a partition can be processed: the orders that it brings are new, and all are limit
-- orders, as the sessions make them.
use beta_trader.Prelude.{
  ◌≡◌, ◌≢◌, ◌≤◌, ◌++◌, ◌+◌, refl, sym, subst, ap, none, some, List, [], ◌∷◌, find, arith, All,
  All-map, Distinct, Option-cases, inl, inr, All-append, append-nil, ◌⊎◌, String,
}
use beta_trader.Common.Types.{limit, OrderId, TradeId, Timestamp}
use beta_trader.Common.Order.{Order}
use beta_trader.Matcher.Within.{Within}
use beta_trader.Worker.{
  World, Command, new_order, cancel_order, modify_order, process_command, process_batch, dequeue,
  process_next_command, batch_size,
}
use beta_trader.Worker.Batches.{dequeue-append}
use beta_trader.Worker.Consistent.{IsConsistent}
use beta_trader.Worker.Reach.{IsAdmissible, process_command-IsConsistent}
use beta_trader.Worker.Within.{Brings, process_command-Within}

-- The ids of the orders that a queue brings.
abbrev pub new_ids : List Command → List OrderId
new_ids [] = []
new_ids (new_order client ts o ∷ q) = o.core_order_id ∷ new_ids q
new_ids (cancel_order client ts id ∷ q) = new_ids q
new_ids (modify_order client ts id price quantity ∷ q) = new_ids q

abbrev pub IsLimitCommand : Command → Type 0
IsLimitCommand (new_order client ts o) = o.order_type ≡ limit
IsLimitCommand (cancel_order client ts id) = Unit
IsLimitCommand (modify_order client ts id price quantity) = Unit

-- `n` is the last order id that was given out.
pub record IsSafe (n : OrderId) (w : World) (queue : List Command) : Type 0 where
  pub consistent : IsConsistent w
  pub owned : Within (λ k t. (k ≤ n) × (t ≡ limit)) w.orders
  pub fresh : All (λ k. (k ≤ n) × (find k w.orders ≡ none)) (new_ids queue)
  pub distinct : Distinct (new_ids queue)
  pub limits : All IsLimitCommand queue

-- An id that is not owned stays so, unless the command brings it.
absent-process_command :
    (c : Command) (k : OrderId) (w w' : World)
    → process_command c w ≡ some w'
    → Brings (λ j t. j ≢ k) c
    → find k w.orders ≡ none
    → find k w'.orders ≡ none
absent-process_command c k w w' e b gone = elim (Option-cases (find k w'.orders)) [
  | inl gone' ↦ gone'
  | inr (o, there) ↦
      absurd (
        process_command-Within (λ j t. j ≢ k) c w w' e b (λ j x f h. absent j x f h) k o there refl)
]
  where
    absent : (j : OrderId) (x : Order) → find j w.orders ≡ some x → ¬ (j ≡ k)
    absent j x f h = absurd (ground (arith, f, h, gone))

-- A command at the front of a safe queue.
admissible :
    (n : OrderId) (c : Command) (w : World) (queue : List Command)
    → IsSafe n w (c ∷ queue)
    → IsAdmissible c w
admissible n (new_order client ts o) w queue h = h.fresh.0.1
admissible n (cancel_order client ts id) w queue h = tt
admissible n (modify_order client ts id price quantity) w queue h = λ o e. (h.owned id o e).1

All-absent :
    (c : Command) (n : OrderId) (ks : List OrderId) (w w' : World)
    → process_command c w ≡ some w'
    → All (λ k. Brings (λ j t. j ≢ k) c) ks
    → All (λ k. (k ≤ n) × (find k w.orders ≡ none)) ks
    → All (λ k. (k ≤ n) × (find k w'.orders ≡ none)) ks
All-absent c n [] w w' e b h = tt
All-absent c n (k ∷ ks) w w' e b h =
    ((h.0.0, absent-process_command c k w w' e b.0 h.0.1), All-absent c n ks w w' e b.1 h.1)

apart-Brings :
    (o : Order) (ks : List OrderId)
    → All (λ k. k ≢ o.core_order_id) ks
    → All (λ k. o.core_order_id ≢ k) ks
apart-Brings o ks h = All-map _ _ ks (λ k ne e. ne (sym e)) h

All-tt : (ks : List OrderId) → All (λ k. Unit {0}) ks
All-tt [] = tt
All-tt (k ∷ ks) = (tt, All-tt ks)

-- The front command of a safe queue is processed, and leaves a safe queue.
process_command-IsSafe :
    (n : OrderId) (c : Command) (w : World) (queue : List Command)
    → IsSafe n w (c ∷ queue)
    → (w' : World) × (process_command c w ≡ some w') × IsSafe n w' queue
process_command-IsSafe n c w queue h =
    let (w', e, k) = process_command-IsConsistent c w h.consistent (admissible n c w queue h) in
    (w', e, after c h w' e k)
  where
    limited :
        (w' : World) (d : Command)
        → IsSafe n w (d ∷ queue)
        → process_command d w ≡ some w'
        → Within (λ k t. (k ≤ n) × (t ≡ limit)) w'.orders
    limited w' (new_order client ts o) s e =
        process_command-Within (λ k t. (k ≤ n) × (t ≡ limit)) (new_order client ts o) w w' e
          (s.fresh.0.0, s.limits.0) s.owned
    limited w' (cancel_order client ts id) s e =
        process_command-Within (λ k t. (k ≤ n) × (t ≡ limit)) (cancel_order client ts id) w w' e tt
          s.owned
    limited w' (modify_order client ts id price quantity) s e =
        process_command-Within (λ k t. (k ≤ n) × (t ≡ limit))
          (modify_order client ts id price quantity) w w' e tt s.owned

    after :
        (d : Command)
        → IsSafe n w (d ∷ queue)
        → (w' : World) → process_command d w ≡ some w'
        → IsConsistent w'
        → IsSafe n w' queue
    after (new_order client ts o) s w' e k = record {
      consistent = k;
      owned = limited w' (new_order client ts o) s e;
      fresh =
          All-absent (new_order client ts o) n (new_ids queue) w w' e
            (apart-Brings o (new_ids queue) s.distinct.0) s.fresh.1;
      distinct = s.distinct.1;
      limits = s.limits.1;
    }
    after (cancel_order client ts id) s w' e k = record {
      consistent = k;
      owned = limited w' (cancel_order client ts id) s e;
      fresh =
          All-absent (cancel_order client ts id) n (new_ids queue) w w' e (All-tt (new_ids queue))
            s.fresh;
      distinct = s.distinct;
      limits = s.limits.1;
    }
    after (modify_order client ts id price quantity) s w' e k = record {
      consistent = k;
      owned = limited w' (modify_order client ts id price quantity) s e;
      fresh =
          All-absent (modify_order client ts id price quantity) n (new_ids queue) w w' e
            (All-tt (new_ids queue)) s.fresh;
      distinct = s.distinct;
      limits = s.limits.1;
    }

process_batch-IsSafe :
    (n : OrderId) (cs ds : List Command) (w : World)
    → IsSafe n w (cs ++ ds)
    → (w' : World) × (process_batch cs w ≡ some w') × IsSafe n w' ds
unfolding process_batch
process_batch-IsSafe n [] ds w h = (w, refl, h)
process_batch-IsSafe n (c ∷ cs) ds w h =
    let (w1, e1, h1) = process_command-IsSafe n c w (cs ++ ds) h in
    let (w2, e2, h2) = process_batch-IsSafe n cs ds w1 h1 in (w2, ground (arith, e1, e2), h2)

-- One pass of the worker over a safe queue ends without a fault, and what is left is safe.
pub process_next_command-IsSafe :
    (n : OrderId) (queue : List Command) (w : World)
    → IsSafe n w queue
    → (rest : List Command) × (w' : World) × (process_next_command queue w ≡ some (rest, w'))
      × IsSafe n w' rest
unfolding process_next_command
process_next_command-IsSafe n queue w h =
    let (w', e, h') =
      process_batch-IsSafe n (dequeue batch_size queue).0 (dequeue batch_size queue).1 w
        (subst (IsSafe n w) (sym (dequeue-append batch_size queue)) h) in
    ((dequeue batch_size queue).1, w', ground (arith, e), h')

-- The trade id that a worker starts from does not matter.
pub with_trade_id-IsSafe :
    (n : OrderId) (id : TradeId) (w : World) (queue : List Command)
    → IsSafe n w queue
    → IsSafe n (record w { trade_id = id }) queue
with_trade_id-IsSafe n id w queue h = record {
  consistent = record {
    keyed = (h.consistent).keyed;
    bids_sound = (h.consistent).bids_sound;
    asks_sound = (h.consistent).asks_sound;
    uncrossed = (h.consistent).uncrossed;
  };
  owned = h.owned;
  fresh = h.fresh;
  distinct = h.distinct;
  limits = h.limits;
}

new_ids-append : (cs ds : List Command) → new_ids (cs ++ ds) ≡ new_ids cs ++ new_ids ds
new_ids-append [] ds = refl
new_ids-append (new_order client ts o ∷ cs) ds =
    ap (λ ks. o.core_order_id ∷ ks) (new_ids-append cs ds)
new_ids-append (cancel_order client ts id ∷ cs) ds = new_ids-append cs ds
new_ids-append (modify_order client ts id price quantity ∷ cs) ds = new_ids-append cs ds

Distinct-snoc :
    (ks : List OrderId) (k : OrderId) → Distinct ks → All (λ j. j ≢ k) ks → Distinct (ks ++ k ∷ [])
Distinct-snoc [] k d h = (tt, tt)
Distinct-snoc (j ∷ ks) k d h =
    (All-append _ ks (k ∷ []) d.0 ((λ e. h.0 (sym e)), tt), Distinct-snoc ks k d.1 h.1)

-- An order with the next id can be put behind a safe queue.
pub new_order-IsSafe :
    (n : OrderId) (client : String) (ts : Timestamp) (o : Order) (w : World) (queue : List Command)
    → o.core_order_id ≡ n + 1
    → o.order_type ≡ limit
    → IsSafe n w queue
    → IsSafe (n + 1) w (queue ++ new_order client ts o ∷ [])
new_order-IsSafe n client ts o w queue id type h = record {
  consistent = h.consistent;
  owned = λ k x e. let (le, lim) = h.owned k x e in (omega (arith, le), lim);
  fresh = rw (new_ids-append queue (new_order client ts o ∷ [])) (
      All-append _ (new_ids queue) (o.core_order_id ∷ [])
        (All-map _ _ (new_ids queue) (λ k (le, gone). (omega (arith, le), gone)) h.fresh)
        ((omega (arith, id), unowned (Option-cases (find o.core_order_id w.orders))), tt));
  distinct = rw (new_ids-append queue (new_order client ts o ∷ [])) (
      Distinct-snoc (new_ids queue) o.core_order_id h.distinct
        (All-map _ _ (new_ids queue) (λ k (le, gone) e. omega (arith, le, id, e)) h.fresh));
  limits = All-append _ queue (new_order client ts o ∷ []) h.limits (type, tt);
}
  where
    unowned :
        (find o.core_order_id w.orders ≡ none)
          ⊎ ((x : Order) × (find o.core_order_id w.orders ≡ some x))
        → find o.core_order_id w.orders ≡ none
    unowned (inl gone) = gone
    unowned (inr (x, e)) =
        let (le, _) = h.owned o.core_order_id x e in absurd (omega (arith, le, id))

-- So can a command that brings no order.
pub other-IsSafe :
    (n : OrderId) (c : Command) (w : World) (queue : List Command)
    → new_ids (c ∷ []) ≡ []
    → IsLimitCommand c
    → IsSafe n w queue
    → IsSafe n w (queue ++ c ∷ [])
other-IsSafe n c w queue e type h = record {
  consistent = h.consistent;
  owned = h.owned;
  fresh = rw (new_ids-append queue (c ∷ []), e, append-nil) h.fresh;
  distinct = rw (new_ids-append queue (c ∷ []), e, append-nil) h.distinct;
  limits = All-append _ queue (c ∷ []) h.limits (type, tt);
}

-- More ids may have been given out.
pub IsSafe-mono :
    (n : OrderId) (w : World) (queue : List Command) → IsSafe n w queue → IsSafe (n + 1) w queue
IsSafe-mono n w queue h = record {
  consistent = h.consistent;
  owned = λ k x e. let (le, lim) = h.owned k x e in (omega (arith, le), lim);
  fresh = All-map _ _ (new_ids queue) (λ k (le, gone). (omega (arith, le), gone)) h.fresh;
  distinct = h.distinct;
  limits = h.limits;
}
