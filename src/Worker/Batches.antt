-- ===== src/Worker/Batches.antt =====
-- The queue of commands and its batches.
use beta_trader.Prelude.{
  ◌-◌, ◌≡◌, refl, sym, ap, ◌∙◌, ℕ, zero, suc, some, List, [], ◌∷◌, ◌++◌, ◌>>=◌, arith, length,
  Option-cases, inl, inr,
}
use beta_trader.Worker.{
  World, Command, process_command, process_batch, batch_size, dequeue, process_next_command,
}

pub dequeue-append :
    (n : ℕ) (queue : List Command) → (dequeue n queue).0 ++ (dequeue n queue).1 ≡ queue
unfolding dequeue
dequeue-append zero queue = refl
dequeue-append (suc n) [] = refl
dequeue-append (suc n) (c ∷ queue) = ap (λ q. c ∷ q) (dequeue-append n queue)

length-dequeue : (n : ℕ) (queue : List Command) → length (dequeue n queue).1 ≡ length queue - n
unfolding dequeue
length-dequeue zero queue = omega arith
length-dequeue (suc n) [] = omega arith
length-dequeue (suc n) (c ∷ queue) = let h = length-dequeue n queue in omega (arith, h)

process_batch-append :
    (cs ds : List Command) (w : World)
    → process_batch (cs ++ ds) w ≡ (process_batch cs w >>= λ w'. process_batch ds w')
unfolding process_batch
process_batch-append [] ds w = refl
process_batch-append (c ∷ cs) ds w = elim (Option-cases (process_command c w)) [
  | inl e ↦ ground (arith, e)
  | inr (w', e) ↦ ground (arith, e, process_batch-append cs ds w')
]

-- Batching changes neither the order nor the outcome of commands: to process a whole queue is to
-- process its next batch and then what processNextCommand leaves of the queue.
pub process_next_command-drains :
    (queue : List Command) (w : World)
    → process_batch queue w ≡ (process_next_command queue w >>= λ r. process_batch r.0 r.1)
unfolding process_next_command
process_next_command-drains queue w =
    let batch = (dequeue batch_size queue).0 in
    let rest = (dequeue batch_size queue).1 in
    ap (λ q. process_batch q w) (sym (dequeue-append batch_size queue))
    ∙ process_batch-append batch rest w
    ∙ elim (Option-cases (process_batch batch w)) [
      | inl e ↦ ground (arith, e)
      | inr (w', e) ↦ ground (arith, e)
    ]

-- When processNextCommand returns, it has taken 64 commands from the queue, or all of them if there
-- were fewer.
pub length-process_next_command :
    (queue rest : List Command) (w w' : World)
    → process_next_command queue w ≡ some (rest, w')
    → length rest ≡ length queue - 64
unfolding process_next_command
length-process_next_command queue rest w w' e =
    let h = length-dequeue batch_size queue in
    elim (Option-cases (process_batch (dequeue batch_size queue).0 w)) [
      | inl f ↦ absurd (ground (arith, e, f))
      | inr (v, f) ↦ ground (arith, e, f, h)
    ]
