-- ===== src/Fix/Session/Orders.antt =====
-- What a NewOrderSingle of a client that is logged on does to the core.
use beta_trader.Fix.Session.Guarded.{handle_messages}
use beta_trader.Session.Laws.{validate_sequence-accepts}
use beta_trader.Common.Order.{Order}
use beta_trader.Prelude.{
  ◌≡◌, refl, ◌∙◌, ℕ, true, some, arith, if◌then◌else◌, ◌<◌, ◌≤◌, ◌+◌, ◌%◌, List, [], ◌∷◌, ◌++◌, All,
  sym, ap, ◌>>=◌, length, length-append, ltb, append-nil, append_assoc, String,
}
use beta_trader.Common.Types.{Instrument, OrderId, limit, day, OrderStatus}
use beta_trader.Worker.{new_order, Command}
use beta_trader.Partition.{Partition, enqueue, queue_capacity}
use beta_trader.MarketData.{same}
use beta_trader.Core.{next_order_id, submit_command, set_partition, enqueue_at}
use beta_trader.Session.{validate_sequence, SessionState, get_session_state}
use beta_trader.Fix.Text.{Bytes, print}
use beta_trader.Fix.Values.{text}
use beta_trader.Fix.Requests.{OrderRequest, convert_order}
use beta_trader.Fix.Session.{
  seq_num_of, is_logged_on, handle_new_order, handle_fix_message, order_of, dispatch,
}
use beta_trader.Fix.Sending.{Surroundings, FixSession}

-- A NewOrderSingle of a client that is logged on, with a number that can be read, a request that
-- can be converted and a partition for its instrument, is put into the queue of that partition, if
-- it is open and not full, with the next order id, even when its sequence number is rejected;
-- nothing is written.
pub handle_fix_message-new_order :
    (env : Surroundings) (message : Bytes) (n : ℕ) (r : OrderRequest) (p : Partition)
    (s : FixSession) (i : Instrument)
    → is_logged_on env s ≡ true
    → seq_num_of message ≡ some n
    → convert_order env.readers message ≡ some r
    → (s.core).partitions r.symbol ≡ some p
    → let o = order_of env r (next_order_id (s.core).order_id) in
      let c = new_order (text (print env.session_id)) env.now o in
      (s' : FixSession) × (handle_fix_message env message 68 s ≡ some s')
      × ((s'.core).order_id ≡ next_order_id (s.core).order_id)
      × ((s'.core).partitions i
          ≡ (if same r.symbol i then some (enqueue c p) else (s.core).partitions i))
      × (s'.written ≡ s.written)
      × (s'.manager ≡ (validate_sequence env.session_id n s.manager).1)
unfolding set_partition
handle_fix_message-new_order env message n r p s i on seq convert at =
    let id = next_order_id (s.core).order_id in
    let c = new_order (text (print env.session_id)) env.now (order_of env r id) in
    let core = set_partition r.symbol (enqueue c p) (record (s.core) { order_id = id }) in
    let s1 = record s { manager = (validate_sequence env.session_id n s.manager).1 } in
    let e : submit_command c (record (s.core) { order_id = id }) ≡ some core =
      unfold submit_command enqueue_at in ground (arith, at) in
    let step : handle_fix_message env message 68 s ≡ handle_new_order env n message s1 =
      unfold handle_fix_message dispatch in ground (arith, seq, on) in
    let end : handle_new_order env n message s1 ≡ some (record s1 { core = core }) =
      unfold handle_new_order in ground (arith, convert, e) in
    (record s1 { core = core }, step ∙ end, refl, unfold set_partition in refl, refl, refl)

-- The order of a request, with the time and the number of the connection.
abbrev pub requested : Surroundings → OrderRequest → OrderId → Order
requested env r id = record {
  client_order_id = r.client_order_id;
  core_order_id = id;
  symbol = r.symbol;
  client_id = text (print env.session_id);
  sender_comp_id = r.sender_comp_id;
  order_side = r.side;
  order_type = limit;
  time_in_force = day;
  original_quantity = r.quantity;
  remaining_quantity = r.quantity;
  price = r.price;
  timestamp = env.now;
  order_status = OrderStatus.new;
}

-- The commands of requests, with ids behind `n`, modulo 2^64.
abbrev pub orders_of : Surroundings → OrderId → List (Bytes × OrderRequest) → List Command
orders_of env n [] = []
orders_of env n ((message, r) ∷ sent) =
    let id = (n + 1) % 18446744073709551616 in
    new_order (text (print env.session_id)) env.now (requested env r id) ∷ orders_of env id sent

-- Messages of type D.
abbrev pub as_orders : List (Bytes × OrderRequest) → List (Bytes × ℕ)
as_orders [] = []
as_orders ((message, r) ∷ sent) = (message, 68) ∷ as_orders sent

-- A message with a number, which reads as the request, for the instrument.
abbrev pub ReadsAs : Surroundings → Instrument → Bytes × OrderRequest → Type 0
ReadsAs env i (message, r) =
    ((n : ℕ) × (seq_num_of message ≡ some n))
    × (convert_order env.readers message ≡ some r)
    × (r.symbol ≡ i)

enqueue-room :
    (c : Command) (p : Partition)
    → p.accepting_commands ≡ true
    → length p.queue < 262144
    → enqueue c p ≡ record p { queue = p.queue ++ c ∷ [] }
unfolding enqueue
enqueue-room c p ready room =
    let has_room : ltb (length p.queue) queue_capacity ≡ true = ground (arith, room) in
    rw (ready, has_room)

-- On the connection of a client that is logged on, messages of type D that read as requests for one
-- instrument and whose sequence numbers can be read, whatever they are, become commands at the end
-- of the queue of its partition, in their order and with consecutive order ids, modulo 2^64, from
-- the one behind the last id given out, each for a limit order as requested; they are handled
-- without a fault and nothing is written, if the partition accepts commands and its queue has room
-- for all of them.
pub handle_messages-orders :
    (env : Surroundings) (i : Instrument) (sent : List (Bytes × OrderRequest)) (p : Partition)
    (s : FixSession) (client : String) (state : SessionState)
    → get_session_state env.session_id s.manager ≡ some (client, state)
    → state.is_logged_on ≡ true
    → (s.core).partitions i ≡ some p
    → p.accepting_commands ≡ true
    → length p.queue + length sent ≤ 262144
    → All (ReadsAs env i) sent
    → (s' : FixSession) × (handle_messages env (as_orders sent) s ≡ some s')
      × ((s'.core).partitions i
          ≡ some (record p { queue = p.queue ++ orders_of env (s.core).order_id sent }))
      × (s'.written ≡ s.written)
unfolding handle_messages
handle_messages-orders env i [] p s client state known on at ready room all =
    (s, refl, at ∙ ap (λ q. some (record p { queue = q })) (sym (append-nil p.queue)), refl)
handle_messages-orders env i ((message, r) ∷ sent) p s client state known on at ready room
      (((n, seq), convert, same_symbol), all) =
    let id = next_order_id (s.core).order_id in
    let c = new_order (text (print env.session_id)) env.now (requested env r id) in
    let p' = record p { queue = p.queue ++ c ∷ [] } in
    let logged : is_logged_on env s ≡ true = unfold is_logged_on in ground (arith, known, on) in
    let at_symbol : (s.core).partitions r.symbol ≡ some p =
      ap (s.core).partitions same_symbol ∙ at in
    let (s', e, counted, queued, quiet, numbered) =
      handle_fix_message-new_order env message n r p s i logged seq convert at_symbol in
    let hit : same r.symbol i ≡ true = rw same_symbol (unfold same in ground arith) in
    let at' : (s'.core).partitions i ≡ some p' =
      ground (arith, queued, hit, enqueue-room c p ready (omega (arith, room))) in
    let (known', _) = validate_sequence-accepts env.session_id n client state s.manager known on in
    let room' : length p'.queue + length sent ≤ 262144 =
      omega (arith, room, length-append p.queue (c ∷ [])) in
    let (s'', e', at'', quiet') =
      handle_messages-orders env i sent p' s' client _
        (ap (get_session_state env.session_id) numbered ∙ known') on at' ready room' all in
    (
      s'',
      ap (λ o. o >>= handle_messages env (as_orders sent)) e ∙ e',
      at'' ∙ ground (arith, counted, append_assoc p.queue (c ∷ []) (orders_of env id sent)),
      quiet' ∙ quiet,
    )
