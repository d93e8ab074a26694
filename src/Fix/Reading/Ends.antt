-- ===== src/Fix/Reading/Ends.antt =====
-- The loop of `doRead` ends, and takes the frames in their order.
use beta_trader.Prelude.{
  ◌≡◌, refl, sym, ap, ◌∙◌, subst, ℕ, zero, suc, ◌+◌, ◌≤◌, ◌<◌, some, [], ◌∷◌, ◌++◌, arith, length,
  length-append, u64_mod, Option-cases, inl, inr, All, ◌⊎◌,
}
use beta_trader.Fix.Text.{Bytes, codes, drop, find_text, find_text_from, length-drop, drop-append}
use beta_trader.Fix.Builder.{
  header_and_body, before_checksum, build_message, positive_sum, negative_sum,
}
use beta_trader.Fix.Framer.{
  FrameResult, need_more_data, complete, malformed, extract_next_frame, throws,
}
use beta_trader.Fix.Framer.RoundTrip.{IsByte, extract_next_frame-build_message}
use beta_trader.Fix.Framer.Prefix.{CutsOff, extract_next_frame-CutsOff}
use beta_trader.Fix.Sending.{Surroundings, FixSession, send_reject}
use beta_trader.Fix.Reading.{
  Round, waits, goes_on, faults, Reading, read, faulted, out_of_fuel, resynchronised, handle_frame,
  read_round, read_loop, do_read,
}

length-resynchronised : (c : ℕ) (cs : Bytes) → length (resynchronised (c ∷ cs)) < length (c ∷ cs)
unfolding resynchronised find_text_from
length-resynchronised c cs = elim (Option-cases (find_text (codes "8=FIX.") (drop 1 (c ∷ cs)))) [
  | inl gone ↦ ground (arith, gone)
  | inr (n, f) ↦ ground (arith, f, length-drop (1 + n) (c ∷ cs))
]

-- A round takes something off the buffer.
abbrev Shrinks : Bytes → Round → Type 0
Shrinks buffer waits = extract_next_frame buffer ≡ need_more_data
Shrinks buffer (goes_on rest s) = length rest < length buffer
Shrinks buffer faults = Unit

Frame-cases :
    (r : FrameResult)
    → (((r ≡ need_more_data) ⊎ (r ≡ throws)) ⊎ ((e : Bytes) × (r ≡ malformed e)))
      ⊎ ((k : ℕ) × (frame : Bytes) × (r ≡ complete k frame))
Frame-cases need_more_data = inl (inl (inl refl))
Frame-cases throws = inl (inl (inr refl))
Frame-cases (malformed e) = inl (inr (e, refl))
Frame-cases (complete k frame) = inr (k, frame, refl)

read_round-Shrinks :
    (env : Surroundings) (c : ℕ) (cs : Bytes) (s : FixSession)
    → Shrinks (c ∷ cs) (read_round env (c ∷ cs) s)
read_round-Shrinks env c cs s = elim (Frame-cases (extract_next_frame (c ∷ cs))) [
  | inl (inl (inr e)) ↦
      let r : read_round env (c ∷ cs) s ≡ faults = unfold read_round in ground (arith, e) in
      subst (Shrinks (c ∷ cs)) (sym r) tt
  | inl (inl (inl e)) ↦
      let r : read_round env (c ∷ cs) s ≡ waits = unfold read_round in ground (arith, e) in
      subst (Shrinks (c ∷ cs)) (sym r) e
  | inl (inr (error, e)) ↦
      let r : read_round env (c ∷ cs) s
          ≡ goes_on (resynchronised (c ∷ cs)) (send_reject env 0 error s) =
        unfold read_round in ground (arith, e) in
      subst (Shrinks (c ∷ cs)) (sym r) (length-resynchronised c cs)
  | inr (consumed, frame, e) ↦
      let cut : CutsOff (c ∷ cs) (complete consumed frame) =
        subst (CutsOff (c ∷ cs)) e (extract_next_frame-CutsOff (c ∷ cs)) in
      elim (Option-cases (handle_frame env frame s)) [
        | inl bad ↦
            let r : read_round env (c ∷ cs) s ≡ faults =
              unfold read_round in ground (arith, e, bad) in
            subst (Shrinks (c ∷ cs)) (sym r) tt
        | inr (s', h) ↦
            let r : read_round env (c ∷ cs) s ≡ goes_on (drop consumed (c ∷ cs)) s' =
              unfold read_round in ground (arith, e, h) in
            subst (Shrinks (c ∷ cs)) (sym r)
              (omega (arith, cut.0, cut.1, length-drop consumed (c ∷ cs)))
      ]
]

Round-cases :
    (r : Round)
    → ((r ≡ waits) ⊎ (r ≡ faults)) ⊎ ((b : Bytes) × (s : FixSession) × (r ≡ goes_on b s))
Round-cases waits = inl (inl refl)
Round-cases faults = inl (inr refl)
Round-cases (goes_on b s) = inr (b, s, refl)

-- How a read may end: with a rest that is no whole frame, or with a fault.
abbrev pub Ends : Reading → Type 0
Ends (read rest s) = extract_next_frame rest ≡ need_more_data
Ends faulted = Unit
Ends out_of_fuel = ⊥

empty-waits : extract_next_frame [] ≡ need_more_data
unfolding extract_next_frame
empty-waits = refl

read_loop-waits :
    (fuel : ℕ) (env : Surroundings) (c : ℕ) (cs : Bytes) (s : FixSession)
    → read_round env (c ∷ cs) s ≡ waits
    → read_loop (suc fuel) env (c ∷ cs) s ≡ read (c ∷ cs) s
unfolding read_loop
read_loop-waits fuel env c cs s e = ground (arith, e)

read_loop-faults :
    (fuel : ℕ) (env : Surroundings) (c : ℕ) (cs : Bytes) (s : FixSession)
    → read_round env (c ∷ cs) s ≡ faults
    → read_loop (suc fuel) env (c ∷ cs) s ≡ faulted
unfolding read_loop
read_loop-faults fuel env c cs s e = ground (arith, e)

read_loop-goes_on :
    (fuel : ℕ) (env : Surroundings) (c : ℕ) (cs b : Bytes) (s s' : FixSession)
    → read_round env (c ∷ cs) s ≡ goes_on b s'
    → read_loop (suc fuel) env (c ∷ cs) s ≡ read_loop fuel env b s'
unfolding read_loop
read_loop-goes_on fuel env c cs b s s' e = ground (arith, e)

read_loop-Ends :
    (fuel : ℕ) (env : Surroundings) (buffer : Bytes) (s : FixSession)
    → length buffer ≤ fuel
    → Ends (read_loop fuel env buffer s)
unfolding read_loop
read_loop-Ends zero env [] s h = empty-waits
read_loop-Ends zero env (c ∷ cs) s h = absurd (omega (arith, h))
read_loop-Ends (suc fuel) env [] s h = empty-waits
read_loop-Ends (suc fuel) env (c ∷ cs) s h =
    let shrinks = read_round-Shrinks env c cs s in
    elim (Round-cases (read_round env (c ∷ cs) s)) [
      | inl (inl e) ↦
          subst Ends (sym (read_loop-waits fuel env c cs s e)) (subst (Shrinks (c ∷ cs)) e shrinks)
      | inl (inr e) ↦ subst Ends (sym (read_loop-faults fuel env c cs s e)) tt
      | inr (b, s', e) ↦
          let lt : length b < length (c ∷ cs) = subst (Shrinks (c ∷ cs)) e shrinks in
          subst Ends (sym (read_loop-goes_on fuel env c cs b s s' e))
            (read_loop-Ends fuel env b s' (omega (arith, lt, h)))
    ]

-- The loop over what a connection has read never runs out of fuel: it ends with a fault, or with a
-- rest of the buffer that is the beginning of a frame or empty.
pub do_read-Ends :
    (env : Surroundings) (buffer arrived : Bytes) (s : FixSession)
    → Ends (do_read env buffer arrived s)
unfolding do_read
do_read-Ends env buffer arrived s =
    read_loop-Ends (length (buffer ++ arrived)) env (buffer ++ arrived) s (omega arith)

-- More fuel than the buffer has bytes changes nothing.
read_loop-enough :
    (fuel more : ℕ) (env : Surroundings) (buffer : Bytes) (s : FixSession)
    → length buffer ≤ fuel
    → length buffer ≤ more
    → read_loop fuel env buffer s ≡ read_loop more env buffer s
unfolding read_loop
read_loop-enough zero zero env b s h k = refl
read_loop-enough zero (suc more) env [] s h k = refl
read_loop-enough (suc fuel) zero env [] s h k = refl
read_loop-enough (suc fuel) (suc more) env [] s h k = refl
read_loop-enough zero (suc more) env (c ∷ cs) s h k = absurd (omega (arith, h))
read_loop-enough (suc fuel) zero env (c ∷ cs) s h k = absurd (omega (arith, k))
read_loop-enough (suc fuel) (suc more) env (c ∷ cs) s h k =
    let shrinks = read_round-Shrinks env c cs s in
    elim (Round-cases (read_round env (c ∷ cs) s)) [
      | inl (inl e) ↦ read_loop-waits fuel env c cs s e ∙ sym (read_loop-waits more env c cs s e)
      | inl (inr e) ↦ read_loop-faults fuel env c cs s e ∙ sym (read_loop-faults more env c cs s e)
      | inr (b, s', e) ↦
          let lt : length b < length (c ∷ cs) = subst (Shrinks (c ∷ cs)) e shrinks in
          read_loop-goes_on fuel env c cs b s s' e
          ∙ read_loop-enough fuel more env b s' (omega (arith, lt, h)) (omega (arith, lt, k))
          ∙ sym (read_loop-goes_on more env c cs b s s' e)
    ]

-- A whole frame at the front of the buffer is one round.
read_loop-complete :
    (env : Surroundings) (fuel : ℕ) (frame rest : Bytes) (s s' : FixSession)
    → 0 < length frame
    → extract_next_frame (frame ++ rest) ≡ complete (length frame) frame
    → handle_frame env frame s ≡ some s'
    → read_loop (suc fuel) env (frame ++ rest) s ≡ read_loop fuel env rest s'
unfolding drop
read_loop-complete env fuel [] rest s s' lt e h = absurd (omega (arith, lt))
read_loop-complete env fuel (c ∷ cs) rest s s' lt e h =
    let whole = c ∷ (cs ++ rest) in
    let r : read_round env whole s ≡ goes_on (drop (length (c ∷ cs)) whole) s' =
      unfold read_round in ground (arith, e, h) in
    read_loop-goes_on fuel env c (cs ++ rest) (drop (length (c ∷ cs)) whole) s s' r
    ∙ ap (λ b. read_loop fuel env b s')
        (drop-append (c ∷ cs) rest 0 (length (c ∷ cs)) (omega arith))

-- When a message of the builder arrives that is handled without a fault, with anything behind it,
-- the session goes on as it would after the message with the rest alone, if what stands before the
-- checksum are bytes of which the sum as signed characters is not negative, and the length of the
-- message is below 2^64.
pub do_read-build_message :
    (env : Surroundings) (time sender target : Bytes) (seq : ℕ) (type body rest : Bytes)
    (s s' : FixSession)
    → let front = before_checksum (header_and_body time sender target seq type body) in
      let message = build_message time sender target seq type body in
      All IsByte front
      → negative_sum front ≤ positive_sum front
      → length message < u64_mod
      → handle_frame env message s ≡ some s'
      → do_read env [] (message ++ rest) s ≡ do_read env [] rest s'
unfolding do_read
do_read-build_message env time sender target seq type body rest s s' bytes sign bound h =
    let message = build_message time sender target seq type body in
    let e =
      extract_next_frame-build_message time sender target seq type body rest bytes sign bound in
    let cut : CutsOff (message ++ rest) (complete (length message) message) =
      subst (CutsOff (message ++ rest)) e (extract_next_frame-CutsOff (message ++ rest)) in
    let l = length-append message rest in
    read_loop-enough (length (message ++ rest)) (suc (length (message ++ rest))) env
      (message ++ rest) s (omega arith) (omega arith)
    ∙ read_loop-complete env (length (message ++ rest)) message rest s s' cut.0 e h
    ∙ read_loop-enough (length (message ++ rest)) (length rest) env rest s' (omega (arith, l))
        (omega arith)
