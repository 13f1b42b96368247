-- ===== src/Observability/LokiSink/Batches.antt =====
-- Every line that is written reaches the aggregator's batches once and in order.
use mathlib.Core.List.{append_assoc, append-nil}
use nodeva.Prelude.{
  ◌*◌, ℕ, suc, ◌≡◌, ◌≤◌, ◌<◌, refl, sym, ap, ◌∙◌, arith, Bool, false, ltb, leb, Option, List, [],
  ◌∷◌, ◌++◌, length, map, All, inl, inr, Bool-cases,
}
use nodeva.Observability.LokiSink.{
  Stamped, Sink, flush, push, Level, levels, current_threshold, write, LogEvent, logs, ticks,
  on_event, run_logger,
}

-- The lines of the batches, in order.
abbrev pub lines : List (List Stamped) → List Stamped
lines [] = []
lines (b ∷ bs) = b ++ lines bs

lines_append : (bs cs : List (List Stamped)) → lines (bs ++ cs) ≡ lines bs ++ lines cs
lines_append [] cs = refl
lines_append (b ∷ bs) cs =
    ap (λ t. b ++ t) (lines_append bs cs) ∙ sym (append_assoc b (lines bs) (lines cs))

All_append {ℓ} :
    {A : Type ℓ} (P : A → Type 0) (xs : List A) (y : A) → All P xs → P y → All P (xs ++ (y ∷ []))
All_append P [] y h p = (p, tt)
All_append P (x ∷ xs) y h p = (h.0, All_append P xs y h.1 p)

length_append : (xs : List Stamped) (y : Stamped) → length (xs ++ (y ∷ [])) ≡ suc (length xs)
length_append [] y = refl
length_append (x ∷ xs) y = ap suc (length_append xs y)

not_leb : (m n : ℕ) → leb m n ≡ false → n < m
not_leb m n h = ground arith

-- What the stream got, as far as the sink is concerned: everything, batched or waiting; no batch is
-- empty or too long, and the buffer is not full.
pub record IsShipped (max_batch : ℕ) (stream : List ℕ) (s : Sink) : Type 0 where
  pub same_lines : map (λ x. x.1) (lines s.batches ++ s.buffer) ≡ stream
  pub batch_sizes : All (λ b. (0 < length b) × (length b ≤ max_batch)) s.batches
  pub buffer_size : length s.buffer < max_batch

flushed :
    (is_accepted : List Stamped → Bool) (max_batch : ℕ) (stream : List ℕ)
    (batches : List (List Stamped)) (buffer : List Stamped) (errors : ℕ)
    → 0 < max_batch
    → map (λ x. x.1) (lines batches ++ buffer) ≡ stream
    → All (λ b. (0 < length b) × (length b ≤ max_batch)) batches
    → length buffer ≤ max_batch
    → IsShipped max_batch stream
        (flush is_accepted (record { buffer = buffer; batches = batches; errors = errors }))
unfolding flush
flushed is_accepted n stream batches [] errors p same sizes le = record {
  same_lines = same;
  batch_sizes = sizes;
  buffer_size = p;
}
flushed is_accepted n stream batches (x ∷ xs) errors p same sizes le = record {
  same_lines =
      ap (map (λ y. y.1)) (
        append-nil (lines (batches ++ ((x ∷ xs) ∷ [])))
        ∙ lines_append batches ((x ∷ xs) ∷ [])
        ∙ ap (λ t. lines batches ++ t) (append-nil (x ∷ xs)))
      ∙ same;
  batch_sizes = All_append _ batches (x ∷ xs) sizes (omega arith, le);
  buffer_size = p;
}

flush-IsShipped :
    (is_accepted : List Stamped → Bool) (max_batch : ℕ) (stream : List ℕ) (s : Sink)
    → 0 < max_batch
    → IsShipped max_batch stream s
    → IsShipped max_batch stream (flush is_accepted s)
flush-IsShipped is_accepted n stream s p k =
    let small = k.buffer_size in
    flushed is_accepted n stream s.batches s.buffer s.errors p k.same_lines k.batch_sizes
      (omega (arith, small))

map_append :
    (xs : List Stamped) (y : Stamped)
    → map (λ x. x.1) (xs ++ (y ∷ [])) ≡ map (λ x. x.1) xs ++ (y.1 ∷ [])
map_append [] y = refl
map_append (x ∷ xs) y = ap (◌∷◌ x.1) (map_append xs y)

push-IsShipped :
    (is_accepted : List Stamped → Bool) (max_batch now line : ℕ) (stream : List ℕ) (s : Sink)
    → 0 < max_batch
    → IsShipped max_batch stream s
    → IsShipped max_batch (stream ++ (line ∷ [])) (push is_accepted max_batch now line s)
unfolding push
push-IsShipped is_accepted n now line stream s p k =
    let entry : Stamped = (now * 1000000, line) in
    let buffer = s.buffer ++ (entry ∷ []) in
    let grown = length_append s.buffer entry in
    let small = k.buffer_size in
    let same : map (λ x. x.1) (lines s.batches ++ buffer) ≡ stream ++ (line ∷ []) =
      ap (map (λ x. x.1)) (sym (append_assoc (lines s.batches) s.buffer (entry ∷ [])))
      ∙ map_append (lines s.batches ++ s.buffer) entry
      ∙ ap (λ t. t ++ (line ∷ [])) k.same_lines in
    elim (Bool-cases (leb n (length buffer))) [
      | inl t ↦ rw t (
          flushed is_accepted n (stream ++ (line ∷ [])) s.batches buffer s.errors p same
            k.batch_sizes (omega (arith, grown, small)))
      | inr f ↦
          rw f
            (record { same_lines = same; batch_sizes = k.batch_sizes; buffer_size = not_leb n _ f })
    ]

on_event-IsShipped :
    (is_accepted : List Stamped → Bool) (max_batch : ℕ) (log_level : Option Level) (e : LogEvent)
    (stream : List ℕ) (s : Sink)
    → 0 < max_batch
    → IsShipped max_batch stream s
    → let out = on_event is_accepted max_batch log_level e (stream, s) in
      IsShipped max_batch out.0 out.1
unfolding on_event write
on_event-IsShipped is_accepted n log_level ticks stream s p k =
    flush-IsShipped is_accepted n stream s p k
on_event-IsShipped is_accepted n log_level (logs level now line) stream s p k =
    elim (Bool-cases (ltb (levels level) (current_threshold log_level))) [
      | inl quiet ↦ rw quiet k
      | inr loud ↦ rw loud (push-IsShipped is_accepted n now line stream s p k)
    ]

-- However many lines are logged, at whatever levels, and however the timer fires in between: the batches
-- that were pushed and the buffer hold exactly the lines that went to the stream, once and in order,
-- whether pushes succeed or fail; no batch is empty or above the limit, and the buffer is below it.
pub run_logger-IsShipped :
    (is_accepted : List Stamped → Bool) (max_batch : ℕ) (log_level : Option Level)
    (es : List LogEvent) (stream : List ℕ) (s : Sink)
    → 0 < max_batch
    → IsShipped max_batch stream s
    → let out = run_logger is_accepted max_batch log_level es (stream, s) in
      IsShipped max_batch out.0 out.1
unfolding run_logger
run_logger-IsShipped is_accepted n log_level [] stream s p k = k
run_logger-IsShipped is_accepted n log_level (e ∷ es) stream s p k =
    run_logger-IsShipped is_accepted n log_level es _ _ p
      (on_event-IsShipped is_accepted n log_level e stream s p k)
