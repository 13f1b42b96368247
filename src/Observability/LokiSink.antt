-- ===== src/Observability/LokiSink.antt =====
-- backend/src/observability/lokiSink.js, and the threshold of logger.js that stands before it. A line is
-- a number; what becomes of a push over HTTP is a function of the batch.
pub mod Batches
use nodeva.Prelude.{
  ℕ, ◌+◌, ◌*◌, Bool, true, false, ltb, leb, Option, none, some, List, [], ◌∷◌, ◌++◌, length,
  if◌then◌else◌,
}

-- Epoch nanoseconds and the line.
abbrev pub Stamped : Type 0
Stamped = ℕ × ℕ

-- `batches` are the requests that were made, oldest first, and `errors` the calls of `onError`.
pub record Sink : Type 0 where
  pub buffer : List Stamped
  pub batches : List (List Stamped)
  pub errors : ℕ

abbrev pub empty_sink : Sink
empty_sink = record { buffer = []; batches = []; errors = 0 }

abbrev failed_pushes : Bool → ℕ
failed_pushes true = 0
failed_pushes false = 1

module _ (is_accepted : List Stamped → Bool) where
  -- `flush`
  unfoldable pub flush : Sink → Sink
  flush s = elim s.buffer [
    | [] ↦ s
    | x ∷ xs ↦ record {
      buffer = [];
      batches = s.batches ++ (s.buffer ∷ []);
      errors = s.errors + failed_pushes (is_accepted s.buffer);
    }
  ]

  -- `push`
  unfoldable pub push : ℕ → ℕ → ℕ → Sink → Sink
  unfolding flush
  push max_batch now line s =
      let s' = record s { buffer = s.buffer ++ ((now * 1000000, line) ∷ []) } in
      if leb max_batch (length s'.buffer) then flush s' else s'

pub data Level : Type 0 where
  debug info warn error : Level

-- `LEVELS`
abbrev pub levels : Level → ℕ
levels debug = 10
levels info = 20
levels warn = 30
levels error = 40

-- `currentThreshold`: the level that the environment names, if it names one.
abbrev pub current_threshold : Option Level → ℕ
current_threshold none = levels info
current_threshold (some l) = levels l

-- `write`: the line goes to the stream, and to the sink.
unfoldable pub write :
    (List Stamped → Bool) → ℕ → Option Level → Level → ℕ → ℕ → List ℕ × Sink → List ℕ × Sink
unfolding push
write is_accepted max_batch log_level level now line (stream, s) =
    if ltb (levels level) (current_threshold log_level)
    then (stream, s)
    else (stream ++ (line ∷ []), push is_accepted max_batch now line s)

-- What happens to a logger with a sink: a line is logged, or the timer fires.
pub data LogEvent : Type 0 where
  logs : Level → ℕ → ℕ → LogEvent
  ticks : LogEvent

unfoldable pub on_event :
    (List Stamped → Bool) → ℕ → Option Level → LogEvent → List ℕ × Sink → List ℕ × Sink
unfolding write
on_event is_accepted max_batch log_level (logs level now line) s =
    write is_accepted max_batch log_level level now line s
on_event is_accepted max_batch log_level ticks (stream, s) = (stream, flush is_accepted s)

unfoldable pub run_logger :
    (List Stamped → Bool) → ℕ → Option Level → List LogEvent → List ℕ × Sink → List ℕ × Sink
unfolding on_event
run_logger is_accepted max_batch log_level [] s = s
run_logger is_accepted max_batch log_level (e ∷ es) s =
    run_logger is_accepted max_batch log_level es (on_event is_accepted max_batch log_level e s)
