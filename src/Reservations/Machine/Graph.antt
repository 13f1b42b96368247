-- ===== src/Reservations/Machine/Graph.antt =====
-- The edge list of machine.js as a graph: what a lifecycle can and cannot do.
use nodeva.Prelude.{ℕ, ◌+◌, ◌≤◌, suc, true, false, none, some, ◌≡◌, ◌≢◌, ◌↔◌, ◌⊎◌, refl, arith}
use nodeva.Reservations.Machine.{
  Status, pending, held, confirmed, running, completed, cancelled, expired, failed_provider,
  failed_user, disputed, terminal, can_transition, settlement, settle_full, settle_metered,
}

-- The diagram of the lifecycle.
infix 40 ◌⟶◌
pub data ◌⟶◌ : Status → Status → Type 0 where
  hold : pending ⟶ held
  capture : held ⟶ confirmed
  start : confirmed ⟶ running
  give_up : pending ⟶ expired
  lapse : held ⟶ expired
  drop : pending ⟶ cancelled
  cancel_held : held ⟶ cancelled
  cancel_paid : confirmed ⟶ cancelled
  lose : confirmed ⟶ failed_provider
  finish : running ⟶ completed
  vanish : running ⟶ failed_provider
  crash : running ⟶ failed_user
  dispute : running ⟶ disputed

pub ruleset diagram = (
  hold, capture, start, give_up, lapse, drop, cancel_held, cancel_paid, lose, finish, vanish, crash,
  dispute,
)

pub ⟶-allowed : {a b : Status} → a ⟶ b → can_transition a b ≡ true
unfolding can_transition
⟶-allowed hold = refl
⟶-allowed capture = refl
⟶-allowed start = refl
⟶-allowed give_up = refl
⟶-allowed lapse = refl
⟶-allowed drop = refl
⟶-allowed cancel_held = refl
⟶-allowed cancel_paid = refl
⟶-allowed lose = refl
⟶-allowed finish = refl
⟶-allowed vanish = refl
⟶-allowed crash = refl
⟶-allowed dispute = refl

pub allowed-⟶ : (a b : Status) → can_transition a b ≡ true → a ⟶ b
unfolding can_transition
allowed-⟶ a b h = grind (arith, diagram)

-- A transition is legal exactly when the diagram has that edge.
pub can_transition_iff : (a b : Status) → (can_transition a b ≡ true) ↔ (a ⟶ b)
can_transition_iff a b = (allowed-⟶ a b, ⟶-allowed)

-- Runs of the machine, with the number of steps.
pub data Run (a : Status) : ℕ → Status → Type 0 where
  here : Run a 0 a
  step : {n : ℕ} {b c : Status} → Run a n b → b ⟶ c → Run a (suc n) c

-- How many steps a state may still take, at most.
abbrev pub steps_left : Status → ℕ
steps_left pending = 4
steps_left held = 3
steps_left confirmed = 2
steps_left running = 1
steps_left _ = 0

⟶-steps_left : {a b : Status} → a ⟶ b → steps_left b + 1 ≤ steps_left a
⟶-steps_left hold = omega arith
⟶-steps_left capture = omega arith
⟶-steps_left start = omega arith
⟶-steps_left give_up = omega arith
⟶-steps_left lapse = omega arith
⟶-steps_left drop = omega arith
⟶-steps_left cancel_held = omega arith
⟶-steps_left cancel_paid = omega arith
⟶-steps_left lose = omega arith
⟶-steps_left finish = omega arith
⟶-steps_left vanish = omega arith
⟶-steps_left crash = omega arith
⟶-steps_left dispute = omega arith

Run-steps_left : {a b : Status} {n : ℕ} → Run a n b → steps_left b + n ≤ steps_left a
Run-steps_left here = omega arith
Run-steps_left (step r e) = omega (arith, Run-steps_left r, ⟶-steps_left e)

steps_left-le : (a : Status) → steps_left a ≤ 4
steps_left-le pending = omega arith
steps_left-le held = omega arith
steps_left-le confirmed = omega arith
steps_left-le running = omega arith
steps_left-le _ = omega arith

-- Every run of the lifecycle, from whatever state, takes at most four transitions.
pub Run-bounded : {a b : Status} {n : ℕ} → Run a n b → n ≤ 4
Run-bounded {a} r = omega (arith, Run-steps_left r, steps_left-le a)

-- A rule for the money is recorded for the terminal states and for no other.
pub settlement-terminal : (s : Status) → (terminal s ≡ true) ↔ (settlement s ≢ none)
unfolding terminal settlement
settlement-terminal s = ground arith

-- The states in which the user's money has been captured, or was before the run ended.
pub data Passed (a : Status) : Status → Type 0 where
  at : Passed a a
  later : {b c : Status} → Passed a b → b ⟶ c → Passed a c

abbrev Paid : Status → Type 0
Paid pending = Unit
Paid held = Unit
Paid expired = Unit
Paid cancelled = Unit
Paid s = Passed confirmed s

Run-Paid : {n : ℕ} {s : Status} → Run pending n s → Paid s
Run-Paid here = tt
Run-Paid (step r hold) = tt
Run-Paid (step r capture) = at
Run-Paid (step r start) = later (Run-Paid r) start
Run-Paid (step r give_up) = tt
Run-Paid (step r lapse) = tt
Run-Paid (step r drop) = tt
Run-Paid (step r cancel_held) = tt
Run-Paid (step r cancel_paid) = tt
Run-Paid (step r lose) = later (Run-Paid r) lose
Run-Paid (step r finish) = later (Run-Paid r) finish
Run-Paid (step r vanish) = later (Run-Paid r) vanish
Run-Paid (step r crash) = later (Run-Paid r) crash
Run-Paid (step r dispute) = later (Run-Paid r) dispute

-- A state that bills the user, in full or by the meter, is reached from `pending` only through
-- `confirmed`, in which the money has been captured.
pub billed-Passed :
    {n : ℕ} {s : Status}
    → Run pending n s
    → (settlement s ≡ some settle_full) ⊎ (settlement s ≡ some settle_metered)
    → Passed confirmed s
unfolding settlement
billed-Passed {s = completed} r h = Run-Paid r
billed-Passed {s = failed_user} r h = Run-Paid r
billed-Passed {s = pending} r h = ground arith
billed-Passed {s = _} r h = ground arith

⟶-source : {a b : Status} → a ⟶ b → terminal a ≡ false
unfolding terminal
⟶-source e = ground (arith, ⟶-steps_left e)

-- No transition leaves a terminal state: a run from one has no steps and ends where it began.
pub terminal_final : {a b : Status} {n : ℕ} → terminal a ≡ true → Run a n b → (n ≡ 0) × (b ≡ a)
unfolding terminal
terminal_final h here = (refl, refl)
terminal_final h (step r e) = ground (arith, terminal_final h r, ⟶-source e)

pub terminal-can_transition : (a b : Status) → terminal a ≡ true → can_transition a b ≡ false
unfolding terminal can_transition
terminal-can_transition a b h = ground arith
