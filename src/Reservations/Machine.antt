-- ===== src/Reservations/Machine.antt =====
-- backend/src/reservations/machine.js: the lifecycle as an explicit edge list, and what each
-- terminal state means for the user's money.
pub mod Graph
use nodeva.Prelude.{
  ℕ, ◌==◌, Bool, true, false, ◌||◌, Option, none, some, List, [], ◌∷◌, any, if◌then◌else◌, ◌≡◌, ◌↔◌,
  ◌⊎◌, inl, inr, refl, arith,
}

-- `S`
pub data Status : Type 0 where
  pending held confirmed running completed cancelled expired failed_provider failed_user disputed :
      Status

-- A number for each state, to compare them by.
abbrev pub rank_of : Status → ℕ
rank_of pending = 0
rank_of held = 1
rank_of confirmed = 2
rank_of running = 3
rank_of completed = 4
rank_of cancelled = 5
rank_of expired = 6
rank_of failed_provider = 7
rank_of failed_user = 8
rank_of disputed = 9

-- `a === b` on states.
infix 50 ◌=ₛ◌
abbrev pub ◌=ₛ◌ : Status → Status → Bool
a =ₛ b = rank_of a == rank_of b

-- `EDGES`
unfoldable pub edges : Status → List Status
edges pending = held ∷ expired ∷ cancelled ∷ []
edges held = confirmed ∷ expired ∷ cancelled ∷ []
edges confirmed = running ∷ cancelled ∷ failed_provider ∷ []
edges running = completed ∷ failed_provider ∷ failed_user ∷ disputed ∷ []
edges completed = []
edges cancelled = []
edges expired = []
edges failed_provider = []
edges failed_user = []
edges disputed = []

abbrev none_left : List Status → Bool
none_left [] = true
none_left (_ ∷ _) = false

-- `TERMINAL.has(s)`
unfoldable pub terminal : Status → Bool
unfolding edges
terminal s = none_left (edges s)

-- `canTransition`
unfoldable pub can_transition : Status → Status → Bool
unfolding edges
can_transition from to = any (λ s. s =ₛ to) (edges from)

pub data Thrown : Type 0 where
  illegal_transition : Status → Status → Thrown

-- `assertTransition`: the target, or the error that it throws.
unfoldable pub assert_transition : Status → Status → Status ⊎ Thrown
unfolding can_transition
assert_transition from to =
    if can_transition from to then inl to else inr (illegal_transition from to)

pub data Rule : Type 0 where
  settle_full settle_metered refund_full refund_per_policy : Rule

-- `SETTLEMENT`, whose missing keys are undefined.
unfoldable pub settlement : Status → Option Rule
settlement completed = some settle_full
settlement failed_user = some settle_metered
settlement failed_provider = some refund_full
settlement expired = some refund_full
settlement cancelled = some refund_per_policy
settlement disputed = some refund_full
settlement _ = none

pub Status-discrete : Discrete Status
Status-discrete = hlevel
