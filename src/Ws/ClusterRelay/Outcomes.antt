-- ===== src/Ws/ClusterRelay/Outcomes.antt =====
-- What a relayed call ends with.
use nodeva.Prelude.{ℕ, ◌≡◌, Bool, true, false, ◌==◌, Option, List, [], ◌∷◌, if◌then◌else◌}
use nodeva.Ws.Protocol.{Outcome}
use nodeva.Ws.ClusterRelay.{
  relayed_reply, RelayEffect, settles, RelayEvent, delivers, times_out, waits_for, Sent,
}

-- What the promise of a relayed call is settled with, in order; `none` is a plain `Error`.
unfoldable pub outcomes : ℕ → List RelayEffect → List (Option Outcome)
outcomes c [] = []
outcomes c (settles d o ∷ es) = let rest = outcomes c es in if d == c then o ∷ rest else rest
outcomes c (_ ∷ es) = outcomes c es

-- The two events that end a call: its reply and its timer.
abbrev pub is_end : ℕ → RelayEvent → Bool
is_end c (delivers own (relayed_reply d w)) = d == c
is_end c (times_out d) = d == c
is_end c _ = false

-- The call waits on, and its promise is not settled.
abbrev Waits : ℕ → Sent → Type 0
Waits c o = (outcomes c o.0 ≡ []) × (waits_for c o.1 ≡ true)
