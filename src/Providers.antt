-- ===== src/Providers.antt =====
-- backend/src/providers/reputation.js, and `bumpReputation` and `providerIdForNode` of
-- backend/src/api/server.js.
use nodeva.Prelude.{ℕ, ◌+◌, ◌==◌, Option, none, some, List, update_rows}
use nodeva.Reservations.Machine.{Status, completed, failed_user, failed_provider}
use nodeva.Store.{Store, Provider, find_node}

pub data Effect : Type 0 where
  success failure : Effect

-- `reputationEffect`
unfoldable pub reputation_effect : Status → Option Effect
reputation_effect completed = some success
reputation_effect failed_user = some success
reputation_effect failed_provider = some failure
reputation_effect _ = none

abbrev pub failures : Effect → ℕ
failures success = 0
failures failure = 1

abbrev pub add_job : Effect → Provider → Provider
add_job e p = record p {
  rep_jobs_total = p.rep_jobs_total + 1;
  rep_jobs_failed = p.rep_jobs_failed + failures e;
}

-- `bumpReputation`
unfoldable pub bump_reputation : ℕ → Option Effect → List Provider → List Provider
bump_reputation provider_id none rows = rows
bump_reputation provider_id (some e) rows =
    update_rows (λ p. p.provider_id == provider_id) (add_job e) rows

-- `providerIdForNode`
unfoldable pub provider_id_for_node : ℕ → Store → Option ℕ
provider_id_for_node node_id db = elim (find_node node_id db) [
  | none ↦ none
  | some n ↦ some n.provider_id
]
