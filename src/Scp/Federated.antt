-- ===== src/Scp/Federated.antt =====
-- Federated voting in scp/Slot.cpp, over the latest statement of each node. What the driver, the local
-- node and nomination tell the slot is given by a `Context`.
use essa_core.Prelude.{ℕ, Bool, true, false, ◌||◌, Option, none, some, List, if◌then◌else◌}
use essa_core.Scp.QuorumSet.{ScpQuorumSet}
use essa_core.Scp.LocalNode.{build_singleton_q_set, is_v_blocking_filtered, is_quorum}
use essa_core.Scp.Ballot.{Statement, Pledges, st_prepare, st_confirm, st_externalize}

pub data ValidationLevel : Type 0 where
  invalid_value maybe_valid_value fully_validated_value : ValidationLevel

pub record Context : Type 0 where
  pub node_id : ℕ
  pub quorum_set : ScpQuorumSet
  pub quorum_set_hash : ℕ
  -- SCPDriver::getQSet and SCPDriver::validateValue.
  pub get_q_set : ℕ → Option ScpQuorumSet
  pub validate_value : ℕ → ValidationLevel
  -- Slot::getLatestCompositeCandidate, 0 for none.
  pub composite_candidate : ℕ

abbrev pub Envelopes : Type 0
Envelopes = List (ℕ × Statement)

-- An externalized node stands for itself.
abbrev pub quorum_set_of_pledges : Context → ℕ → Pledges → Option ScpQuorumSet
quorum_set_of_pledges ctx node_id (st_prepare p) = ctx.get_q_set p.quorum_set_hash
quorum_set_of_pledges ctx node_id (st_confirm c) = ctx.get_q_set c.quorum_set_hash
quorum_set_of_pledges ctx node_id (st_externalize e) = some (build_singleton_q_set node_id)

unfoldable pub get_quorum_set_from_statement : Context → Statement → Option ScpQuorumSet
get_quorum_set_from_statement ctx st = quorum_set_of_pledges ctx st.node_id st.pledges

abbrev pub or_false : Option Bool → Bool
or_false none = false
or_false (some b) = b

-- isQuorum always ends (`is_quorum_exact`), so the default is never taken.
unfoldable pub federated_ratify : Context → (Statement → Bool) → Envelopes → Bool
federated_ratify ctx voted envs =
    or_false (is_quorum ctx.quorum_set envs (get_quorum_set_from_statement ctx) voted)

unfoldable pub federated_accept :
    Context → (Statement → Bool) → (Statement → Bool) → Envelopes → Bool
federated_accept ctx voted accepted envs =
    if is_v_blocking_filtered ctx.quorum_set envs accepted
    then true
    else federated_ratify ctx (λ st. accepted st || voted st) envs
