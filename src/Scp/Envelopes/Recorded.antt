-- ===== src/Scp/Envelopes/Recorded.antt =====
-- recordEnvelope, and what is found after it.
use essa_core.Prelude.{ℕ, ◌≡◌, arith, some, [], ◌∷◌, ◌==◌, if◌then◌else◌}
use essa_core.Scp.Ballot.{Statement}
use essa_core.Scp.Federated.{Envelopes}
use essa_core.Scp.Envelopes.{find_envelope, record_envelope}

-- After a statement is recorded it is found under its node, and every other node's is what it was.
pub find_envelope-record_envelope :
    (st : Statement) (envs : Envelopes) (id : ℕ)
    → find_envelope id (record_envelope st envs)
      ≡ (if id == st.node_id then some st else find_envelope id envs)
unfolding find_envelope record_envelope
find_envelope-record_envelope st [] id = ground arith
find_envelope-record_envelope st ((node, old) ∷ envs) id =
    ground (arith, find_envelope-record_envelope st envs id)
