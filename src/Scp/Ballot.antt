-- ===== src/Scp/Ballot.antt =====
-- Ballots and the statements of the ballot protocol: xdr/EssaBlockChain-SCP.x and the static
-- functions of scp/BallotProtocol.cpp. A value is opaque bytes, of which the order and the emptiness
-- are used: a number here, 0 for the empty one. A hash is a number too. The slot's index, the same
-- in all statements of a slot, is left out, and so are signatures.
pub mod Order
pub mod Newer
use Prim.Native.Nat.Ordering.{lt, eq, gt}
use Prim.Native.Nat.{Ordering}
use essa_core.Prelude.{
  ℕ, ◌+◌, ◌-◌, ◌^◌, Bool, true, false, not, ◌&&◌, ◌||◌, Option, none, some, ltb, leb, ◌==◌,
  if◌then◌else◌,
}

pub record ScpBallot : Type 0 where
  pub counter : ℕ
  pub value : ℕ

pub record Prepare : Type 0 where
  pub quorum_set_hash : ℕ
  pub ballot : ScpBallot
  pub prepared : Option ScpBallot
  pub prepared_prime : Option ScpBallot
  pub n_c : ℕ
  pub n_h : ℕ

pub record Confirm : Type 0 where
  pub ballot : ScpBallot
  pub n_prepared : ℕ
  pub n_commit : ℕ
  pub n_h : ℕ
  pub quorum_set_hash : ℕ

pub record Externalize : Type 0 where
  pub commit : ScpBallot
  pub n_h : ℕ
  pub commit_quorum_set_hash : ℕ

pub data Pledges : Type 0 where
  st_prepare : Prepare → Pledges
  st_confirm : Confirm → Pledges
  st_externalize : Externalize → Pledges

pub record Statement : Type 0 where
  pub node_id : ℕ
  pub pledges : Pledges

abbrev pub uint32_max : ℕ
uint32_max = 2 ^ 32 - 1

-- `lt`, `eq` and `gt` for -1, 0 and 1.
unfoldable pub compare_ballots : ScpBallot → ScpBallot → Ordering
compare_ballots b1 b2 =
    if ltb b1.counter b2.counter
    then lt
    else (if ltb b2.counter b1.counter
        then gt
        else (if ltb b1.value b2.value then lt else (if ltb b2.value b1.value then gt else eq)))

unfoldable pub compare_pointers : Option ScpBallot → Option ScpBallot → Ordering
compare_pointers none none = eq
compare_pointers none (some b2) = lt
compare_pointers (some b1) none = gt
compare_pointers (some b1) (some b2) = compare_ballots b1 b2

-- The result is < 0, or <= 0.
abbrev pub is_below : Ordering → Bool
is_below lt = true
is_below eq = false
is_below gt = false

abbrev pub is_at_most : Ordering → Bool
is_at_most lt = true
is_at_most eq = true
is_at_most gt = false

abbrev pub is_same : Ordering → Bool
is_same lt = false
is_same eq = true
is_same gt = false

unfoldable pub are_ballots_compatible : ScpBallot → ScpBallot → Bool
are_ballots_compatible b1 b2 = b1.value == b2.value

unfoldable pub are_ballots_less_and_incompatible : ScpBallot → ScpBallot → Bool
are_ballots_less_and_incompatible b1 b2 =
    is_at_most (compare_ballots b1 b2) && not (are_ballots_compatible b1 b2)

unfoldable pub are_ballots_less_and_compatible : ScpBallot → ScpBallot → Bool
are_ballots_less_and_compatible b1 b2 =
    is_at_most (compare_ballots b1 b2) && are_ballots_compatible b1 b2

-- The next field decides where this one is equal.
abbrev pub then_by : Ordering → Bool → Bool
then_by lt rest = true
then_by eq rest = rest
then_by gt rest = false

unfoldable pub newer_confirm : Confirm → Confirm → Bool
newer_confirm old c =
    then_by (compare_ballots old.ballot c.ballot) (
      if old.n_prepared == c.n_prepared then ltb old.n_h c.n_h else ltb old.n_prepared c.n_prepared)

unfoldable pub newer_prepare : Prepare → Prepare → Bool
newer_prepare old p = then_by (compare_ballots old.ballot p.ballot) (
    then_by (compare_pointers old.prepared p.prepared)
      (then_by (compare_pointers old.prepared_prime p.prepared_prime) (ltb old.n_h p.n_h)))

-- isNewerStatement on two statements: by type, then by the fields of the type.
unfoldable pub is_newer_statement : Pledges → Pledges → Bool
is_newer_statement (st_prepare old) (st_prepare p) = newer_prepare old p
is_newer_statement (st_prepare old) (st_confirm c) = true
is_newer_statement (st_prepare old) (st_externalize e) = true
is_newer_statement (st_confirm old) (st_prepare p) = false
is_newer_statement (st_confirm old) (st_confirm c) = newer_confirm old c
is_newer_statement (st_confirm old) (st_externalize e) = true
is_newer_statement (st_externalize old) (st_prepare p) = false
is_newer_statement (st_externalize old) (st_confirm c) = false
is_newer_statement (st_externalize old) (st_externalize e) = false

unfoldable pub get_working_ballot : Pledges → ScpBallot
get_working_ballot (st_prepare p) = p.ballot
get_working_ballot (st_confirm c) = record { counter = c.n_commit; value = c.ballot.value }
get_working_ballot (st_externalize e) = e.commit

unfoldable pub companion_hash : Pledges → ℕ
companion_hash (st_prepare p) = p.quorum_set_hash
companion_hash (st_confirm c) = c.quorum_set_hash
companion_hash (st_externalize e) = e.commit_quorum_set_hash

unfoldable pub statement_ballot_counter : Pledges → ℕ
statement_ballot_counter (st_prepare p) = p.ballot.counter
statement_ballot_counter (st_confirm c) = c.ballot.counter
statement_ballot_counter (st_externalize e) = uint32_max

abbrev pub covers : ScpBallot → Option ScpBallot → Bool
covers ballot none = false
covers ballot (some p) = are_ballots_less_and_compatible ballot p

-- Whether the statement claims that the ballot is prepared.
unfoldable pub has_prepared_ballot : ScpBallot → Pledges → Bool
has_prepared_ballot ballot (st_prepare p) =
    covers ballot p.prepared || covers ballot p.prepared_prime
has_prepared_ballot ballot (st_confirm c) =
    are_ballots_less_and_compatible ballot
      (record { counter = c.n_prepared; value = c.ballot.value })
has_prepared_ballot ballot (st_externalize e) = are_ballots_compatible ballot e.commit

-- The pledges' part of isStatementSane.
unfoldable pub are_pledges_sane : Pledges → Bool → Bool
are_pledges_sane (st_prepare p) self =
    (self || ltb 0 p.ballot.counter)
    && elim p.prepared_prime [
      | none ↦ true
      | some prime ↦ elim p.prepared [
        | none ↦ true
        | some prepared ↦ are_ballots_less_and_incompatible prime prepared
      ]
    ]
    && (p.n_h == 0 || elim p.prepared [ none ↦ false | some prepared ↦ leb p.n_h prepared.counter ])
    && (p.n_c == 0 || (not (p.n_h == 0) && leb p.n_h p.ballot.counter && leb p.n_c p.n_h))
are_pledges_sane (st_confirm c) self =
    ltb 0 c.ballot.counter && leb c.n_h c.ballot.counter && leb c.n_commit c.n_h
are_pledges_sane (st_externalize e) self = ltb 0 e.commit.counter && leb e.commit.counter e.n_h
