-- ===== src/Scp/BallotState/Advances.antt =====
-- How a slot of scp/BallotProtocol.cpp can go on.
use essa_core.Prelude.{ℕ, ◌≤◌, ◌≡◌, ◌⊎◌, inl, inr, refl, sym, ◌∙◌, Bool, true, false, some, arith}
use essa_core.Prelude.Result.{ok_injective, ok}
use essa_core.Scp.Ballot.{Statement, is_newer_statement}
use essa_core.Scp.Ballot.Newer.{is_newer_statement-order}
use essa_core.Scp.Federated.{Envelopes}
use essa_core.Scp.Envelopes.{find_envelope}
use essa_core.Scp.BallotState.{
  Phase, phase_prepare, phase_confirm, phase_externalize, is_externalize, BallotProtocol,
  counter_of,
}
use mathlib.Core.Path.{subst}

unfoldable pub rank : Phase → ℕ
rank phase_prepare = 0
rank phase_confirm = 1
rank phase_externalize = 2

-- The same statement of the node, or a newer one.
pub record HasNewer (old : Statement) (envs : Envelopes) (id : ℕ) : Type 0 where
  pub new : Statement
  pub found : find_envelope id envs ≡ some new
  pub newer : (new ≡ old) ⊎ (is_newer_statement old.pledges new.pledges ≡ true)

abbrev pub Newer : Envelopes → Envelopes → Type 0
Newer envs envs' =
    (id : ℕ) (old : Statement) → find_envelope id envs ≡ some old → HasNewer old envs' id

-- Within a phase the counter of the current ballot does not go down.
abbrev pub Raises : BallotProtocol → BallotProtocol → Type 0
Raises s s' =
    rank s'.phase ≤ rank s.phase → counter_of s.current_ballot ≤ counter_of s'.current_ballot

-- The phase never goes back, within it the counter does not either, the statements of each node only get newer, an externalized ballot
-- stays, and the level of recursion is what it was.
pub record Advances (s s' : BallotProtocol) : Type 0 where
  pub phase : rank s.phase ≤ rank s'.phase
  pub level : s'.message_level ≡ s.message_level
  pub commit : is_externalize s.phase ≡ true → s'.commit ≡ s.commit
  pub high : is_externalize s.phase ≡ true → s'.high_ballot ≡ s.high_ballot
  pub newer : Newer s.latest_envelopes s'.latest_envelopes
  pub counter : Raises s s'

pub Newer-refl : (envs : Envelopes) → Newer envs envs
Newer-refl envs id old h = record { new = old; found = h; newer = inl refl }

newer_of :
    (a b c : Statement)
    → (b ≡ a) ⊎ (is_newer_statement a.pledges b.pledges ≡ true)
    → (c ≡ b) ⊎ (is_newer_statement b.pledges c.pledges ≡ true)
    → (c ≡ a) ⊎ (is_newer_statement a.pledges c.pledges ≡ true)
newer_of a b c (inl p) (inl q) = inl (q ∙ p)
newer_of a b c (inl p) (inr q) = inr (rw (sym p) q)
newer_of a b c (inr p) (inl q) = inr (rw q p)
newer_of a b c (inr p) (inr q) =
    inr ((is_newer_statement-order a.pledges b.pledges c.pledges).2 p q)

pub Newer-trans : (a b c : Envelopes) → Newer a b → Newer b c → Newer a c
Newer-trans _ _ _ f g id old h =
    let m = f id old h in
    let n = g id m.new m.found in
    record { new = n.new; found = n.found; newer = newer_of old m.new n.new m.newer n.newer }

externalize_stays :
    (p q : Phase) → rank p ≤ rank q → is_externalize p ≡ true → is_externalize q ≡ true
unfolding rank
externalize_stays p phase_externalize h e = refl
externalize_stays phase_externalize phase_prepare h e = ground (arith, h)
externalize_stays phase_externalize phase_confirm h e = ground (arith, h)
externalize_stays phase_prepare phase_prepare h e = e
externalize_stays phase_prepare phase_confirm h e = e
externalize_stays phase_confirm phase_prepare h e = e
externalize_stays phase_confirm phase_confirm h e = e

pub Advances-refl : (s : BallotProtocol) → Advances s s
Advances-refl s = record {
  phase = omega arith;
  level = refl;
  commit = λ _. refl;
  high = λ _. refl;
  newer = Newer-refl s.latest_envelopes;
  counter = λ _. omega arith;
}

-- Only fields that it does not speak of are other.
pub Advances-same :
    (s t : BallotProtocol)
    → t.phase ≡ s.phase
    → t.message_level ≡ s.message_level
    → t.commit ≡ s.commit
    → t.high_ballot ≡ s.high_ballot
    → t.latest_envelopes ≡ s.latest_envelopes
    → t.current_ballot ≡ s.current_ballot
    → Advances s t
Advances-same s t p l c h e b = record {
  phase = subst (λ q. rank s.phase ≤ rank q) (sym p) (omega arith);
  level = l;
  commit = λ _. c;
  high = λ _. h;
  newer = subst (Newer s.latest_envelopes) (sym e) (Newer-refl s.latest_envelopes);
  counter = λ _. subst (λ o. counter_of s.current_ballot ≤ counter_of o) (sym b) (omega arith);
}

-- The state that is returned with a flag.
pub returned :
    {s t : BallotProtocol} {b : Bool} {x : Bool × BallotProtocol}
    → Advances s t
    → ok (b, t) ≡ ok x
    → Advances s x.1
returned {s = s} f q = subst (λ r. Advances s r.1) (ok_injective q) f

abbrev pub After : BallotProtocol → Bool × BallotProtocol → Type 0
After s x = Advances s x.1

-- Nothing done.
pub idle : (s : BallotProtocol) (x : Bool × BallotProtocol) → ok (false, s) ≡ ok x → After s x
idle s x = returned (Advances-refl s)

pub Raises-trans :
    (a b c : BallotProtocol)
    → rank a.phase ≤ rank b.phase
    → rank b.phase ≤ rank c.phase
    → Raises a b
    → Raises b c
    → Raises a c
Raises-trans a b c p q f g = λ h.
    let low = f (omega (arith, h, q)) in
    let high = g (omega (arith, h, p)) in omega (arith, low, high)

pub Advances-trans : (a b c : BallotProtocol) → Advances a b → Advances b c → Advances a c
Advances-trans a b c f g = record {
  phase = omega (arith, f.phase, g.phase);
  level = g.level ∙ f.level;
  commit = λ e. g.commit (externalize_stays a.phase b.phase f.phase e) ∙ f.commit e;
  high = λ e. g.high (externalize_stays a.phase b.phase f.phase e) ∙ f.high e;
  newer = Newer-trans _ _ _ f.newer g.newer;
  counter = Raises-trans a b c f.phase g.phase f.counter g.counter;
}
