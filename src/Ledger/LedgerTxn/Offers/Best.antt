-- ===== src/Ledger/LedgerTxn/Offers/Best.antt =====
-- The best offer of one transaction over its parent: LedgerTxn::Impl::getBestOffer of
-- src/ledger/LedgerTxn.cpp.
use essa_core.Prelude.{
  ℕ, ◌≡◌, refl, Bool, true, false, not, ◌&&◌, arith, Option, none, some, List, if◌then◌else◌,
  Bool-cases, inl, inr, ◌⊎◌,
}
use essa_core.Ledger.Entry.{Asset}
use essa_core.Ledger.LedgerKey.{LedgerKey, Entry, is_offer_key}
use essa_core.Ledger.LedgerTxn.{Newest}
use essa_core.Ledger.LedgerTxn.Offers.{is_better_offer, better_of, take_better, traded, excluded}

-- What a map of entries has on offer under a key: nothing under one that is excluded.
unfoldable pub candidate : Asset → Asset → List LedgerKey → Newest → LedgerKey → Option Entry
candidate buying selling exclude f key =
    if is_offer_key key && not (excluded key exclude) then traded buying selling (f key) else none

-- No offer, or one that is not better than the first.
unfoldable pub no_worse : (ℕ → ℕ → ℕ) → Option Entry → Option Entry → Bool
no_worse quotient best none = true
no_worse quotient none (some e) = false
no_worse quotient (some b) (some e) = not (is_better_offer quotient e b)

better_chain :
    (quotient : ℕ → ℕ → ℕ) (a b c : Entry)
    → is_better_offer quotient b a ≡ false
    → is_better_offer quotient c b ≡ false
    → is_better_offer quotient c a ≡ false
unfolding is_better_offer
better_chain quotient a b c h g = ground (arith, h, g)

pub no_worse_trans :
    (quotient : ℕ → ℕ → ℕ) (a b c : Option Entry)
    → no_worse quotient a b ≡ true
    → no_worse quotient b c ≡ true
    → no_worse quotient a c ≡ true
unfolding no_worse
no_worse_trans quotient a b none h g = refl
no_worse_trans quotient none none (some c) h g = g
no_worse_trans quotient (some a) none (some c) h g = absurd (ground (arith, g))
no_worse_trans quotient none (some b) (some c) h g = h
no_worse_trans quotient (some a) (some b) (some c) h g =
    ground (arith, h, g, better_chain quotient a b c)

better_irreflexive : (quotient : ℕ → ℕ → ℕ) (a : Entry) → is_better_offer quotient a a ≡ false
unfolding is_better_offer
better_irreflexive quotient a = ground arith

better_asymmetric :
    (quotient : ℕ → ℕ → ℕ) (a b : Entry)
    → is_better_offer quotient a b ≡ true
    → is_better_offer quotient b a ≡ false
unfolding is_better_offer
better_asymmetric quotient a b h = ground (arith, h)

pub no_worse_refl : (quotient : ℕ → ℕ → ℕ) (a : Option Entry) → no_worse quotient a a ≡ true
unfolding no_worse
no_worse_refl quotient none = refl
no_worse_refl quotient (some a) = ground (arith, better_irreflexive quotient a)

pub take_better-no_worse :
    (quotient : ℕ → ℕ → ℕ) (o best : Option Entry)
    → (no_worse quotient (take_better quotient o best) o ≡ true)
      × (no_worse quotient (take_better quotient o best) best ≡ true)
unfolding no_worse take_better
take_better-no_worse quotient none best = (refl, no_worse_refl quotient best)
take_better-no_worse quotient (some o) none = (ground (arith, better_irreflexive quotient o), refl)
take_better-no_worse quotient (some o) (some b) = ground (
  arith,
  better_irreflexive quotient o,
  better_irreflexive quotient b,
  better_asymmetric quotient o b,
)

pub take_better-one :
    (quotient : ℕ → ℕ → ℕ) (o best : Option Entry)
    → (take_better quotient o best ≡ best) ⊎ (take_better quotient o best ≡ o)
unfolding take_better
take_better-one quotient none best = inl refl
take_better-one quotient (some o) none = inr refl
take_better-one quotient (some o) (some b) = elim (Bool-cases (is_better_offer quotient o b)) [
  | inl e ↦ inr (rw e refl)
  | inr e ↦ inl (rw e refl)
]

pub better_of-no_worse :
    (quotient : ℕ → ℕ → ℕ) (a b : Option Entry)
    → (no_worse quotient (better_of quotient a b) a ≡ true)
      × (no_worse quotient (better_of quotient a b) b ≡ true)
unfolding no_worse better_of
better_of-no_worse quotient none b = (refl, no_worse_refl quotient b)
better_of-no_worse quotient (some a) none = (ground (arith, better_irreflexive quotient a), refl)
better_of-no_worse quotient (some a) (some b) = ground (
  arith,
  better_irreflexive quotient a,
  better_irreflexive quotient b,
  better_asymmetric quotient a b,
)

pub better_of-one :
    (quotient : ℕ → ℕ → ℕ) (a b : Option Entry)
    → (better_of quotient a b ≡ a) ⊎ (better_of quotient a b ≡ b)
unfolding better_of
better_of-one quotient none b = inr refl
better_of-one quotient (some a) none = inl refl
better_of-one quotient (some a) (some b) = elim (Bool-cases (is_better_offer quotient a b)) [
  | inl e ↦ inl (rw e refl)
  | inr e ↦ inr (rw e refl)
]
