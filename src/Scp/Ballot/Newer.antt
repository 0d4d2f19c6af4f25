-- ===== src/Scp/Ballot/Newer.antt =====
-- isNewerStatement as an order on the statements of a node.
use Prim.Native.Nat.Ordering.{lt, eq, gt}
use Prim.Native.Nat.{Ordering}
use essa_core.Prelude.{◌≡◌, refl, Bool, true, false, arith}
use essa_core.Scp.Ballot.{
  Prepare, Confirm, Pledges, st_prepare, st_confirm, st_externalize, then_by, newer_prepare,
  newer_confirm, is_newer_statement,
}
use essa_core.Scp.Ballot.Order.{
  Composes, compare_ballots-Composes, compare_pointers-Composes, compare_ballots_self,
  compare_pointers_self,
}

then_by_trans :
    (o12 o23 o13 : Ordering) (r12 r23 r13 : Bool)
    → Composes o12 o23 o13
    → (r12 ≡ true → r23 ≡ true → r13 ≡ true)
    → then_by o12 r12 ≡ true
    → then_by o23 r23 ≡ true
    → then_by o13 r13 ≡ true
then_by_trans lt lt o13 r12 r23 r13 c k h h' = rw (c.below refl refl) refl
then_by_trans lt eq o13 r12 r23 r13 c k h h' = rw (c.below_same refl refl) refl
then_by_trans lt gt o13 r12 r23 r13 c k h h' = cc
then_by_trans eq lt o13 r12 r23 r13 c k h h' = rw (c.same_below refl refl) refl
then_by_trans eq eq o13 r12 r23 r13 c k h h' = rw (c.same refl refl) (k h h')
then_by_trans eq gt o13 r12 r23 r13 c k h h' = cc
then_by_trans gt o23 o13 r12 r23 r13 c k h h' = cc

newer_prepare_trans :
    (a b c : Prepare)
    → newer_prepare a b ≡ true
    → newer_prepare b c ≡ true
    → newer_prepare a c ≡ true
unfolding newer_prepare
newer_prepare_trans a b c =
    then_by_trans _ _ _ _ _ _ (compare_ballots-Composes a.ballot b.ballot c.ballot) (
      then_by_trans _ _ _ _ _ _ (compare_pointers-Composes a.prepared b.prepared c.prepared) (
        then_by_trans _ _ _ _ _ _
          (compare_pointers-Composes a.prepared_prime b.prepared_prime c.prepared_prime)
          (λ h k. ground arith)))

newer_confirm_trans :
    (a b c : Confirm)
    → newer_confirm a b ≡ true
    → newer_confirm b c ≡ true
    → newer_confirm a c ≡ true
unfolding newer_confirm
newer_confirm_trans a b c =
    then_by_trans _ _ _ _ _ _ (compare_ballots-Composes a.ballot b.ballot c.ballot)
      (λ h k. ground arith)

newer_trans :
    (a b c : Pledges)
    → is_newer_statement a b ≡ true
    → is_newer_statement b c ≡ true
    → is_newer_statement a c ≡ true
unfolding is_newer_statement
newer_trans (st_prepare a) (st_prepare b) (st_prepare c) h k = newer_prepare_trans a b c h k
newer_trans (st_prepare a) b (st_confirm c) h k = refl
newer_trans (st_prepare a) b (st_externalize c) h k = refl
newer_trans (st_prepare a) (st_confirm b) (st_prepare c) h k = cc
newer_trans (st_prepare a) (st_externalize b) (st_prepare c) h k = cc
newer_trans (st_confirm a) (st_prepare b) c h k = cc
newer_trans (st_confirm a) (st_confirm b) (st_prepare c) h k = cc
newer_trans (st_confirm a) (st_confirm b) (st_confirm c) h k = newer_confirm_trans a b c h k
newer_trans (st_confirm a) b (st_externalize c) h k = refl
newer_trans (st_confirm a) (st_externalize b) (st_prepare c) h k = cc
newer_trans (st_confirm a) (st_externalize b) (st_confirm c) h k = cc
newer_trans (st_externalize a) (st_prepare b) c h k = cc
newer_trans (st_externalize a) (st_confirm b) c h k = cc
newer_trans (st_externalize a) (st_externalize b) c h k = cc

newer_irrefl : (a : Pledges) → is_newer_statement a a ≡ false
unfolding is_newer_statement newer_prepare newer_confirm
newer_irrefl (st_prepare a) = ground (
  arith,
  compare_ballots_self a.ballot,
  compare_pointers_self a.prepared,
  compare_pointers_self a.prepared_prime,
)
newer_irrefl (st_confirm a) = ground (arith, compare_ballots_self a.ballot)
newer_irrefl (st_externalize a) = refl

-- A statement is never newer than itself or than one that is newer than it, and what is newer than
-- a newer statement is newer: no sequence of statements, each newer than the one before, returns
-- to one that has been.
pub is_newer_statement-order :
    (a b c : Pledges)
    → (is_newer_statement a a ≡ false)
      × (is_newer_statement a b ≡ true → is_newer_statement b a ≡ false)
      × (is_newer_statement a b ≡ true
          → is_newer_statement b c ≡ true
          → is_newer_statement a c ≡ true)
is_newer_statement-order a b c =
    (newer_irrefl a, (λ h. ground (arith, newer_trans a b a h, newer_irrefl a)), newer_trans a b c)
