-- ===== src/Ledger/LedgerTxn/Nested/Invariant.antt =====
-- The invariant of nested transactions: src/ledger/LedgerTxn.cpp.
use essa_core.Prelude.{◌≡◌, refl, Bool, true, false, ◌&&◌, arith, List, [], ◌∷◌, ◌∙◌, sym, ap}
use essa_core.Prelude.Result.{ok}
use essa_core.Ledger.Entry.{LedgerHeader}
use essa_core.Ledger.EntryMap.{distinct}
use essa_core.Ledger.LedgerTxn.{Newest, LedgerTxn, add_child, new_ledger_txn}
use essa_core.Ledger.LedgerTxn.Sealing.{commit, commit_child, rollback_child}
use essa_core.Ledger.LedgerTxn.Sound.{Sound, kept-Sound, new_ledger_txn-Sound}
use essa_core.Ledger.LedgerTxn.Commit.{commit-Sound, commit_is}
use essa_core.Ledger.LedgerTxn.Nested.{
  newest_of, Step, opens, nests, calls, commits, rolls_back, Reach, start, later,
}
use essa_core.Ledger.LedgerTxn.Nested.Keeps.{run-Keeps}

-- Transactions that wait for their child.
unfoldable pub Parents : Newest → List LedgerTxn → Type 0
unfolding newest_of
Parents root [] = Unit {0}
Parents root (p ∷ ls) =
    Sound (newest_of root ls) p × (p.is_sealed ≡ false) × (p.has_child ≡ true) × Parents root ls

-- Each is sound over those below, and only the innermost one has no child.
unfoldable pub WellNested : Newest → List LedgerTxn → Type 0
unfolding newest_of
WellNested root [] = Unit {0}
WellNested root (l ∷ ls) = Sound (newest_of root ls) l × (l.has_child ≡ false) × Parents root ls

waits :
    (gp : Newest) (l l' : LedgerTxn)
    → add_child l ≡ ok l'
    → Sound gp l
    → Sound gp l' × (l'.is_sealed ≡ false) × (l'.has_child ≡ true)
unfolding add_child
waits gp l l' h s = (
  kept-Sound gp l l' (ground (arith, h)) (ground (arith, h)) s,
  ground (arith, h),
  ground (arith, h),
)

committed_child : (gp : Newest) (p c p' : LedgerTxn) → commit gp p c ≡ ok p' → p'.has_child ≡ false
unfolding commit_child
committed_child gp p c p' h = sym (ap (λ l. l.has_child) (commit_is gp p c p' h))

Step-WellNested :
    (root : Newest) (header : LedgerHeader) (s t : List LedgerTxn)
    → Step root header s t
    → WellNested root s
    → WellNested root t
unfolding WellNested Parents new_ledger_txn rollback_child
Step-WellNested root header _ _ (opens u) w = (new_ledger_txn-Sound root header u, refl, tt)
Step-WellNested root header _ _ (nests u {l} {l'} {ls} e) w =
    let (a, b, c) = waits (newest_of root ls) l l' e w.0 in
    (new_ledger_txn-Sound (newest_of root (l' ∷ ls)) l.header u, refl, (a, b, c, w.2))
Step-WellNested root header _ _ (calls c {l} {l'} {ls} e) w =
    let (f, k) = run-Keeps (newest_of root ls) c l l' e in (f w.0, k ∙ w.1, w.2)
Step-WellNested root header _ _ (commits {c} {p} {p'} {ls} e) w =
    let (s, _, _, rest) = w.2 in
    (
      commit-Sound (newest_of root ls) p c p' e s,
      committed_child (newest_of root ls) p c p' e,
      rest,
    )
Step-WellNested root header _ _ (rolls_back {c} {p} {ls}) w =
    let (s, _, _, rest) = w.2 in (kept-Sound (newest_of root ls) p _ refl refl s, refl, rest)

pub Reach-WellNested :
    (root : Newest) (header : LedgerHeader) (s : List LedgerTxn)
    → Reach root header s
    → WellNested root s
unfolding WellNested
Reach-WellNested root header _ start = tt
Reach-WellNested root header _ (later {s} {t} r e) =
    Step-WellNested root header s t e (Reach-WellNested root header s r)

-- No key twice in any of the transactions.
abbrev pub all_distinct : List LedgerTxn → Bool
all_distinct [] = true
all_distinct (l ∷ ls) = distinct l.entries && all_distinct ls

Parents-distinct : (root : Newest) (ls : List LedgerTxn) → Parents root ls → all_distinct ls ≡ true
unfolding Parents
Parents-distinct root [] w = refl
Parents-distinct root (p ∷ ls) w =
    let (s, _, _, rest) = w in ground (arith, s.unique, Parents-distinct root ls rest)

pub WellNested-distinct :
    (root : Newest) (ls : List LedgerTxn) → WellNested root ls → all_distinct ls ≡ true
unfolding WellNested
WellNested-distinct root [] w = refl
WellNested-distinct root (l ∷ ls) w = ground (arith, w.0.unique, Parents-distinct root ls w.2)
