-- ===== src/Ledger/LedgerTxn/Nested/Reads.antt =====
-- What a call that seals a nested transaction, or changes no entry, keeps of it: src/ledger/LedgerTxn.cpp.
use essa_core.Prelude.{◌≡◌, refl, arith, Option, none, some, ◌∙◌, sym}
use essa_core.Prelude.Result.{Result, ok, bind_ok, ok_injective, either, ◌>>◌, guard_ok}
use essa_core.Ledger.LedgerKey.{Entry}
use essa_core.Ledger.EntryMap.{EntryMap, find}
use essa_core.Ledger.LedgerTxn.{Newest, LedgerTxn, throw_if_not_exact_consistency}
use essa_core.Ledger.LedgerTxn.Sealing.{
  stamp_all, sealed_with, invoke_then_seal, update_invoke_seal, invoke_sealed,
  maybe_update_last_modified,
}
use essa_core.Ledger.LedgerTxn.Sound.{Sound, kept-Sound}
use essa_core.Ledger.LedgerTxn.Commit.{find-stamp_all, distinct-stamp_all, map_found, stamped}
use essa_core.Ledger.LedgerTxn.Nested.{then_state}

-- Still sound over its parent, and with no child if it had none.
abbrev pub Keeps : Newest → LedgerTxn → LedgerTxn → Type 0
Keeps parent l l' = (Sound parent l → Sound parent l') × (l'.has_child ≡ l.has_child)

stamped_erased :
    (l : LedgerTxn) (f : Option (Option Entry))
    → map_found (stamped l) f ≡ some none
    → f ≡ some none
unfolding stamped
stamped_erased l none h = absurd (ground (arith, h))
stamped_erased l (some none) h = refl
stamped_erased l (some (some e)) h = absurd (ground (arith, h))

sealed_with-Keeps :
    (parent : Newest) (l : LedgerTxn) → Keeps parent l (sealed_with (stamp_all l l.entries) l)
unfolding sealed_with
sealed_with-Keeps parent l = (
  λ s. record {
    unique = distinct-stamp_all l l.entries s.unique;
    erases_known = λ e k h.
        s.erases_known e k
          (stamped_erased l (find k l.entries) (sym (find-stamp_all l k l.entries) ∙ h));
  },
  refl,
)

updated :
    (l : LedgerTxn) (es : EntryMap)
    → maybe_update_last_modified l ≡ ok es
    → stamp_all l l.entries ≡ es
unfolding maybe_update_last_modified
updated l es u = ground (arith, u)

module _ {ℓ} {A : Type ℓ} (parent : Newest) (l : LedgerTxn) (f : EntryMap → Result A) where
  invoke_sealed-Keeps : (r : A × LedgerTxn) → invoke_sealed l f ≡ ok r → Keeps parent l r.1
  unfolding invoke_sealed
  invoke_sealed-Keeps r h =
      let (a, _, k) = bind_ok (f l.entries) _ r h in rw (← ok_injective k) (λ s. s, refl)

  update_invoke_seal-Keeps :
      (r : A × LedgerTxn) → update_invoke_seal l f ≡ ok r → Keeps parent l r.1
  unfolding update_invoke_seal
  update_invoke_seal-Keeps r h =
      let (es, u, k) = bind_ok (maybe_update_last_modified l) _ r h in
      let (a, _, k') = bind_ok (f es) _ r k in
      let stamps : stamp_all l l.entries ≡ es = updated l es u in
      rw (← ok_injective k', ← stamps) (sealed_with-Keeps parent l)

  pub seal-Keeps : (r : A × LedgerTxn) → invoke_then_seal l f ≡ ok r → Keeps parent l r.1
  unfolding invoke_then_seal
  seal-Keeps =
      either (λ r. Keeps parent l r.1) l.is_sealed (invoke_sealed l f) (update_invoke_seal l f)
        (λ _. invoke_sealed-Keeps) (λ _. update_invoke_seal-Keeps)

-- A call that changes no entry.
pub kept :
    (parent : Newest) (l l' : LedgerTxn)
    → l'.consistency ≡ l.consistency
    → l'.entries ≡ l.entries
    → l'.has_child ≡ l.has_child
    → Keeps parent l l'
kept parent l l' c m k = (kept-Sound parent l l' c m, k)

pub then_state_ok {ℓ} :
    {A : Type ℓ} (r : Result (A × LedgerTxn)) (l' : LedgerTxn)
    → then_state r ≡ ok l'
    → (a : A × LedgerTxn) × (r ≡ ok a) × (a.1 ≡ l')
unfolding then_state
then_state_ok r l' h = let (a, e, k) = bind_ok r _ l' h in (a, e, ok_injective k)

-- A call that reads the changes out, behind its guard.
pub guarded_seal {ℓ} :
    {A : Type ℓ} (parent : Newest) (l l' : LedgerTxn) (f : EntryMap → Result A)
    → then_state (throw_if_not_exact_consistency l >> invoke_then_seal l f) ≡ ok l'
    → Keeps parent l l'
guarded_seal parent l l' f h =
    let (a, e, k) = then_state_ok _ l' h in
    let e' = guard_ok (throw_if_not_exact_consistency l) (invoke_then_seal l f) a e in
    rw (← k) (seal-Keeps parent l f a e')

pub plain_seal {ℓ} :
    {A : Type ℓ} (parent : Newest) (l l' : LedgerTxn) (f : EntryMap → Result A)
    → then_state (invoke_then_seal l f) ≡ ok l'
    → Keeps parent l l'
plain_seal parent l l' f h =
    let (a, e, k) = then_state_ok _ l' h in rw (← k) (seal-Keeps parent l f a e)
