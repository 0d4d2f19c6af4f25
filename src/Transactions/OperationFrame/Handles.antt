-- ===== src/Transactions/OperationFrame/Handles.antt =====
-- Calls that succeed on a transaction that is neither sealed nor waiting for a child: the steps of an
-- operation, src/ledger/LedgerTxn.cpp.
use essa_core.Prelude.{
  ℕ, ◌≡◌, refl, ap, true, false, arith, Option, none, some, List, ◌∷◌, if◌then◌else◌,
}
use essa_core.Prelude.Result.{ok}
use essa_core.Ledger.LedgerKey.{LedgerKey, Entry, same_key, ledger_entry_key}
use essa_core.Ledger.Entry.{AccountEntry, account}
use essa_core.Ledger.EntryMap.{set}
use essa_core.Ledger.LedgerTxn.{
  Newest, create, LedgerTxn, EntryImpl, mutable_impl, get_newest_version, is_some, load, activate,
  set_current, is_mutable, find_active, remove_active, erase, erase_entry, load_header,
}
use essa_core.Ledger.LedgerTxn.Flat.{create-newest, load-newest, set_current-newest, erase-newest}
use essa_core.Ledger.LedgerTxn.Sound.{
  create-Sound, Sound, load-Sound, set_current-Sound, erase-Sound, kept-Sound,
}
use essa_core.Transactions.OperationFrame.{release, release_header}

-- An entry of the ledger that holds an account.
abbrev pub holding : ℕ → AccountEntry → Entry
holding seq acc = record { last_modified_ledger_seq = seq; body = account acc }

-- Ready for calls, well-formed, with these handles.
pub record Ready (parent : Newest) (l : LedgerTxn) (active : List (LedgerKey × EntryImpl))
    : Type 0 where
  pub unsealed : l.is_sealed ≡ false
  pub childless : l.has_child ≡ false
  pub handles : l.active ≡ active
  pub sound : Sound parent l

-- After a step that makes `g` of what the transaction answers.
pub record Stepped (parent : Newest) (l : LedgerTxn) (active : List (LedgerKey × EntryImpl))
    (g : LedgerKey → Option Entry) (l' : LedgerTxn) : Type 0 where
  pub ready : Ready parent l' active
  pub same_header : l'.header ≡ l.header
  pub answers : (key : LedgerKey) → get_newest_version parent l' key ≡ g key

-- The answers with one entry written.
abbrev pub overwritten : LedgerKey → Option Entry → Newest → Newest
overwritten key v f other = if same_key other key then v else f other

module _ (parent : Newest) (l : LedgerTxn) (active : List (LedgerKey × EntryImpl))
    (r : Ready parent l active) where
  loads_entry :
      (key : LedgerKey) (e : Entry)
      → find_active key active ≡ none
      → get_newest_version parent l key ≡ some e
      → load parent l key ≡ ok (some e, activate l key (some e))
  unfolding load is_some
  loads_entry key e h n = ground (arith, h, n, r.unsealed, r.childless, r.handles)

  pub load_step :
      (key : LedgerKey) (e : Entry)
      → find_active key active ≡ none
      → get_newest_version parent l key ≡ some e
      → (l' : LedgerTxn) × (load parent l key ≡ ok (some e, l'))
        × Stepped parent l ((key, mutable_impl) ∷ active) (get_newest_version parent l) l'
  unfolding activate
  load_step key e h n =
      let called = loads_entry key e h n in
      (
        activate l key (some e),
        called,
        record {
          ready = record {
            unsealed = r.unsealed;
            childless = r.childless;
            handles = ap (λ ks. (key, mutable_impl) ∷ ks) r.handles;
            sound = load-Sound parent l _ key (some e) called r.sound;
          };
          same_header = refl;
          answers = (load-newest parent l _ key (some e) called).1;
        },
      )

  set_current_result : Entry → LedgerTxn
  set_current_result e = record l { entries = set (ledger_entry_key e) (some e) l.entries }

  sets_entry :
      (e : Entry)
      → find_active (ledger_entry_key e) active ≡ some mutable_impl
      → set_current l e ≡ ok (set_current_result e)
  unfolding set_current is_mutable set_current_result
  sets_entry e h = ground (arith, h, r.handles)

  pub set_current_step :
      (e : Entry)
      → find_active (ledger_entry_key e) active ≡ some mutable_impl
      → (l' : LedgerTxn) × (set_current l e ≡ ok l')
        × Stepped parent l active
            (overwritten (ledger_entry_key e) (some e) (get_newest_version parent l))
            l'
  unfolding set_current_result
  set_current_step e h =
      let called = sets_entry e h in
      (
        set_current_result e,
        called,
        record {
          ready = record {
            unsealed = r.unsealed;
            childless = r.childless;
            handles = r.handles;
            sound = set_current-Sound parent l _ e called r.sound;
          };
          same_header = refl;
          answers = set_current-newest parent l _ e called;
        },
      )

  erase_result : LedgerKey → LedgerTxn
  erase_result key = record l {
    entries = erase_entry parent key l.entries;
    active = remove_active key l.active;
  }

  erases_entry :
      (key : LedgerKey) (e : Entry)
      → get_newest_version parent l key ≡ some e
      → erase parent l key ≡ ok (erase_result key)
  unfolding erase is_some erase_result
  erases_entry key e n = ground (arith, n, r.unsealed, r.childless)

  pub erase_step :
      (key : LedgerKey) (e : Entry)
      → get_newest_version parent l key ≡ some e
      → (l' : LedgerTxn) × (erase parent l key ≡ ok l')
        × Stepped parent l
            (remove_active key active)
            (overwritten key none (get_newest_version parent l))
            l'
  unfolding erase_result
  erase_step key e n =
      let called = erases_entry key e n in
      (
        erase_result key,
        called,
        record {
          ready = record {
            unsealed = r.unsealed;
            childless = r.childless;
            handles = ap (remove_active key) r.handles;
            sound = erase-Sound parent l _ key called r.sound;
          };
          same_header = refl;
          answers = erase-newest parent l _ key r.sound.unique called;
        },
      )

  opens_header : l.active_header ≡ false → load_header l ≡ ok (record l { active_header = true })
  unfolding load_header
  opens_header h = ground (arith, h, r.unsealed, r.childless)

  pub load_header_step :
      l.active_header ≡ false
      → (l' : LedgerTxn) × (load_header l ≡ ok l')
        × Stepped parent l active (get_newest_version parent l) l'
  unfolding get_newest_version
  load_header_step h = (
    record l { active_header = true },
    opens_header h,
    record {
      ready = record {
        unsealed = r.unsealed;
        childless = r.childless;
        handles = r.handles;
        sound = kept-Sound parent l _ refl refl r.sound;
      };
      same_header = refl;
      answers = λ key. refl;
    },
  )

-- The end of a handle changes no answer.
pub released :
    (parent : Newest) (k : LedgerKey) (l : LedgerTxn) (key : LedgerKey)
    → get_newest_version parent (release k l) key ≡ get_newest_version parent l key
unfolding release get_newest_version
released parent k l key = refl

pub released_header :
    (parent : Newest) (l : LedgerTxn) (key : LedgerKey)
    → get_newest_version parent (release_header l) key ≡ get_newest_version parent l key
unfolding release_header get_newest_version
released_header parent l key = refl

module _ (parent : Newest) (l : LedgerTxn) (active : List (LedgerKey × EntryImpl))
    (r : Ready parent l active) where
  -- A load of what is not there changes nothing.
  pub miss_step :
      (key : LedgerKey)
      → find_active key active ≡ none
      → get_newest_version parent l key ≡ none
      → load parent l key ≡ ok (none, l)
  unfolding load is_some activate
  miss_step key h n = ground (arith, h, n, r.unsealed, r.childless, r.handles)

  create_result : Entry → LedgerTxn
  create_result e = record l {
    active = (ledger_entry_key e, mutable_impl) ∷ l.active;
    entries = set (ledger_entry_key e) (some e) l.entries;
  }

  creates_entry :
      (e : Entry)
      → get_newest_version parent l (ledger_entry_key e) ≡ none
      → create parent l e ≡ ok (create_result e)
  unfolding create is_some create_result
  creates_entry e n = ground (arith, n, r.unsealed, r.childless)

  pub create_step :
      (e : Entry)
      → get_newest_version parent l (ledger_entry_key e) ≡ none
      → (l' : LedgerTxn) × (create parent l e ≡ ok l')
        × Stepped parent l
            ((ledger_entry_key e, mutable_impl) ∷ active)
            (overwritten (ledger_entry_key e) (some e) (get_newest_version parent l))
            l'
  unfolding create_result
  create_step e n =
      let called = creates_entry e n in
      (
        create_result e,
        called,
        record {
          ready = record {
            unsealed = r.unsealed;
            childless = r.childless;
            handles = ap (λ ks. (ledger_entry_key e, mutable_impl) ∷ ks) r.handles;
            sound = create-Sound parent l _ e called r.sound;
          };
          same_header = refl;
          answers = create-newest parent l _ e called;
        },
      )
