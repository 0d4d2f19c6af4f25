-- ===== src/Transactions/CreateAccount/Opens.antt =====
-- What CreateAccountOpFrame::doApply makes of the ledger: transactions/CreateAccountOpFrame.cpp.
use essa_core.Prelude.{
  ℕ, ◌*◌, ◌^◌, ◌<◌, ◌≤◌, ◌≡◌, refl, ◌∙◌, ap, Bool, true, false, ◌&&◌, not, ◌==◌, arith, Option,
  none, some, List, [], ◌∷◌, if◌then◌else◌, Bool-cases, inl, inr,
}
use mathlib.Core.Path.{subst}
use essa_core.Prelude.Int.{ℤ, pos, ◌-ℤ◌, ltb_ℤ}
use essa_core.Prelude.Result.{Result, ok}
use essa_core.Ledger.Entry.{AccountEntry, LedgerHeader, v0}
use essa_core.Ledger.LedgerKey.{LedgerKey, Entry, account_key, same_key, ledger_entry_key, body_key}
use essa_core.Ledger.LedgerTxn.{
  Newest, LedgerTxn, EntryImpl, mutable_impl, is_some, get_newest_version, find_active,
}
use essa_core.Transactions.TransactionUtils.{get_min_balance}
use essa_core.Transactions.TransactionUtils.Valid.{IsValidAccount}
use essa_core.Transactions.TransactionUtils.Limits.{available_in, moved}
use essa_core.Transactions.TransactionUtils.Sequences.{starting_sequence, starting_sequence_exact}
use essa_core.Transactions.OperationFrame.{
  load_account, as_account, with_body, release, release_header,
}
use essa_core.Transactions.OperationFrame.Handles.{
  holding, released, released_header, Ready, overwritten, load_header_step, load_step, miss_step,
  set_current_step, create_step,
}
use essa_core.Transactions.CreateAccount.{
  CreateAccountResultCode, create_account_success, create_account_underfunded,
  create_account_low_reserve, create_account_already_exist, new_account, fund_account, create_from,
  create_missing, create_new, create_unless, create_account,
}
use essa_core.Transactions.CreateAccount.Funds.{available_is, takes}

abbrev pub is_success : CreateAccountResultCode → Bool
is_success create_account_success = true
is_success _ = false

-- An account without signers, sub entries or options that holds an amount.
abbrev pub plain_account : ℕ → ℤ → ℤ → Entry
plain_account id amount sequence = holding 0 (record {
  account_id = id;
  balance = amount;
  seq_num = sequence;
  num_sub_entries = 0;
  inflation_dest = none;
  flags = 0;
  home_domain = 0;
  thresholds = record { master_weight = 1; low = 0; medium = 0; high = 0 };
  signers = [];
  ext = v0;
})

-- What a ledger answers when the entry `e` has been created under `d`, with an amount that was taken
-- from an account.
unfoldable pub opened : Entry → ℕ → ℕ → ℕ → AccountEntry → ℤ → Newest → Newest
opened e s d n src amount f =
    overwritten (account_key d) (some e)
      (overwritten (account_key s) (some (holding n (moved src (pos 0 -ℤ amount)))) f)

module _ (parent : Newest) (s d : ℕ) (other : (s == d) ≡ false) (n : ℕ) (src : AccountEntry)
    (amount : ℤ) (w : IsValidAccount src) (id : src.account_id ≡ s)
    (p : ltb_ℤ (pos 0) amount ≡ true) where
  -- The outcome on what the ledger `f` answers.
  Outcome : LedgerHeader → Newest → Bool → Result (CreateAccountResultCode × LedgerTxn) → Type 0
  Outcome h f succeeds r =
      (code : CreateAccountResultCode) × (l' : LedgerTxn) × (r ≡ ok (code, l'))
      × (is_success code ≡ succeeds)
      × ((key : LedgerKey)
          → get_newest_version parent l' key ≡ (
              if is_success code
              then opened (new_account h d amount) s d n src amount f key
              else f key))

  source_only : List (LedgerKey × EntryImpl)
  source_only = (account_key s, mutable_impl) ∷ []

  paid_key : ledger_entry_key (holding n (moved src (pos 0 -ℤ amount))) ≡ account_key s
  unfolding ledger_entry_key body_key
  paid_key = ap account_key id

  source_active :
      find_active (ledger_entry_key (holding n (moved src (pos 0 -ℤ amount)))) source_only
      ≡ some mutable_impl
  unfolding source_only find_active same_key ledger_entry_key body_key
  source_active = ground (arith, id)

  new_key : (h : LedgerHeader) → ledger_entry_key (new_account h d amount) ≡ account_key d
  unfolding ledger_entry_key body_key new_account
  new_key h = refl

  born_plain :
      (h : LedgerHeader)
      → h.ledger_seq < 2 ^ 32
      → new_account h d amount ≡ plain_account d amount (starting_sequence h.ledger_seq)
  unfolding new_account
  born_plain h small = rw (starting_sequence_exact h small) refl

  still_missing :
      (e : Entry) (f : Newest) (k : LedgerKey)
      → k ≡ account_key s
      → f (account_key d) ≡ none
      → overwritten k (some e) f (account_key d) ≡ none
  unfolding same_key
  still_missing e f k q h = rw q (ground (arith, other, h))

  wrote :
      (x : Option Entry) (f g : Newest) (k k' key : LedgerKey)
      → k ≡ k'
      → g key ≡ f key
      → overwritten k x g key ≡ overwritten k' x f key
  wrote x f g k k' key q h = rw (q, h) refl

  fund_account-Outcome :
      (l : LedgerTxn) (f : Newest)
      → Ready parent l source_only
      → ((key : LedgerKey) → get_newest_version parent l key ≡ f key)
      → 10 ≤ l.header.ledger_version
      → f (account_key d) ≡ none
      → ltb_ℤ (available_in l.header src) amount ≡ false
      → Outcome l.header f true (fund_account parent l (holding n src) src d amount)
  unfolding Outcome fund_account with_body opened
  fund_account-Outcome l f r same v gone a =
      let paid = holding n (moved src (pos 0 -ℤ amount)) in
      let born = new_account l.header d amount in
      let (l1, c1, s1) = set_current_step parent l source_only r paid source_active in
      let answers1 : (key : LedgerKey)
          → get_newest_version parent l1 key ≡ overwritten (account_key s) (some paid) f key =
        λ key.
          s1.answers key
          ∙ wrote (some paid) f (get_newest_version parent l) (ledger_entry_key paid)
              (account_key s) key paid_key (same key) in
      let missing1 =
        ap (get_newest_version parent l1) (new_key l.header)
        ∙ answers1 (account_key d)
        ∙ still_missing paid f (account_key s) refl gone in
      let (l2, c2, s2) = create_step parent l1 source_only s1.ready born missing1 in
      (
        create_account_success,
        release (account_key d) l2,
        rw (takes l.header src amount v w p a, c1, c2) refl,
        refl,
        λ key.
            released parent (account_key d) l2 key
            ∙ s2.answers key
            ∙ wrote (some born) (overwritten (account_key s) (some paid) f)
                (get_newest_version parent l1) (ledger_entry_key born) (account_key d) key
                (new_key l.header) (answers1 key),
      )

  create_from-Outcome :
      (l : LedgerTxn) (f : Newest)
      → Ready parent l source_only
      → ((key : LedgerKey) → get_newest_version parent l key ≡ f key)
      → 10 ≤ l.header.ledger_version
      → f (account_key d) ≡ none
      → Outcome l.header f
          (not (ltb_ℤ (available_in l.header src) amount))
          (create_from parent l (holding n src) d amount)
  unfolding Outcome create_from as_account
  create_from-Outcome l f r same v gone =
      rw (available_is l.header src v)
        (elim (Bool-cases (ltb_ℤ (available_in l.header src) amount)) [
          | inl few ↦ rw few (create_account_underfunded, l, refl, refl, same)
          | inr enough ↦ rw enough (fund_account-Outcome l f r same v gone enough)
        ])

  in_header :
      (h h' : LedgerHeader) (f : Newest) (g : LedgerHeader → Bool)
      (r : Result (CreateAccountResultCode × LedgerTxn))
      → h ≡ h'
      → Outcome h f (g h) r
      → Outcome h' f (g h') r
  in_header h h' f g r e = subst (λ x. Outcome x f (g x) r) e

  create_missing-Outcome :
      (l : LedgerTxn) (f : Newest)
      → Ready parent l []
      → ((key : LedgerKey) → get_newest_version parent l key ≡ f key)
      → 10 ≤ l.header.ledger_version
      → f (account_key s) ≡ some (holding n src)
      → f (account_key d) ≡ none
      → Outcome l.header f
          (not (ltb_ℤ (available_in l.header src) amount))
          (create_missing parent l s d amount)
  unfolding Outcome create_missing load_account find_active source_only
  create_missing-Outcome l f r same v here gone =
      let (l1, c, st) =
        load_step parent l [] r (account_key s) (holding n src) refl
          (same (account_key s) ∙ here) in
      let (code, l2, e, q, a) =
        in_header l1.header l.header f (λ h. not (ltb_ℤ (available_in h src) amount))
          (create_from parent l1 (holding n src) d amount) st.same_header
          (create_from-Outcome l1 f st.ready (λ key. st.answers key ∙ same key)
            (rw st.same_header v) gone) in
      (
        code,
        release (account_key s) l2,
        rw (c, e) refl,
        q,
        λ key. released parent (account_key s) l2 key ∙ a key,
      )

  reserve_is :
      (h : LedgerHeader) → 10 ≤ h.ledger_version → get_min_balance h 0 ≡ pos (2 * h.base_reserve)
  unfolding get_min_balance
  reserve_is h v = ground (arith, v)

  -- The amount makes up the reserve, and the source account has it.
  enough : LedgerHeader → Bool
  enough h = not (ltb_ℤ amount (get_min_balance h 0)) && not (ltb_ℤ (available_in h src) amount)

  create_by_reserve :
      (l : LedgerTxn) (f : Newest)
      → Ready parent l []
      → ((key : LedgerKey) → get_newest_version parent l key ≡ f key)
      → 10 ≤ l.header.ledger_version
      → f (account_key s) ≡ some (holding n src)
      → f (account_key d) ≡ none
      → Outcome l.header f (enough l.header) (
          if ltb_ℤ amount (get_min_balance l.header 0)
          then ok (create_account_low_reserve, l)
          else create_missing parent l s d amount)
  unfolding Outcome enough
  create_by_reserve l f r same v here gone =
      elim (Bool-cases (ltb_ℤ amount (get_min_balance l.header 0))) [
        | inl low ↦ rw low (create_account_low_reserve, l, refl, refl, same)
        | inr high ↦ rw high (create_missing-Outcome l f r same v here gone)
      ]

  create_new-Outcome :
      (l : LedgerTxn) (f : Newest)
      → Ready parent l []
      → l.active_header ≡ false
      → ((key : LedgerKey) → get_newest_version parent l key ≡ f key)
      → 10 ≤ l.header.ledger_version
      → f (account_key s) ≡ some (holding n src)
      → f (account_key d) ≡ none
      → Outcome l.header f (enough l.header) (create_new parent l s d amount)
  unfolding Outcome create_new
  create_new-Outcome l f r free same v here gone =
      let (l1, c, st) = load_header_step parent l [] r free in
      let (code, l2, e, q, a) = in_header l1.header l.header f enough _ st.same_header (
        create_by_reserve l1 f st.ready (λ key. st.answers key ∙ same key) (rw st.same_header v)
          here gone) in
      (code, release_header l2, rw (c, e) refl, q, λ key. released_header parent l2 key ∙ a key)

  create_account-by :
      (l : LedgerTxn) (found : Option Entry)
      → Ready parent l []
      → l.active_header ≡ false
      → 10 ≤ l.header.ledger_version
      → get_newest_version parent l (account_key s) ≡ some (holding n src)
      → get_newest_version parent l (account_key d) ≡ found
      → Outcome l.header
          (get_newest_version parent l)
          (not (is_some found) && enough l.header)
          (create_account parent l s d amount)
  unfolding Outcome create_account create_unless load_account is_some find_active
  create_account-by l none r free v here there =
      rw (miss_step parent l [] r (account_key d) refl there)
        (create_new-Outcome l (get_newest_version parent l) r free (λ key. refl) v here there)
  create_account-by l (some e) r free v here there =
      let (l1, c, st) = load_step parent l [] r (account_key d) e refl there in
      (
        create_account_already_exist,
        release (account_key d) l1,
        rw c refl,
        refl,
        λ key. released parent (account_key d) l1 key ∙ st.answers key,
      )

  -- From protocol version 10 on, on a transaction that is ready and has no handles out, for a valid
  -- source account that it has under its key, another destination and an amount above 0: the creation
  -- of an account returns, and its assertion does not fail. It succeeds exactly if there is no such
  -- account, the amount is at least two base reserves and at most what the source account has
  -- available. With success the account is there, with the amount, the sequence number of the ledger
  -- as an `int64_t` and nothing else, the source account has that much less, and every other entry is what it was; with any other result no entry has changed.
  pub create_account-opened :
      (l : LedgerTxn)
      → Ready parent l []
      → l.active_header ≡ false
      → 10 ≤ l.header.ledger_version
      → l.header.ledger_seq < 2 ^ 32
      → get_newest_version parent l (account_key s) ≡ some (holding n src)
      → (code : CreateAccountResultCode) × (l' : LedgerTxn) × (create_account parent l s d amount
          ≡ ok (code, l'))
        × (is_success code ≡ (
            not (is_some (get_newest_version parent l (account_key d)))
            && (not (ltb_ℤ amount (pos (2 * l.header.base_reserve)))
                && not (ltb_ℤ (available_in l.header src) amount))))
        × ((key : LedgerKey)
            → get_newest_version parent l' key ≡ (
                if is_success code
                then opened
                    (plain_account d amount (starting_sequence l.header.ledger_seq))
                    s
                    d
                    n
                    src
                    amount
                    (get_newest_version parent l)
                    key
                else get_newest_version parent l key))
  unfolding Outcome enough
  create_account-opened l r free v small here =
      let f = get_newest_version parent l in
      let (code, l', e, q, a) = create_account-by l (f (account_key d)) r free v here refl in
      (
        code,
        l',
        e,
        q
            ∙ ap
                (λ reserve.
                  not (is_some (f (account_key d)))
                  && (not (ltb_ℤ amount reserve) && not (ltb_ℤ (available_in l.header src) amount)))
                (reserve_is l.header v),
        λ key.
            a key
            ∙ ap (λ born. if is_success code then opened born s d n src amount f key else f key)
                (born_plain l.header small),
      )
