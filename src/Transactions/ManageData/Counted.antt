-- ===== src/Transactions/ManageData/Counted.antt =====
-- doApply of transactions/ManageDataOpFrame.cpp as a whole.
use essa_core.Prelude.{
  ℕ, suc, ◌+◌, ◌^◌, ◌≡◌, ◌≤◌, ◌<◌, ◌⊎◌, refl, Bool, true, false, ◌==◌, length, arith, Option, none,
  some, ◌∷◌, if◌then◌else◌, inl, inr, ◌∙◌, Bool-cases, Option-cases,
}
use essa_core.Prelude.Int.{pos, negsuc}
use essa_core.Prelude.Result.{Result, ok, returns}
use essa_core.Ledger.Entry.{AccountEntry, LedgerHeader}
use essa_core.Transactions.TransactionUtils.{add_num_entries, to_uint32, get_selling_liabilities}
use essa_core.Transactions.ManageData.{
  ManageDataResultCode, manage_data_success, manage_data_name_not_found, manage_data_low_reserve,
  DataLedger, load_data, modify_data, erase_data, create_data, remove_data, apply_data, manage_data,
}
use essa_core.Transactions.ManageData.Stored.{
  distinct_names, load_data-modify_data, load_data-erase_data, length-modify_data,
  length-erase_data,
}

add_one :
    (h : LedgerHeader) (acc : AccountEntry)
    → suc acc.num_sub_entries < 2 ^ 31
    → (x : Bool × AccountEntry) × (add_num_entries h acc (pos 1) ≡ ok x)
      × (x.0 ≡ true → x.1.num_sub_entries ≡ suc acc.num_sub_entries)
unfolding add_num_entries get_selling_liabilities to_uint32
add_one h acc l =
    let (x, p) = returns (add_num_entries h acc (pos 1)) (λ e k. ground (arith, l, k)) in
    (x, p, λ b. ground (arith, l, p, b))

take_one :
    (h : LedgerHeader) (acc : AccountEntry)
    → suc acc.num_sub_entries < 2 ^ 31
    → 1 ≤ acc.num_sub_entries
    → (x : Bool × AccountEntry) × (add_num_entries h acc (negsuc 0) ≡ ok x)
      × (suc x.1.num_sub_entries ≡ acc.num_sub_entries)
unfolding add_num_entries get_selling_liabilities to_uint32
take_one h acc l m =
    let (x, p) = returns (add_num_entries h acc (negsuc 0)) (λ e k. ground (arith, l, m, k)) in
    (x, p, ground (arith, l, m, p))

-- The name holds the value, or nothing, every other name what it held, and the account counts as many
-- entries more or less as there are.
pub record Stores (l : DataLedger) (name : ℕ) (value : Option ℕ) (t : DataLedger) : Type 0 where
  pub loads :
      (other : ℕ)
      → load_data other t.entries ≡ (if other == name then value else load_data other l.entries)
  pub counts :
      t.source.num_sub_entries + length l.entries ≡ l.source.num_sub_entries + length t.entries

abbrev pub is_success : ManageDataResultCode → Bool
is_success manage_data_success = true
is_success manage_data_name_not_found = false
is_success manage_data_low_reserve = false

-- Returned, stored on success, and unchanged otherwise.
abbrev pub Managed : DataLedger → ℕ → Option ℕ → Result (ManageDataResultCode × DataLedger) → Type 0
Managed l name value r =
    (x : ManageDataResultCode × DataLedger) × (r ≡ ok x)
    × (((x.0 ≡ manage_data_success) × Stores l name value x.1)
        ⊎ ((is_success x.0 ≡ false) × (x.1 ≡ l)))

-- Room for another entry in 31 bits, no name twice, and a count of at least the entries there are.
pub record IsCounted (l : DataLedger) : Type 0 where
  pub room : suc l.source.num_sub_entries < 2 ^ 31
  pub distinct : distinct_names l.entries ≡ true
  pub counted : length l.entries ≤ l.source.num_sub_entries

create_Managed :
    (l : DataLedger) (name value : ℕ)
    → IsCounted l
    → Managed l name (some value) (create_data l name value)
unfolding create_data load_data
create_Managed l name value c =
    let (x, p, n) = add_one l.header l.source c.room in
    elim (Bool-cases x.0) [
      | inr low ↦ ((manage_data_low_reserve, l), ground (arith, p, low), inr (refl, refl))
      | inl fits ↦ (
        (manage_data_success, record l { source = x.1; entries = (name, value) ∷ l.entries }),
        ground (arith, p, fits),
        inl (refl, record { loads = λ other. ground arith; counts = omega (arith, n fits) }),
      )
    ]

modify_Managed :
    (l : DataLedger) (name value old : ℕ)
    → load_data name l.entries ≡ some old
    → Managed l name
        (some value)
        (ok (manage_data_success, record l { entries = modify_data name value l.entries }))
modify_Managed l name value old h = (
  (manage_data_success, record l { entries = modify_data name value l.entries }),
  refl,
  inl (
    refl,
    record {
      loads = λ other. load_data-modify_data name value other l.entries old h;
      counts = omega (arith, length-modify_data name value l.entries);
    },
  ),
)

remove_Managed :
    (l : DataLedger) (name old : ℕ)
    → IsCounted l
    → load_data name l.entries ≡ some old
    → Managed l name none (remove_data l name)
unfolding remove_data
remove_Managed l name old c h =
    let gone = length-erase_data name old l.entries h in
    let (x, p, n) = take_one l.header l.source c.room (omega (arith, gone, c.counted)) in
    (
      (manage_data_success, record l { source = x.1; entries = erase_data name l.entries }),
      ground (arith, p),
      inl (
        refl,
        record {
          loads = λ other. load_data-erase_data name other l.entries c.distinct;
          counts = omega (arith, gone, n);
        },
      ),
    )

Managed-as :
    (l : DataLedger) (name : ℕ) (value : Option ℕ)
    {r r' : Result (ManageDataResultCode × DataLedger)}
    → Managed l name value r
    → r' ≡ r
    → Managed l name value r'
Managed-as l name value (x, p, f) same = (x, same ∙ p, f)

-- From protocol version 8 on, for an account that counts at least its data entries, with no name
-- twice and room for one more in 31 bits, ManageData returns. With success the name holds the value,
-- or nothing if it was to be deleted, every other name holds what it held, and the account's count of
-- entries has changed by the number of entries; without, nothing has changed.
pub manage_data-Managed :
    (l : DataLedger) (name : ℕ) (value : Option ℕ)
    → 8 ≤ l.header.ledger_version
    → IsCounted l
    → Managed l name value (manage_data l name value)
unfolding manage_data apply_data
manage_data-Managed l name (some value) v c = elim (Option-cases (load_data name l.entries)) [
  | inl new ↦
      Managed-as l name (some value) (create_Managed l name value c) (ground (arith, v, new))
  | inr (old, found) ↦
      Managed-as l name (some value) (modify_Managed l name value old found)
        (ground (arith, v, found))
]
manage_data-Managed l name none v c = elim (Option-cases (load_data name l.entries)) [
  | inl missing ↦ ((manage_data_name_not_found, l), ground (arith, v, missing), inr (refl, refl))
  | inr (old, found) ↦
      Managed-as l name none (remove_Managed l name old c found) (ground (arith, v, found))
]
