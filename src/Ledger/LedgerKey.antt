-- ===== src/Ledger/LedgerKey.antt =====
-- The keys of the ledger's entries: LedgerKey of xdr/EssaBlockChain-ledger-entries.x with its
-- equality, LedgerEntryKey of src/util/types.cpp, and an entry with the ledger that last changed it.
use essa_core.Prelude.{ℕ, ◌≡◌, refl, Bool, true, false, ◌&&◌, ◌==◌, arith}
use essa_core.Ledger.Entry.{
  Asset, native, alpha_num4, alpha_num12, LedgerEntry, account, trust_line, offer, data_entry,
}

pub data LedgerKey : Type 0 where
  account_key : (account_id : ℕ) → LedgerKey
  trust_line_key : (account_id : ℕ) → (asset : Asset) → LedgerKey
  offer_key : (seller_id offer_id : ℕ) → LedgerKey
  data_key : (account_id data_name : ℕ) → LedgerKey

-- LedgerEntry: its data, with lastModifiedLedgerSeq.
pub record Entry : Type 0 where
  pub last_modified_ledger_seq : ℕ
  pub body : LedgerEntry

unfoldable pub body_key : LedgerEntry → LedgerKey
body_key (account a) = account_key a.account_id
body_key (trust_line t) = trust_line_key t.account_id t.asset
body_key (offer o) = offer_key o.seller_id o.offer_id
body_key (data_entry d) = data_key d.account_id d.data_name

unfoldable pub ledger_entry_key : Entry → LedgerKey
unfolding body_key
ledger_entry_key e = body_key e.body

-- key.type() == OFFER
unfoldable pub is_offer_key : LedgerKey → Bool
is_offer_key (offer_key s i) = true
is_offer_key _ = false

unfoldable pub same_asset : Asset → Asset → Bool
same_asset native native = true
same_asset (alpha_num4 c i) (alpha_num4 d j) = c == d && i == j
same_asset (alpha_num12 c i) (alpha_num12 d j) = c == d && i == j
same_asset _ _ = false

unfoldable pub same_key : LedgerKey → LedgerKey → Bool
unfolding same_asset
same_key (account_key a) (account_key b) = a == b
same_key (trust_line_key a x) (trust_line_key b y) = a == b && same_asset x y
same_key (offer_key a i) (offer_key b j) = a == b && i == j
same_key (data_key a n) (data_key b m) = a == b && n == m
same_key _ _ = false

pub same_asset_refl : (a : Asset) → same_asset a a ≡ true
unfolding same_asset
same_asset_refl native = refl
same_asset_refl (alpha_num4 c i) = ground arith
same_asset_refl (alpha_num12 c i) = ground arith

pub same_asset_sound : (a b : Asset) → same_asset a b ≡ true → a ≡ b
unfolding same_asset
same_asset_sound native native h = refl
same_asset_sound (alpha_num4 c i) (alpha_num4 d j) h = ground (arith, h)
same_asset_sound (alpha_num12 c i) (alpha_num12 d j) h = ground (arith, h)
same_asset_sound _ _ h = absurd (ground (arith, h))

pub same_key_refl : (k : LedgerKey) → same_key k k ≡ true
unfolding same_key
same_key_refl (account_key a) = ground arith
same_key_refl (trust_line_key a x) = ground (arith, same_asset_refl x)
same_key_refl (offer_key a i) = ground arith
same_key_refl (data_key a n) = ground arith

pub same_key_sound : (k j : LedgerKey) → same_key k j ≡ true → k ≡ j
unfolding same_key
same_key_sound (account_key a) (account_key b) h = ground (arith, h)
same_key_sound (trust_line_key a x) (trust_line_key b y) h = ground (arith, h, same_asset_sound x y)
same_key_sound (offer_key a i) (offer_key b j) h = ground (arith, h)
same_key_sound (data_key a n) (data_key b m) h = ground (arith, h)
same_key_sound _ _ h = absurd (ground (arith, h))
