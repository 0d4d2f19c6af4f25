-- ===== src/Ledger/Entry.antt =====
-- The entries of the ledger, xdr/EssaBlockChain-ledger-entries.x, and the fields of the header that
-- the operations read. An account's key, a data name, a data value, a home domain and the code of an
-- asset are opaque bytes, which are only stored and compared: each is a number here. An entry stands
-- without lastModifiedLedgerSeq, which LedgerTxn sets.
use essa_core.Prelude.{ℕ, Option, List}
use essa_core.Prelude.Int.{ℤ}

pub data Asset : Type 0 where
  native : Asset
  alpha_num4 : (asset_code issuer : ℕ) → Asset
  alpha_num12 : (asset_code issuer : ℕ) → Asset

-- What one unit of wheat costs in sheep, n / d.
pub record Price : Type 0 where
  pub n : ℕ
  pub d : ℕ

pub record Liabilities : Type 0 where
  pub buying : ℤ
  pub selling : ℤ

-- The `ext` union of accounts and trust lines.
pub data Extension : Type 0 where
  v0 : Extension
  v1 : Liabilities → Extension

pub record Signer : Type 0 where
  pub key : ℕ
  pub weight : ℕ

pub record Thresholds : Type 0 where
  pub master_weight : ℕ
  pub low : ℕ
  pub medium : ℕ
  pub high : ℕ

pub record AccountEntry : Type 0 where
  pub account_id : ℕ
  pub balance : ℤ
  pub seq_num : ℤ
  pub num_sub_entries : ℕ
  pub inflation_dest : Option ℕ
  pub flags : ℕ
  pub home_domain : ℕ
  pub thresholds : Thresholds
  pub signers : List Signer
  pub ext : Extension

pub record TrustLineEntry : Type 0 where
  pub account_id : ℕ
  pub asset : Asset
  pub balance : ℤ
  pub limit : ℤ
  pub flags : ℕ
  pub ext : Extension

pub record OfferEntry : Type 0 where
  pub seller_id : ℕ
  pub offer_id : ℕ
  pub selling : Asset
  pub buying : Asset
  pub amount : ℤ
  pub price : Price
  pub flags : ℕ

pub record DataEntry : Type 0 where
  pub account_id : ℕ
  pub data_name : ℕ
  pub data_value : ℕ

pub data LedgerEntry : Type 0 where
  account : AccountEntry → LedgerEntry
  trust_line : TrustLineEntry → LedgerEntry
  offer : OfferEntry → LedgerEntry
  data_entry : DataEntry → LedgerEntry

pub record LedgerHeader : Type 0 where
  pub ledger_version : ℕ
  pub ledger_seq : ℕ
  pub base_reserve : ℕ
  pub id_pool : ℕ

-- getIssuer reads the wrong arm of a native asset, which throws: no caller passes one.
unfoldable pub get_issuer : Asset → Option ℕ
get_issuer native = Option.none
get_issuer (alpha_num4 c i) = Option.some i
get_issuer (alpha_num12 c i) = Option.some i
