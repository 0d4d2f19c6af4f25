-- ===== src/Bucket.antt =====
-- bucket/: the ledger's history of changes, in levels of growing size.
pub mod BucketList
