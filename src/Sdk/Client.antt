-- ===== src/Sdk/Client.antt =====
-- The functions of sdk/src/pipeline.ts, reputation.ts and discovery.ts that read the chain, and
-- those of pipeline.ts that send a transaction, with the reads they make first.
pub mod Reads
pub mod Sends
pub mod Silence
pub mod Places
