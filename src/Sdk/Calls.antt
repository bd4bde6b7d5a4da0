-- ===== src/Sdk/Calls.antt =====
-- The transactions of sdk/src/pipeline.ts and sdk/src/stake.ts: what each function hands to Anchor's
-- method builder. `accounts` is the argument of `accountsPartial`, where `none` stands for `null`.
pub mod Pipeline
pub mod Settlement
pub mod Stake
pub mod Shape
pub mod Cascade
