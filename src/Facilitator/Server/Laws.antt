-- ===== src/Facilitator/Server/Laws.antt =====
-- A request that is refused has sent nothing; one that a handler of facilitator/src/server.ts
-- answers with 200 has sent its one transaction.
pub mod Refusal
pub mod Settling
pub mod Settled
pub mod Replayed
pub mod Closed
