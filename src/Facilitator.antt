-- ===== src/Facilitator.antt =====
-- facilitator/src, the service that checks deliveries and settles or expires nodes.
pub mod Scorer
pub mod Input
pub mod Service
pub mod Replay
pub mod Verifier
pub mod Server
mod Tests
