-- ===== src/Idl/DagEscrow.antt =====
-- The instructions of dag_escrow that the client sends, from sdk/src/idl/dag_escrow.ts.
mod Opening
mod Closing
pub use Opening.*
pub use Closing.*
