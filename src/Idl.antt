-- ===== src/Idl.antt =====
-- The interface description that Anchor generates for each program, as far as a client reads it:
-- sdk/src/idl/*.ts. Each instruction lists its accounts, which of them sign or are written, and how
-- the derived ones are derived.
pub mod Schema
pub mod DagEscrow
pub mod BondedRegistry
