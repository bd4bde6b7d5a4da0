-- ===== src/Programs.antt =====
-- programs: the three Solana programs. An instruction is a function from the accounts to the accounts
-- or to an error; an instruction that fails changes nothing.
pub mod Runtime
pub mod Registry
pub mod Bridge
pub mod Escrow
pub mod Ledger
pub mod Cases
mod Tests
