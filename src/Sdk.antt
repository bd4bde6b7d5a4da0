-- ===== src/Sdk.antt =====
-- sdk/src, the TypeScript client of the three programs.
pub mod Uri
pub mod Platform
pub mod Accounts
pub mod Deployment
pub mod Pdas
pub mod Calls
pub mod Conforms
pub mod Network
pub mod Client
pub mod Delivery
mod Tests
