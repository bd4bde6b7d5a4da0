-- ===== src/Facilitator/Server.antt =====
-- facilitator/src/server.ts: the handlers of the service. Bodies are taken with fields of the
-- expected JSON types, a field that is absent being `none`; a node index is a natural number.
pub mod Settle
pub mod Close
pub mod Lookups
pub mod Laws
