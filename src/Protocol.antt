-- ===== src/Protocol.antt =====
-- exchange/src/protocol.rs: the three messages of the exchange, each with the codes of its kinds.
-- A message is the record of its fields; its kind stays the raw byte that the wire carries.
pub mod Request
pub mod Response
pub mod Update
pub mod Codes
mod Tests
