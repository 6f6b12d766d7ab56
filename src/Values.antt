-- ===== src/Values.antt =====
-- The server side: values, slots, the protocol and the sessions of src/db/values.h.
pub mod Value
pub mod Slot
pub mod RespProtocol
pub mod Session
pub mod Server
