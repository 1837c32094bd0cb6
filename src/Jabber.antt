-- ===== src/Jabber.antt =====
-- src/jabber.c: identifiers of users, and the stanzas of the protocol.
pub mod Id
pub mod Ask
pub mod Packet
pub mod Make
pub mod Features
pub mod Classify
pub mod Granted
