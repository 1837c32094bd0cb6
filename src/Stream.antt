-- ===== src/Stream.antt =====
-- src/stream.c: a parser whose hooks hand whole stanzas to the client, over a transport.
pub mod Types
pub mod Send
pub mod Sasl
pub mod Hooks
pub mod Connect
pub mod Recv
pub mod Bounds
pub mod Leads
pub mod Sound
pub mod Sent
pub mod Answer
pub mod Stanza
pub mod Secure
pub mod Digest
