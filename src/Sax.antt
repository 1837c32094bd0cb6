-- ===== src/Sax.antt =====
-- The SAX parser, src/sax.c. `Types` has `struct iksparser_struct`, `Token` the token stack and the
-- attribute array, `Core` the loop of `sax_core`, `Parse` the entry points, `Valid` the invariant,
-- and `Safe` the proofs about them.
pub mod Types
pub mod Token
pub mod Core
pub mod Parse
pub mod Valid
pub mod Safe
