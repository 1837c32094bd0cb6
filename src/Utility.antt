-- ===== src/Utility.antt =====
-- src/utility.c: the escaping of text for XML, the NULL-safe string functions, and the wrapper of the
-- allocator.
pub mod Escape
pub mod Strings
pub mod Memory
