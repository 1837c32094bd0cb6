-- ===== src/Tests.antt =====
-- Runs on concrete inputs, and the theorems at inputs that meet their hypotheses.
mod Sax
mod Packet
mod Dom
mod Escape
mod Base64
mod Filter
mod Sha
mod Jabber
mod Md5
mod Ikstack
mod Strings
mod Stream
mod File
mod Io
