-- ===== src/Parser.antt =====
-- src/parser.c: the two readers of application payload. A payload is the list of its `len` bytes.
pub mod Reads
pub mod Cursor
pub mod TlsSni
pub mod HttpHost
