-- ===== src/Mcp.antt =====
-- Signed values that clients carry for the server of mcp/src: the encoding of bytes, the cursors of
-- listings and the grants of downloads.
pub mod Errors
pub mod Base64
pub mod Tokens
pub mod Cursors
