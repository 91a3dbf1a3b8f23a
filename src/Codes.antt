-- ===== src/Codes.antt =====
-- src/lib/codes.ts: order references, ticket codes, and the signed payload of a QR code. Texts are
-- lists of UTF-16 code units.
pub mod Text
pub mod Generate
pub mod Qr
pub mod Roundtrip
pub mod Issued
