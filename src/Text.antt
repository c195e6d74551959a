-- ===== src/Text.antt =====
-- The text functions of the SDK: sdk/src/utils.c and sdk/src/base64_url.c.
pub mod Compare
pub mod Escape
pub mod Base64
