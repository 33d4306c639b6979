-- ===== src/Internal.antt =====
-- The package `internal`: text helpers, the sanitizing readers and the UTF-8 checker.
pub mod Text
pub mod Reader
pub mod ResetReader
pub mod Sanitize
pub mod SanitizeUtf8
pub mod Utf8
