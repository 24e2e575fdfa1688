-- ===== src/Json.antt =====
-- The JSON schema compiler of the crate parser (parser/src/json).
pub mod Regex
pub mod Numeric
pub mod Decimal
mod Tests
