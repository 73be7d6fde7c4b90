-- ===== src/Util.antt =====
-- The helpers under src/util/: statuses, decimal numbers and ASCII text.
pub mod Status
pub mod Decimal
pub mod Text
pub mod Parse
pub mod LogLevel
