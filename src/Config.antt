-- ===== src/Config.antt =====
-- The program's configuration: its structs and the loader of src/config/config.cpp.
pub mod Types
pub mod Values
pub mod Apply
pub mod Loader
pub mod Args
