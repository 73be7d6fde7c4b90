-- ===== src/Commands.antt =====
-- The commands of src/commands: their context, the handlers by what they work on, and the registry.
pub mod Context
pub mod Options
pub mod Strings
pub mod Keys
pub mod Admin
pub mod Registry
pub mod Keeps
pub mod Sound
pub mod Logged
pub mod Clients
