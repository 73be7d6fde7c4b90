-- ===== src/Examples.antt =====
-- The theorems at concrete inputs.
mod Data
mod Engine
mod Protocol
mod Configs
mod Server
mod Recovery
mod Network
