-- ===== src/Character.antt =====
-- The character: AP_Character.cpp, by the fields that work together.
pub mod Receiver
pub mod Traps
mod Examples
pub mod Progress
pub mod Zones
pub mod Chat
pub mod Tiers
pub mod DeathLink
pub mod WorldBuffs
