-- ===== src/Items.antt =====
-- The tables of items under items/.
pub mod Gear
pub mod GearPool
pub mod Mounts
pub mod Tables
