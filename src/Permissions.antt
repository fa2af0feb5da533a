-- ===== src/Permissions.antt =====
-- vaidcord-py/src/vaidcord/permissions.py
pub mod Flags
pub mod BitLaws
pub mod Overwrite
pub mod Calculator
pub mod OverwriteLaws
pub mod Granted
pub mod Resolve
mod Examples
