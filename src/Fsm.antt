-- ===== src/Fsm.antt =====
-- vaidcord-py/src/vaidcord/fsm: the state machine of conversations.
pub mod Key
pub mod State
pub mod Memory
pub mod Snapshot
pub mod Context
mod Examples
