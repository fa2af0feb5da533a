-- ===== src/Routing.antt =====
-- vaidcord-py/src/vaidcord/router.py and filters/base.py: how an event finds its handlers.
pub mod Order
pub mod Registry
pub mod Kwargs
pub mod Filters
pub mod Memo
pub mod Dispatch
pub mod Polling
