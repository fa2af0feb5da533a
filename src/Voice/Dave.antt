-- ===== src/Voice/Dave.antt =====
-- vaidcord-py/src/vaidcord/voice/dave: the end-to-end encryption of voice.
pub mod Kdf
pub mod Ratchet
pub mod State
pub mod Backend
pub mod Controller
