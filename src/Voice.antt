-- ===== src/Voice.antt =====
-- vaidcord-py/src/vaidcord/voice
pub mod Dave
pub mod Rtp
pub mod Crypto
pub mod Sender
pub mod Manager
pub mod Connection
pub mod Receiver
pub mod Udp
pub mod Player
