-- ===== src/Http.antt =====
-- vaidcord-py/src/vaidcord/http: the requests to Discord's REST interface.
pub mod Retry
pub mod Request
pub mod RateLimit
