-- ===== src/Mock.antt =====
-- vaidcord-py/src/vaidcord/mock: of the mock server, the ids that it mints.
pub mod Snowflake
