-- ===== src/Commands.antt =====
-- vaidcord-py/src/vaidcord/commands.py and the command sync of bot.py: application commands, their
-- payloads, and how the payloads that Discord has are merged with those that are wanted.
pub mod Options
pub mod Sync
mod Examples
