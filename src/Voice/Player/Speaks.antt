-- ===== src/Voice/Player/Speaks.antt =====
-- When a player's frames are announced, and how it leaves the connection.
use vaidcord.Base.Result.{Result}
