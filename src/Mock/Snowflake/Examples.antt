-- ===== src/Mock/Snowflake/Examples.antt =====
-- Ids minted at concrete times.
use vaidcord.Base.{ℕ, ◌≡◌, refl, List, [], ◌∷◌}
use vaidcord.Mock.Snowflake.{SnowflakeGenerator, compose, shift_left, generate, generate_all}

abbrev generator : SnowflakeGenerator
generator = record { worker_id = 1; process_id = 1; increment = 4094; last_id = 0 }

-- The clock stands still while the increment wraps around.
abbrev clock : List ℕ
clock = 1420070400007 ∷ 1420070400007 ∷ 1420070400006 ∷ []

ids : generate_all clock generator ≡ 29499391 ∷ 29499392 ∷ 29499393 ∷ []
unfolding generate_all generate compose shift_left
ids = refl
