-- ===== src/Mock/Snowflake/Ascends.antt =====
-- The order of the ids of a generator.
use vaidcord.Base.{ℕ, ◌<◌, List, [], ◌∷◌, arith}
use vaidcord.Mock.Snowflake.{SnowflakeGenerator, above, generate, generate_all}

-- Each number is above the one before it, and the first above a bound.
abbrev pub AscendsFrom : ℕ → List ℕ → Type 0
AscendsFrom bound [] = Unit {0}
AscendsFrom bound (n ∷ ns) = (bound < n) × AscendsFrom n ns

above_lem : (last_id snowflake : ℕ) → last_id < above last_id snowflake
above_lem last_id snowflake = ground arith

-- Whatever the clock says, even where it goes back or stands still, and however many ids are minted,
-- each id is above the one before it, and the first above the last one that was minted.
pub generate_all-AscendsFrom :
    (clock : List ℕ) (g : SnowflakeGenerator) → AscendsFrom g.last_id (generate_all clock g)
unfolding generate_all generate
generate_all-AscendsFrom [] g = tt
generate_all-AscendsFrom (now ∷ later) g =
    (above_lem g.last_id _, generate_all-AscendsFrom later (generate now g).1)
