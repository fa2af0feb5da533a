-- ===== src/Mock/Snowflake.antt =====
-- vaidcord-py/src/vaidcord/mock/snowflake.py. Times are in milliseconds; the clock stands behind the
-- first second of 2015.
pub mod Ascends
pub mod Decodes
mod Examples
use vaidcord.Base.{
  ℕ, zero, suc, ◌+◌, ◌-◌, ◌*◌, ◌/◌, bit_and, bit_or, List, [], ◌∷◌, leb, if◌then◌else◌,
}

abbrev pub discord_epoch_ms : ℕ
discord_epoch_ms = 1420070400000

-- `n << k` and `n >> k`
unfoldable pub shift_left : ℕ → ℕ → ℕ
shift_left zero n = n
shift_left (suc k) n = shift_left k n * 2

unfoldable pub shift_right : ℕ → ℕ → ℕ
shift_right zero n = n
shift_right (suc k) n = shift_right k n / 2

pub record SnowflakeGenerator : Type 0 where
  pub worker_id : ℕ
  pub process_id : ℕ
  pub increment : ℕ
  pub last_id : ℕ

-- `SnowflakeGenerator.__init__`
unfoldable pub create : ℕ → ℕ → SnowflakeGenerator
create worker_id process_id = record {
  worker_id = bit_and worker_id 0x1f;
  process_id = bit_and process_id 0x1f;
  increment = 0;
  last_id = 0;
}

-- The id of a timestamp.
unfoldable pub compose : ℕ → ℕ → ℕ → ℕ → ℕ
unfolding shift_left
compose timestamp_ms worker_id process_id increment =
    bit_or
      (bit_or (bit_or (shift_left 22 timestamp_ms) (shift_left 17 worker_id))
        (shift_left 12 process_id))
      increment

-- Ids only grow.
abbrev pub above : ℕ → ℕ → ℕ
above last_id snowflake = if leb snowflake last_id then last_id + 1 else snowflake

-- `generate` at a time of the clock, by the id and the generator behind it.
unfoldable pub generate : ℕ → SnowflakeGenerator → ℕ × SnowflakeGenerator
unfolding compose
generate now g =
    let increment = bit_and (g.increment + 1) 0xfff in
    let snowflake =
      above g.last_id (compose (now - discord_epoch_ms) g.worker_id g.process_id increment) in
    (snowflake, record g { increment = increment; last_id = snowflake })

-- `snowflake_time`
unfoldable pub snowflake_time : ℕ → ℕ
unfolding shift_right
snowflake_time snowflake = shift_right 22 snowflake + discord_epoch_ms

-- The ids of one call after another.
unfoldable pub generate_all : List ℕ → SnowflakeGenerator → List ℕ
unfolding generate
generate_all [] g = []
generate_all (now ∷ later) g = let (id, g') = generate now g in id ∷ generate_all later g'
