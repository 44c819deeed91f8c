-- ===== src/Limiter/Speed.antt =====
-- How two speed limits combine, and the rate of the token bucket.
use v2sp.Prelude.{
  ◌==◌, nat_eq, ℤ, ◌*ℤ◌, quot, ◌≤ℤ◌, int_eq, wrap64, pos, negsuc, text_eq, ℕ, ◌*◌, ◌^◌, ◌<◌, ◌≡◌,
  ◌⊎◌, ◌&&◌, arith,
}
use v2sp.Limiter.{determine_speed_limit, byte_rate}

-- Of two limits that are not negative the result is one of the two, it exceeds neither unless that
-- one is 0 (no limit), and it is 0 only if both are.
pub determine_speed_limit_lem :
    (a b : ℤ)
    → pos 0 ≤ℤ a
    → pos 0 ≤ℤ b
    → let r = determine_speed_limit a b in
      ((r ≡ a) ⊎ (r ≡ b))
      × ((a ≡ pos 0) ⊎ (r ≤ℤ a))
      × ((b ≡ pos 0) ⊎ (r ≤ℤ b))
      × ((r == pos 0) ≡ (a == pos 0 && b == pos 0))
unfolding determine_speed_limit
determine_speed_limit_lem (pos a) (pos b) ha hb =
    (ground arith, ground arith, ground arith, ground arith)
determine_speed_limit_lem (negsuc a) b ha hb = absurd (omega arith)
determine_speed_limit_lem (pos a) (negsuc b) ha hb = absurd (omega arith)

-- A positive limit of `n` megabits that `int64` can scale is a rate of 125000 n bytes per second.
pub byte_rate_lem : (n : ℕ) → n * 1000000 < 2 ^ 63 → byte_rate (pos n) ≡ pos (n * 125000)
unfolding byte_rate quot ◌*ℤ◌ wrap64
byte_rate_lem n h = ground arith
