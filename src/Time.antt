-- ===== src/Time.antt =====
-- cpp/src/marko/time.hpp: the sleeps, and the timeout of `settimeout` as a `struct timeval`.
-- `long` has 64 bits here; `get_time-bounds` in Time/Timeout says why no step of `get_time` wraps.
pub mod Timeout
pub mod Sleeps
use marko.Base.{ℕ}
use marko.Base.Int.{ℤ, pos, ◌*ℤ◌, ◌-ℤ◌, tdiv, tmod}
use marko.System.{Timeval, System}

-- A duration is its number of microseconds.
module _ (S : System) where
  unfoldable pub msleep : ℤ → S.World → S.World
  msleep msec = S.sleep_for (msec *ℤ pos 1000)

  unfoldable pub usleep : ℤ → S.World → S.World
  usleep usec = S.sleep_for usec

  unfoldable pub sleep : ℤ → S.World → S.World
  sleep sec = S.sleep_for (sec *ℤ pos 1000000)

unfoldable pub get_time : ℤ → Timeval
unfolding ◌*ℤ◌ ◌-ℤ◌
get_time timeout_msec = record {
  tv_sec = tdiv timeout_msec 1000;
  tv_usec = tmod (timeout_msec -ℤ tdiv timeout_msec 1000 *ℤ pos 1000) 1000;
}
