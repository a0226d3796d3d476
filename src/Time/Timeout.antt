-- ===== src/Time/Timeout.antt =====
-- What `get_time` puts into the fields of the timeout, and what `setsockopt` reads there.
use marko.Base.{ℕ, suc, ◌%◌, ◌/◌, ◌≤◌, ◌<◌, ◌^◌, ◌≡◌, ◌↔◌, arith}
use marko.Base.Int.{ℤ, pos, negsuc, pos_part, neg_part, sub_ℕ, ◌+ℤ◌, ◌*ℤ◌, ◌-ℤ◌, tdiv, tmod}
use marko.System.{Timeval}
use marko.Time.{get_time}

-- The duration that the system reads in a timeval: its seconds and microseconds.
abbrev pub duration_usec : Timeval → ℤ
duration_usec tv = tv.tv_sec *ℤ pos 1000000 +ℤ tv.tv_usec

-- A value of a 64-bit `long`.
abbrev pub IsLong : ℤ → Type 0
IsLong a = (pos_part a < 2 ^ 63) × (neg_part a ≤ 2 ^ 63)

get_time_pos :
    (n : ℕ) → get_time (pos n) ≡ record { tv_sec = pos (n / 1000); tv_usec = pos (n % 1000) }
unfolding get_time
get_time_pos n = ground arith

get_time_neg :
    (n : ℕ)
    → get_time (negsuc n)
      ≡ record { tv_sec = sub_ℕ 0 (suc n / 1000); tv_usec = sub_ℕ 0 (suc n % 1000) }
unfolding get_time
get_time_neg n = ground arith

-- For every timeout in milliseconds, negative ones too, `tv_sec` holds its whole seconds and
-- `tv_usec` the milliseconds that are left: together they are the timeout, the rest is less than
-- 1000 either way, and neither field has another sign than the timeout.
pub get_time-split :
    (t : ℤ)
    → ((get_time t).tv_sec *ℤ pos 1000 +ℤ (get_time t).tv_usec ≡ t)
      × (pos_part (get_time t).tv_usec < 1000)
      × (neg_part (get_time t).tv_usec < 1000)
      × (pos_part (get_time t).tv_sec ≤ pos_part t)
      × (neg_part (get_time t).tv_sec ≤ neg_part t)
      × (pos_part (get_time t).tv_usec ≤ pos_part t)
      × (neg_part (get_time t).tv_usec ≤ neg_part t)
unfolding ◌+ℤ◌ ◌*ℤ◌
get_time-split (pos n) = rw (get_time_pos n) (ground arith)
get_time-split (negsuc n) = rw (get_time_neg n) (ground arith)

-- The timeout that the system is given is the one asked for exactly when that is a number of whole
-- seconds: the milliseconds that are left go into a field that is read in microseconds.
pub duration_usec-get_time_iff :
    (t : ℤ) → (duration_usec (get_time t) ≡ t *ℤ pos 1000) ↔ (tmod t 1000 ≡ pos 0)
unfolding ◌+ℤ◌ ◌*ℤ◌
duration_usec-get_time_iff (pos n) = rw (get_time_pos n) (ground arith)
duration_usec-get_time_iff (negsuc n) = rw (get_time_neg n) (ground arith)

-- No step of `get_time` leaves the range of `long`, whatever `long` it is given.
pub get_time-bounds :
    (t : ℤ)
    → IsLong t
    → IsLong (tdiv t 1000)
      × IsLong (tdiv t 1000 *ℤ pos 1000)
      × IsLong (t -ℤ tdiv t 1000 *ℤ pos 1000)
      × IsLong (get_time t).tv_sec
      × IsLong (get_time t).tv_usec
unfolding ◌*ℤ◌ ◌-ℤ◌ get_time
get_time-bounds (pos n) h = ground arith
get_time-bounds (negsuc n) h = ground arith
