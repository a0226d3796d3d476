-- ===== src/Time/Sleeps.antt =====
-- The units of the three sleeps of cpp/src/marko/time.hpp.
use marko.Base.{◌≡◌, refl, ap, arith}
use marko.Base.Int.{ℤ, pos, negsuc, ◌*ℤ◌}
use marko.System.{System}
use marko.Time.{msleep, usleep, sleep}

thousandfold : (a : ℤ) → a *ℤ pos 1000000 ≡ (a *ℤ pos 1000) *ℤ pos 1000
unfolding ◌*ℤ◌
thousandfold (pos n) = ground arith
thousandfold (negsuc n) = ground arith

module _ (S : System) where
  -- A second is 1000 milliseconds, and each of them 1000 microseconds.
  sleep-msleep-usleep :
      (sec msec : ℤ) (w : S.World)
      → (sleep S sec w ≡ msleep S (sec *ℤ pos 1000) w)
        × (msleep S msec w ≡ usleep S (msec *ℤ pos 1000) w)
  unfolding sleep msleep usleep
  sleep-msleep-usleep sec msec w = (ap (λ d. S.sleep_for d w) (thousandfold sec), refl)
