-- ===== src/Tests/Programs.antt =====
-- Whole programs and tests.
use marko.Base.{◌≡◌, refl, true, not, ◌&&◌, [], ◌∷◌, if◌then◌else◌}
use marko.Base.Int.{pos, is_negative, beq_ℤ}
use marko.System.Loopback.Meets.{loopback-Descriptors}
use marko.Info.Safety.{opened, naming}
use marko.Examples.Ps
use marko.Examples.Rr
use marko.Examples.Closing.{is_open-mains}
use marko.Tests.Setting.{S, machine}
use marko.Tests.Structs.{ten_thousandths, data_codec, asks, answers}

is_open-mains_example :
    let D = loopback-Descriptors (97 ∷ 98 ∷ []) in
    let left =
      if beq_ℤ (pos 5) (opened S D machine).0
        && (not (is_negative (opened S D machine).0) && is_negative (naming S D machine))
      then true
      else D.is_open machine (pos 5) in
    (D.is_open (Ps.main S ten_thousandths data_codec ("ps" ∷ "p" ∷ []) machine).1 (pos 5) ≡ left)
    × (D.is_open (Rr.main S ten_thousandths asks answers ("rr" ∷ "request" ∷ []) machine).1 (pos 5)
        ≡ left)
unfolding loopback-Descriptors
is_open-mains_example =
    is_open-mains S (loopback-Descriptors (97 ∷ 98 ∷ [])) refl (λ t w d. refl) ten_thousandths
      data_codec asks answers ("ps" ∷ "p" ∷ []) ("rr" ∷ "request" ∷ []) machine (pos 5)
