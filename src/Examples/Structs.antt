-- ===== src/Examples/Structs.antt =====
-- What the programs of cpp/examples use of `pack`, of `unpack` and of `double`, as parameters.
use marko.Base.{ℕ, String, Bool}
use marko.Base.Int.{ℤ}
use marko.System.{Message}

-- `pack<A>`, `unpack<A>` and `sizeof(A)`
pub record Codec (A : Type 0) : Type 0 where
  pub pack : A → Message
  pub unpack : Message → A
  pub size : ℕ

pub record Doubles : Type 1 where
  pub Double : Type 0
  -- The literal of these digits, of which so many stand behind the point.
  pub decimal : ℕ → ℕ → Double
  pub of_int : ℤ → Double
  pub times : Double → Double → Double
  pub equal : Double → Double → Bool
  -- As `<<` writes it.
  pub text : Double → String
