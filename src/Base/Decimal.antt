-- ===== src/Base/Decimal.antt =====
-- `std::to_string` of an unsigned number, and the text of an `int` under `%d`.
use Prim.Native.Nat.{ℕ, zero, suc, ◌/◌, ◌%◌}
use Prim.Native.String.{String, ◌++◌ as ◌<>◌}
use marko.Base.Tests.{ltb, if◌then◌else◌}
use marko.Base.Int.{ℤ, pos, negsuc}

abbrev digit : ℕ → String
digit zero = "0"
digit (suc zero) = "1"
digit (suc (suc zero)) = "2"
digit (suc (suc (suc zero))) = "3"
digit (suc (suc (suc (suc zero)))) = "4"
digit (suc (suc (suc (suc (suc zero))))) = "5"
digit (suc (suc (suc (suc (suc (suc zero)))))) = "6"
digit (suc (suc (suc (suc (suc (suc (suc zero))))))) = "7"
digit (suc (suc (suc (suc (suc (suc (suc (suc zero)))))))) = "8"
digit _ = "9"

-- A number has no more digits than the number, or one.
decimal_within : ℕ → ℕ → String
decimal_within zero n = ""
decimal_within (suc fuel) n =
    let rest = decimal_within fuel (n / 10) in if ltb n 10 then digit n else rest <> digit (n % 10)

unfoldable pub to_decimal : ℕ → String
unfolding decimal_within
to_decimal n = decimal_within (suc n) n

unfoldable pub int_to_decimal : ℤ → String
unfolding to_decimal
int_to_decimal (pos n) = to_decimal n
int_to_decimal (negsuc n) = "-" <> to_decimal (suc n)
