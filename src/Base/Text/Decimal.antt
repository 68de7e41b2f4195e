-- ===== src/Base/Text/Decimal.antt =====
-- `fmt.Sprintf("%d", n)` for a number that is not negative.
use Prim.Native.String.{◌++◌ as text_append}
use go_r2ps_service.Base.{ℕ, zero, suc, ◌/◌, ◌%◌, ◌≡◌, refl, String, ltb, if◌then◌else◌}

digit : ℕ → String
digit zero = "0"
digit (suc zero) = "1"
digit (suc (suc zero)) = "2"
digit (suc (suc (suc zero))) = "3"
digit (suc (suc (suc (suc zero)))) = "4"
digit (suc (suc (suc (suc (suc zero))))) = "5"
digit (suc (suc (suc (suc (suc (suc zero)))))) = "6"
digit (suc (suc (suc (suc (suc (suc (suc zero))))))) = "7"
digit (suc (suc (suc (suc (suc (suc (suc (suc zero)))))))) = "8"
digit _ = "9"

-- A number has no more digits than itself plus one, so that much fuel is enough.
digits_of : ℕ → ℕ → String
unfolding digit
digits_of zero n = ""
digits_of (suc fuel) n =
    let more = digits_of fuel (n / 10) in
    if ltb n 10 then digit n else text_append more (digit (n % 10))

unfoldable pub decimal : ℕ → String
unfolding digits_of
decimal n = digits_of (suc n) n

decimal_tests : (decimal 0 ≡ "0") × (decimal 1042 ≡ "1042")
unfolding decimal
decimal_tests = (refl, refl)
