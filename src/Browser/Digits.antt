-- ===== src/Browser/Digits.antt =====
-- A number in an f-string, with fuel for each of its digits.
use Prim.Native.String.{String, ◌++◌}
use apm_repo_sdk_python.Base.{ℕ, zero, suc, ◌/◌, ◌%◌, ltb, if◌then◌else◌}

-- Strings have their own `++`.
unfoldable digit_text : ℕ → String
digit_text zero = "0"
digit_text (suc zero) = "1"
digit_text (suc (suc zero)) = "2"
digit_text (suc (suc (suc zero))) = "3"
digit_text (suc (suc (suc (suc zero)))) = "4"
digit_text (suc (suc (suc (suc (suc zero))))) = "5"
digit_text (suc (suc (suc (suc (suc (suc zero)))))) = "6"
digit_text (suc (suc (suc (suc (suc (suc (suc zero))))))) = "7"
digit_text (suc (suc (suc (suc (suc (suc (suc (suc zero)))))))) = "8"
digit_text n = "9"

unfoldable pub decimal_text : ℕ → ℕ → String
unfolding digit_text
decimal_text zero n = ""
decimal_text (suc fuel) n =
    let higher = decimal_text fuel (n / 10) in
    if ltb n 10 then digit_text n else higher ++ digit_text (n % 10)
