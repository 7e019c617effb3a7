-- ===== src/Base/Text.antt =====
-- Texts for messages: joining, and Go's `%d`.
use Prim.Native.String
use rudr_x.Base.{String, if◌then◌else◌, ltb, refl, suc, zero, ℕ, ◌%◌, ◌/◌, ◌≡◌}
use rudr_x.Base.Int.{negsuc, pos, ℤ}

infixr 65 ◌+++◌
abbrev pub ◌+++◌ : String → String → String
a +++ b = String.◌++◌ a b

digit : ℕ → String
digit zero = "0"
digit (suc zero) = "1"
digit (suc (suc zero)) = "2"
digit (suc (suc (suc zero))) = "3"
digit (suc (suc (suc (suc zero)))) = "4"
digit (suc (suc (suc (suc (suc zero))))) = "5"
digit (suc (suc (suc (suc (suc (suc zero)))))) = "6"
digit (suc (suc (suc (suc (suc (suc (suc zero))))))) = "7"
digit (suc (suc (suc (suc (suc (suc (suc (suc zero)))))))) = "8"
digit _ = "9"

-- `n + 1` rounds are enough for `n`, which each round divides by 10.
decimal_from : ℕ → ℕ → String
decimal_from zero n = ""
decimal_from (suc fuel) n =
    let front = decimal_from fuel (n / 10) in if ltb n 10 then digit n else front +++ digit (n % 10)

-- `%d`.
unfoldable pub decimal : ℤ → String
unfolding digit decimal_from
decimal (pos n) = decimal_from (suc n) n
decimal (negsuc n) = "-" +++ decimal_from (suc (suc n)) (suc n)

decimal_test : decimal (negsuc 1203) ≡ "-1204"
unfolding decimal
decimal_test = refl
