-- ===== src/Prelude/Decimal.antt =====
-- `fmt.Sprintf("%d", n)` of a number that is not negative.
use Prim.Native.Nat.{ℕ, zero, suc, ◌/◌, ◌%◌}
use Prim.Native.Char.{Char}
use Prim.Native.String.{String}
use mathlib.Core.Path.{◌≡◌, refl}
use kubemirror.Prelude.Tests.{if◌then◌else◌, nat_eq, ltb}

digit : ℕ → Char
digit d =
    if nat_eq d 0
    then "0"
    else if nat_eq d 1
    then "1"
    else if nat_eq d 2
    then "2"
    else if nat_eq d 3
    then "3"
    else if nat_eq d 4
    then "4"
    else if nat_eq d 5
    then "5"
    else if nat_eq d 6
    then "6"
    else if nat_eq d 7
    then "7"
    else if nat_eq d 8
    then "8"
    else "9"

-- The digits of `n` before a text; the fuel is more than the number of digits.
digits_before : ℕ → ℕ → String → String
unfolding digit
digits_before zero n rest = rest
digits_before (suc fuel) n rest =
    let more = digits_before fuel (n / 10) (String.◌∷◌ (digit (n % 10)) rest) in
    if ltb n 10 then String.◌∷◌ (digit n) rest else more

unfoldable pub decimal : ℕ → String
unfolding digits_before
decimal n = digits_before (suc n) n ""

decimal_example : decimal 1207 ≡ "1207"
unfolding decimal
decimal_example = refl
