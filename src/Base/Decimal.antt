-- ===== src/Base/Decimal.antt =====
-- `str` of a natural number.
use Prim.Native.Nat.{ℕ, zero, suc, ◌/◌, ◌%◌}
use Prim.Native.String.{String, ◌++◌}
use user_delegated_auth_serv.Base.Tests.{ltb, nat_eq, if◌then◌else◌}

digit : ℕ → String
digit d =
    if nat_eq d 0
    then "0"
    else if nat_eq d 1
    then "1"
    else if nat_eq d 2
    then "2"
    else if nat_eq d 3
    then "3"
    else if nat_eq d 4
    then "4"
    else if nat_eq d 5
    then "5"
    else if nat_eq d 6
    then "6"
    else if nat_eq d 7
    then "7"
    else if nat_eq d 8
    then "8"
    else "9"

-- Each round drops the last digit, so `n` rounds are enough for `n`.
digits_of : ℕ → ℕ → String
digits_of zero n = digit n
digits_of (suc f) n =
    let front = digits_of f (n / 10) in if ltb n 10 then digit n else front ++ digit (n % 10)

unfoldable pub decimal : ℕ → String
unfolding digit digits_of
decimal n = digits_of n n
