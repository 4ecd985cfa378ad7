-- ===== src/Base/Decimal.antt =====
-- str(n) and int(s): numbers as decimal texts.
use Prim.Native.Nat.{ℕ, zero, suc, ◌+◌, ◌-◌, ◌*◌, ◌/◌, ◌%◌}
use Prim.Native.String.{String, ◌++◌}
use mathlib.Core.Bool.{◌&&◌}
use mathlib.Core.Option.{Option, none, some}
use mathlib.Core.List.{List, [], ◌∷◌}
use quant_stock.Base.Tests.{ltb, leb, ◌==◌, if◌then◌else◌}
use quant_stock.Base.Text.{codes}

abbrev pub digit : ℕ → String
digit d =
    if d == 0
    then "0"
    else if d == 1
    then "1"
    else if d == 2
    then "2"
    else if d == 3
    then "3"
    else if d == 4
    then "4"
    else if d == 5
    then "5"
    else if d == 6
    then "6"
    else if d == 7
    then "7"
    else if d == 8
    then "8"
    else "9"

unfoldable pub show_from : ℕ → ℕ → String
show_from zero n = ""
show_from (suc fuel) n =
    let front = show_from fuel (n / 10) in if ltb n 10 then digit n else front ++ digit (n % 10)

-- str(n): fuel for each digit, of which there are at most n + 1
unfoldable pub show : ℕ → String
show n = show_from (suc n) n

read_codes : ℕ → List ℕ → Option ℕ
read_codes n [] = some n
read_codes n (c ∷ cs) =
    let rest = read_codes (n * 10 + (c - 48)) cs in if leb 48 c && leb c 57 then rest else none

-- int(s), for texts of digits; any other text is refused
unfoldable pub read : String → Option ℕ
unfolding read_codes
read String.[] = none
read s = read_codes 0 (codes s)
