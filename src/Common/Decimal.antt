-- ===== src/Common/Decimal.antt =====
-- Decimal texts: `strconv.Itoa`, which `%v` and `%d` print too, `strconv.Atoi`, and the conversion
-- of an `int` to an `int32`.
use Prim.Native.Nat.{ℕ, zero, suc, ◌+◌, ◌-◌, ◌*◌, ◌/◌, ◌%◌, ◌^◌}
use Prim.Native.Char.{Char, code}
use Prim.Native.String.{String, ◌++◌}
use mathlib.Core.Bool.{◌&&◌}
use mathlib.Core.Option.{Option, none, some}
use grafana_operator.Common.Tests.{ltb, leb, eqb, if◌then◌else◌}
use grafana_operator.Common.Int.{ℤ, pos, negsuc}

-- The character of a digit below ten.
unfoldable pub digit : ℕ → Char
digit zero = "0"
digit (suc zero) = "1"
digit (suc (suc zero)) = "2"
digit (suc (suc (suc zero))) = "3"
digit (suc (suc (suc (suc zero)))) = "4"
digit (suc (suc (suc (suc (suc zero))))) = "5"
digit (suc (suc (suc (suc (suc (suc zero)))))) = "6"
digit (suc (suc (suc (suc (suc (suc (suc zero))))))) = "7"
digit (suc (suc (suc (suc (suc (suc (suc (suc zero)))))))) = "8"
digit _ = "9"

-- The digits of `n` in front of `acc`; the fuel `n + 1` is more than the digits of `n`.
unfoldable pub digits : ℕ → ℕ → String → String
unfolding digit
digits zero n acc = acc
digits (suc f) n acc =
    let acc' = String.◌∷◌ (digit (n % 10)) acc in
    let rest = digits f (n / 10) acc' in if ltb n 10 then acc' else rest

-- `strconv.Itoa`, `fmt.Sprintf("%v", i)`
unfoldable pub itoa : ℤ → String
unfolding digits
itoa (pos n) = digits (n + 1) n ""
itoa (negsuc n) = "-" ++ digits (n + 2) (n + 1) ""

-- The value of a text of digits, in front of which stands `n`.
unfoldable pub read_digits : ℕ → String → Option ℕ
read_digits n String.[] = some n
read_digits n (String.◌∷◌ c s) =
    let d = code c in
    let rest = read_digits (n * 10 + (d - 48)) s in if leb 48 d && leb d 57 then rest else none

-- A sign is followed by at least one digit.
unfoldable pub read_number : String → Option ℕ
unfolding read_digits
read_number String.[] = none
read_number (String.◌∷◌ c s) = read_digits 0 (String.◌∷◌ c s)

abbrev pub max_int64 : ℕ
max_int64 = 2 ^ 63 - 1

-- A number out of the range of an `int` is an error.
abbrev pub positive : Option ℕ → Option ℤ
positive none = none
positive (some n) = if leb n max_int64 then some (pos n) else none

abbrev pub negative : Option ℕ → Option ℤ
negative none = none
negative (some zero) = some (pos 0)
negative (some (suc n)) = if leb n max_int64 then some (negsuc n) else none

-- `strconv.Atoi`, with `none` for an error
unfoldable pub atoi : String → Option ℤ
unfolding read_number
atoi String.[] = none
atoi (String.◌∷◌ c s) =
    if eqb (code c) b'+'
    then positive (read_number s)
    else if eqb (code c) b'-'
    then negative (read_number s)
    else positive (read_number (String.◌∷◌ c s))

-- The `int32` of a residue modulo 2^32.
abbrev pub of_bits32 : ℕ → ℤ
of_bits32 n = if ltb n (2 ^ 31) then pos n else negsuc (2 ^ 32 - 1 - n)

-- `int32(i)` wraps round.
unfoldable pub to_int32 : ℤ → ℤ
to_int32 (pos n) = of_bits32 (n % 2 ^ 32)
to_int32 (negsuc n) = of_bits32 (2 ^ 32 - 1 - n % 2 ^ 32)
