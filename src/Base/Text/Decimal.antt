-- ===== src/Base/Text/Decimal.antt =====
-- `strconv.ParseInt` and `strconv.FormatInt` in base ten.
pub mod RoundTrip
use Prim.Native.Char.{Char, code}
use Prim.Native.Nat.{ℕ, zero, suc, ◌+◌, ◌-◌, ◌*◌, ◌/◌, ◌%◌, ◌^◌, ◌<◌}
use Prim.Native.String.{String, [], ◌∷◌}
use mathlib.Core.Bool.{Bool, true, false, ◌&&◌}
use mathlib.Core.Option.{Option, none, some}
use native.Mathlib.Omega.{arith}
use insights_remote.Base.Tests.{if◌then◌else◌, ltb, leb, nat_eq}
use insights_remote.Base.Int.{ℤ, pos, negsuc}

-- strconv.ErrSyntax and strconv.ErrRange
pub data NumError : Type 0 where
  syntax range : NumError

-- How a run over the digits ends.
pub data Scan : Type 0 where
  number : ℕ → Scan
  failed : NumError → Scan

-- The loop of `ParseUint`: a digit that would pass `max` ends it at once.
unfoldable pub scan : ℕ → String → ℕ → Scan
scan max [] n = number n
scan max (c ∷ s) n =
    let m = n * 10 + (code c - b'0') in
    let rest = scan max s m in
    if leb b'0' (code c) && leb (code c) b'9'
    then (if ltb max m then failed range else rest)
    else failed syntax

unfoldable pub parse_uint : ℕ → String → Scan
unfolding scan
parse_uint bits [] = failed syntax
parse_uint bits (c ∷ s) = scan (2 ^ bits - 1) (c ∷ s) 0

-- -n
abbrev pub negate : ℕ → ℤ
negate zero = pos zero
negate (suc n) = negsuc n

-- The number that `ParseInt` makes of the digits behind the sign; out of range it is the bound.
abbrev pub signed : ℕ → Bool → Scan → ℤ × Option NumError
signed bits neg (failed syntax) = (pos 0, some syntax)
signed bits false (failed range) = (pos (2 ^ (bits - 1) - 1), some range)
signed bits true (failed range) = (negate (2 ^ (bits - 1)), some range)
signed bits false (number n) =
    if leb (2 ^ (bits - 1)) n then (pos (2 ^ (bits - 1) - 1), some range) else (pos n, none)
signed bits true (number n) =
    if ltb (2 ^ (bits - 1)) n then (negate (2 ^ (bits - 1)), some range) else (negate n, none)

-- strconv.ParseInt(s, 10, bits)
unfoldable pub parse_int : ℕ → String → ℤ × Option NumError
unfolding parse_uint
parse_int bits [] = (pos 0, some syntax)
parse_int bits (c ∷ s) =
    if nat_eq (code c) b'+'
    then signed bits false (parse_uint bits s)
    else if nat_eq (code c) b'-'
    then signed bits true (parse_uint bits s)
    else signed bits false (parse_uint bits (c ∷ s))

-- The character of a digit.
abbrev pub digit : ℕ → Char
digit zero = "0"
digit (suc zero) = "1"
digit (suc (suc zero)) = "2"
digit (suc (suc (suc zero))) = "3"
digit (suc (suc (suc (suc zero)))) = "4"
digit (suc (suc (suc (suc (suc zero))))) = "5"
digit (suc (suc (suc (suc (suc (suc zero)))))) = "6"
digit (suc (suc (suc (suc (suc (suc (suc zero))))))) = "7"
digit (suc (suc (suc (suc (suc (suc (suc (suc zero)))))))) = "8"
digit (suc (suc (suc (suc (suc (suc (suc (suc (suc n))))))))) = "9"

-- The digits of a number in front of `out`, none for zero, in so many rounds at most.
unfoldable pub emit : ℕ → ℕ → String → String
emit zero n out = out
emit (suc rounds) n out =
    let rest = emit rounds (n / 10) (digit (n % 10) ∷ out) in if nat_eq n 0 then out else rest

-- A number is more than its tenth, so as many rounds as the number are enough.
unfoldable pub digits : ℕ → String → String
unfolding emit
digits n out = emit n n out

unfoldable pub format_uint : ℕ → String
unfolding digits
format_uint n = if nat_eq n 0 then "0" else digits n ""

-- strconv.FormatInt(n, 10)
unfoldable pub format_int : ℤ → String
unfolding format_uint
format_int (pos n) = format_uint n
format_int (negsuc n) = "-" ∷ format_uint (suc n)
