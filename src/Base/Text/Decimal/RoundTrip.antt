-- ===== src/Base/Text/Decimal/RoundTrip.antt =====
-- Reading back what `FormatInt` prints.
use Prim.Native.Char.{code}
use Prim.Native.Nat.{ℕ, zero, suc, ◌+◌, ◌-◌, ◌*◌, ◌/◌, ◌%◌, ◌^◌, ◌≤◌, ◌<◌}
use Prim.Native.String.{String, [], ◌∷◌}
use mathlib.Core.Bool.{Bool, false, true}
use mathlib.Core.Option.{none, some}
use mathlib.Core.Path.{◌≡◌, refl}
use native.Mathlib.Decide.{dec_lt}
use native.Mathlib.Omega.{arith}
use insights_remote.Base.Tests.{Bool-cases, nat_eq}
use mathlib.Core.Logic.{inl, inr}
use insights_remote.Base.Int.{ℤ, pos, negsuc, IsI64}
use insights_remote.Base.Text.Decimal.{
  number, failed, syntax, range, Scan, signed, scan, parse_uint, parse_int, digit, emit,
  format_uint, format_int,
}

code-digit : (d : ℕ) → d < 10 → code (digit d) ≡ b'0' + d
code-digit zero h = refl
code-digit (suc zero) h = refl
code-digit (suc (suc zero)) h = refl
code-digit (suc (suc (suc zero))) h = refl
code-digit (suc (suc (suc (suc zero)))) h = refl
code-digit (suc (suc (suc (suc (suc zero))))) h = refl
code-digit (suc (suc (suc (suc (suc (suc zero)))))) h = refl
code-digit (suc (suc (suc (suc (suc (suc (suc zero))))))) h = refl
code-digit (suc (suc (suc (suc (suc (suc (suc (suc zero)))))))) h = refl
code-digit (suc (suc (suc (suc (suc (suc (suc (suc (suc n))))))))) h =
    let e : n ≡ 0 = omega arith in rw e refl

-- Reading the last digit behind the number that the digits before it spell.
scan_last :
    (max n : ℕ) (out : String) → n ≤ max → scan max (digit (n % 10) ∷ out) (n / 10) ≡ scan max out n
unfolding scan
scan_last max n out h =
    let m : n / 10 * 10 + (code (digit (n % 10)) - b'0') ≡ n =
      omega (arith, code-digit (n % 10) (omega arith)) in
    rw m (ground (arith, code-digit (n % 10) (omega arith)))

scan-emit :
    (max rounds n : ℕ) (out : String)
    → n ≤ rounds
    → n ≤ max
    → scan max (emit rounds n out) 0 ≡ scan max out n
unfolding emit
scan-emit max zero n out enough fits = let none_left : n ≡ 0 = omega arith in rw none_left refl
scan-emit max (suc rounds) n out enough fits =
    ground (arith, scan_last max n out fits, scan-emit max rounds (n / 10) (digit (n % 10) ∷ out))

-- A number past the bound is found out on the way.
scan_last_range :
    (max n : ℕ) (out : String) → max < n → scan max (digit (n % 10) ∷ out) (n / 10) ≡ failed range
unfolding scan
scan_last_range max n out h =
    let m : n / 10 * 10 + (code (digit (n % 10)) - b'0') ≡ n =
      omega (arith, code-digit (n % 10) (omega arith)) in
    rw m (ground (arith, code-digit (n % 10) (omega arith)))

scan-emit_range :
    (max rounds n : ℕ) (out : String)
    → n ≤ rounds
    → max < n
    → scan max (emit rounds n out) 0 ≡ failed range
unfolding emit
scan-emit_range max zero n out enough over = absurd (omega arith)
scan-emit_range max (suc rounds) n out enough over = ground (
  arith,
  scan_last_range max n out over,
  scan-emit_range max rounds (n / 10) (digit (n % 10) ∷ out),
  scan-emit max rounds (n / 10) (digit (n % 10) ∷ out),
)

-- The first character printed of a number is a digit.
abbrev StartsWithDigit : String → Type 0
StartsWithDigit [] = ⊥
StartsWithDigit (c ∷ s) = (b'0' ≤ code c) × (code c ≤ b'9')

cons-StartsWithDigit : (d : ℕ) (s : String) → d < 10 → StartsWithDigit (digit d ∷ s)
cons-StartsWithDigit d s h = omega (arith, code-digit d h)

emit-StartsWithDigit :
    (rounds n : ℕ) (out : String) → StartsWithDigit out → StartsWithDigit (emit rounds n out)
unfolding emit
emit-StartsWithDigit zero n out h = h
emit-StartsWithDigit (suc rounds) n out h = elim (Bool-cases (nat_eq n 0)) [
  | inl zero_left ↦ rw zero_left h
  | inr some_left ↦
      rw some_left
        (emit-StartsWithDigit rounds (n / 10) _ (cons-StartsWithDigit (n % 10) out (omega arith)))
]

format_uint-suc : (n : ℕ) → format_uint (suc n) ≡ emit n (suc n / 10) (digit (suc n % 10) ∷ "")
unfolding format_uint
format_uint-suc n = ground arith

format_uint-StartsWithDigit : (n : ℕ) → StartsWithDigit (format_uint n)
format_uint-StartsWithDigit zero = unfold format_uint in omega arith
format_uint-StartsWithDigit (suc n) =
    rw format_uint-suc
      (emit-StartsWithDigit n (suc n / 10) _ (cons-StartsWithDigit (suc n % 10) "" (omega arith)))

scan-nil : (max n : ℕ) → scan max "" n ≡ number n
unfolding scan
scan-nil max n = refl

scan-format_uint : (max n : ℕ) → n ≤ max → scan max (format_uint n) 0 ≡ number n
unfolding format_uint
scan-format_uint max zero h = unfold scan in ground arith
scan-format_uint max (suc n) h =
    ground (arith, scan-emit max (suc n) (suc n) "" (omega arith) h, scan-nil max (suc n))

parse_uint-scan :
    (bits : ℕ) (s : String) → StartsWithDigit s → parse_uint bits s ≡ scan (2 ^ bits - 1) s 0
unfolding parse_uint
parse_uint-scan bits [] h = absurd h
parse_uint-scan bits (c ∷ s) h = refl

-- A text that starts with a digit has no sign.
parse_int_unsigned :
    (bits : ℕ) (s : String)
    → StartsWithDigit s
    → parse_int bits s ≡ signed bits false (parse_uint bits s)
unfolding parse_int
parse_int_unsigned bits [] h = absurd h
parse_int_unsigned bits (c ∷ s) h = ground arith

-- Every int64 is read back from its decimal print, with no error.
pub parse_int-format_int : (a : ℤ) → IsI64 a → parse_int 64 (format_int a) ≡ (a, none)
unfolding format_int
parse_int-format_int (pos n) h =
    rw
      (
        parse_int_unsigned 64 _ (format_uint-StartsWithDigit n),
        parse_uint-scan 64 _ (format_uint-StartsWithDigit n),
        scan-format_uint (2 ^ 64 - 1) n (omega arith),
      )
      (ground arith)
parse_int-format_int (negsuc n) h =
    unfold parse_int in
    rw
      (
        parse_uint-scan 64 _ (format_uint-StartsWithDigit (suc n)),
        scan-format_uint (2 ^ 64 - 1) (suc n) (omega arith),
      )
      (ground arith)

signed-IsI64 : (neg : Bool) (r : Scan) → IsI64 (signed 64 neg r).0
signed-IsI64 neg (failed syntax) = omega arith
signed-IsI64 false (failed range) = omega arith
signed-IsI64 true (failed range) = omega arith
signed-IsI64 false (number n) = ground arith
signed-IsI64 true (number zero) = omega arith
signed-IsI64 true (number (suc n)) = ground arith

-- Whatever the text, the number is in the range of an int64.
pub parse_int-IsI64 : (s : String) → IsI64 (parse_int 64 s).0
unfolding parse_int
parse_int-IsI64 [] = omega arith
parse_int-IsI64 (c ∷ s) = ground (
  arith,
  signed-IsI64 false (parse_uint 64 s),
  signed-IsI64 true (parse_uint 64 s),
  signed-IsI64 false (parse_uint 64 (c ∷ s)),
)

scan-format_uint_range : (max n : ℕ) → max < n → scan max (format_uint n) 0 ≡ failed range
unfolding format_uint
scan-format_uint_range max zero h = absurd (omega arith)
scan-format_uint_range max (suc n) h =
    ground (arith, scan-emit_range max (suc n) (suc n) "" (omega arith) h)

-- A number at or past 2 ^ 31 is read as 2 ^ 31 - 1 where 32 bits are asked for.
pub parse_int-format_int_32 :
    (n : ℕ) → 2 ^ 31 ≤ n → parse_int 32 (format_int (pos n)) ≡ (pos (2 ^ 31 - 1), some range)
unfolding format_int
parse_int-format_int_32 n h =
    rw
      (
        parse_int_unsigned 32 _ (format_uint-StartsWithDigit n),
        parse_uint-scan 32 _ (format_uint-StartsWithDigit n),
      )
      (elim (dec_lt (2 ^ 32 - 1) n) [
        | yes over ↦ rw (scan-format_uint_range (2 ^ 32 - 1) n over) refl
        | no fits ↦ rw (scan-format_uint (2 ^ 32 - 1) n (omega arith)) (ground arith)
      ])
