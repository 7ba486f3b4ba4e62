-- ===== src/Base/Text.antt =====
-- What the program uses of Go's `strconv` and `strings`. Texts are walked by code points.
pub mod Decimal
pub mod Fields
pub mod Order
use Prim.Native.String
use Prim.Native.String.{String}
use text.Mathlib.Text.{◌==◌}
use mathlib.Core.Bool.{Bool, true, false, ◌||◌}
use mathlib.Core.Option.{Option, none, some}
use insights_remote.Base.Tests.{if◌then◌else◌}

-- strconv.ParseBool
unfoldable pub parse_bool : String → Option Bool
parse_bool s =
    if s == "1" || s == "t" || s == "T" || s == "TRUE" || s == "true" || s == "True"
    then some true
    else if s == "0" || s == "f" || s == "F" || s == "FALSE" || s == "false" || s == "False"
    then some false
    else none

-- The concatenation of texts, also where `fmt.Sprintf` puts its arguments one after the other.
infixr 65 ◌◂◌
abbrev pub ◌◂◌ : String → String → String
s ◂ t = String.◌++◌ s t
