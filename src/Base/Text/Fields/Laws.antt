-- ===== src/Base/Text/Fields/Laws.antt =====
-- Separators in texts: what `strings.Cut` and `strings.Split` make of parts without them.
use Prim.Native.Char.{Char, code}
use Prim.Native.String.{[], ◌∷◌}
use text.Mathlib.TextLemmas.{nil-append, cons-append}
use insights_remote.Base.Tests.{nat_eq}
use mathlib.Core.Path.{◌≡◌, refl}
use mathlib.Core.Bool.{true, false}
use mathlib.Core.Option.{none, some}
use mathlib.Core.List.{[], ◌∷◌}
use Prim.Native.Nat.{ℕ}
use Prim.Native.String.{String}
use native.Mathlib.Omega.{arith}
use insights_remote.Base.Text.{◌◂◌}
use insights_remote.Base.Text.Fields.{cut, split}

-- The text does not have the character.
abbrev pub Lacks : ℕ → String → Type 0
Lacks sep [] = Unit
Lacks sep (c ∷ s) = (nat_eq (code c) sep ≡ false) × Lacks sep s

pub cut-append :
    (sep : ℕ) (a b : String) (c : Char)
    → Lacks sep a
    → nat_eq (code c) sep ≡ true
    → cut sep (a ◂ (c ∷ b)) ≡ some (a, b)
unfolding cut
cut-append sep [] b c h at_sep = rw (nil-append (c ∷ b)) (ground (arith, at_sep))
cut-append sep (d ∷ a) b c (differs, h) at_sep =
    rw (cons-append d a (c ∷ b)) (ground (arith, differs, cut-append sep a b c h at_sep))

pub cut-Lacks : (sep : ℕ) (a : String) → Lacks sep a → cut sep a ≡ none
unfolding cut
cut-Lacks sep [] h = refl
cut-Lacks sep (d ∷ a) (differs, h) = ground (arith, differs, cut-Lacks sep a h)

pub split-append :
    (sep : ℕ) (a b : String) (c : Char)
    → Lacks sep a
    → nat_eq (code c) sep ≡ true
    → split sep (a ◂ (c ∷ b)) ≡ a ∷ split sep b
unfolding split
split-append sep [] b c h at_sep = rw (nil-append (c ∷ b)) (ground (arith, at_sep))
split-append sep (d ∷ a) b c (differs, h) at_sep =
    rw (cons-append d a (c ∷ b)) (ground (arith, differs, split-append sep a b c h at_sep))

pub split-Lacks : (sep : ℕ) (a : String) → Lacks sep a → split sep a ≡ a ∷ []
unfolding split
split-Lacks sep [] h = refl
split-Lacks sep (d ∷ a) (differs, h) = ground (arith, differs, split-Lacks sep a h)

-- What is before and behind the separator, where the text before it does not have it.
pub cut_separated :
    (sep : ℕ) (a b : String) (c : Char)
    → Lacks sep a
    → nat_eq (code c) sep ≡ true
    → cut sep (a ◂ (c ∷ []) ◂ b) ≡ some (a, b)
cut_separated sep a b c h at_sep =
    rw (cons-append c [] b, nil-append b) (cut-append sep a b c h at_sep)

pub Lacks-append : (sep : ℕ) (a b : String) → Lacks sep a → Lacks sep b → Lacks sep (a ◂ b)
Lacks-append sep [] b h k = rw (nil-append b) k
Lacks-append sep (c ∷ a) b (differs, h) k =
    rw (cons-append c a b) (differs, Lacks-append sep a b h k)
