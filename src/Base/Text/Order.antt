-- ===== src/Base/Text/Order.antt =====
-- The order of texts: by characters, which is also that of the bytes.
use Prim.Native.Nat.{Ordering, compare as compare_ℕ}
use Prim.Native.Char.{code}
use Prim.Native.String.compare
use Prim.Native.String.{String, [], ◌∷◌, compare as compare_text, then}
use mathlib.Core.Path.{◌≡◌, refl, ◌∙◌, sym, ap}
use native.Mathlib.Omega.{arith}
use text.Mathlib.TextPositions.{compare_refl}

-- The first text comes before the second.
abbrev pub Before : String → String → Type 0
Before s t = compare_text s t ≡ Ordering.lt

abbrev flipped : Ordering → Ordering
flipped Ordering.lt = Ordering.gt
flipped Ordering.eq = Ordering.eq
flipped Ordering.gt = Ordering.lt

compare_flipped : (s t : String) → compare_text t s ≡ flipped (compare_text s t)
compare_flipped [] [] = rw (compare.nil-nil) refl
compare_flipped [] (d ∷ t) = rw (compare.nil-cons d t, compare.cons-nil d t) refl
compare_flipped (c ∷ s) [] = rw (compare.nil-cons c s, compare.cons-nil c s) refl
compare_flipped (c ∷ s) (d ∷ t) =
    rw (compare.cons-cons c d s t, compare.cons-cons d c t s) (ground (arith, compare_flipped s t))

pub Before-flip : (s t : String) → compare_text s t ≡ Ordering.gt → Before t s
Before-flip s t h = compare_flipped s t ∙ ap flipped h

pub Before-irrefl : (s : String) → Before s s → ⊥
Before-irrefl s h = cc (compare_refl s)

pub Before-asym : (s t : String) → Before s t → Before t s → ⊥
Before-asym s t h k = cc (compare_flipped s t)

pub Before-trans : (s t u : String) → Before s t → Before t u → Before s u
Before-trans [] [] u h k = absurd (Before-irrefl [] h)
Before-trans [] (d ∷ t) [] h k = absurd (Before-asym [] (d ∷ t) h k)
Before-trans [] (d ∷ t) (e ∷ u) h k = compare.nil-cons e u
Before-trans (c ∷ s) [] u h k = absurd (cc (compare.cons-nil c s))
Before-trans (c ∷ s) (d ∷ t) [] h k = absurd (cc (compare.cons-nil d t))
Before-trans (c ∷ s) (d ∷ t) (e ∷ u) h k =
    let h' : then (compare_ℕ (code c) (code d)) (compare_text s t) ≡ Ordering.lt =
      sym (compare.cons-cons c d s t) ∙ h in
    let k' : then (compare_ℕ (code d) (code e)) (compare_text t u) ≡ Ordering.lt =
      sym (compare.cons-cons d e t u) ∙ k in
    compare.cons-cons c e s u ∙ ground (arith, h', k', Before-trans s t u)
