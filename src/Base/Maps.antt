-- ===== src/Base/Maps.antt =====
-- Go's `map[string]V`: `none` is the nil map, and the entries stand in the order in which a `range`
-- over the map meets them, which Go leaves open.
use mathlib.Core.Path.{◌≡◌, refl}
use mathlib.Core.Bool.{Bool, true}
use mathlib.Core.Option.{Option, none, some}
use mathlib.Core.List.{List, [], ◌∷◌}
use Prim.Native.String.{String}
use mathlib.Core.Logic.{inl, inr}
use native.Mathlib.Omega.{arith}
use text.Mathlib.Text.{◌==◌}
use text.Mathlib.TextEquality.{eq_iff}
use text.Mathlib.TextPositions.{eq_refl}
use insights_remote.Base.Tests.{if◌then◌else◌, Bool-cases}
use insights_remote.Base.Lists.{any}

abbrev pub Entries {ℓ} : Type ℓ → Type ℓ
Entries V = List (String × V)

abbrev pub GoMap {ℓ} : Type ℓ → Type ℓ
GoMap V = Option (Entries V)

module _ {ℓ} {V : Type ℓ} where
  unfoldable pub lookup : String → Entries V → Option V
  lookup wanted [] = none
  lookup wanted ((key, held) ∷ more) = if key == wanted then some held else lookup wanted more

  -- m[key] = new
  unfoldable pub insert : String → V → Entries V → Entries V
  insert at_key new [] = (at_key, new) ∷ []
  insert at_key new ((key, held) ∷ more) =
      if key == at_key then (key, new) ∷ more else (key, held) ∷ insert at_key new more

  -- delete(m, k)
  unfoldable pub remove : String → Entries V → Entries V
  remove k [] = []
  remove k ((j, w) ∷ m) = let rest = remove k m in if j == k then rest else (j, w) ∷ rest

  -- for k, v := range new { m[k] = v }
  unfoldable pub insert_all : Entries V → Entries V → Entries V
  insert_all [] m = m
  insert_all ((k, v) ∷ new) m = insert_all new (insert k v m)

  -- v, ok := m[k]; a nil map reads as an empty one
  abbrev pub entries : GoMap V → Entries V
  entries none = []
  entries (some m) = m

  abbrev pub at : GoMap V → String → Option V
  at m k = lookup k (entries m)

  -- Reading behind a write, at any two keys.
  pub lookup-insert :
      (at_key wanted : String) (new : V) (m : Entries V)
      → lookup wanted (insert at_key new m)
        ≡ (if at_key == wanted then some new else lookup wanted m)
  unfolding lookup insert
  lookup-insert at_key wanted new [] = refl
  lookup-insert at_key wanted new ((key, held) ∷ more) = ground (
    arith,
    lookup-insert at_key wanted new more,
    eq_iff key at_key,
    eq_iff key wanted,
    eq_iff at_key wanted,
  )

  pub lookup-insert_self : (k : String) (v : V) (m : Entries V) → lookup k (insert k v m) ≡ some v
  lookup-insert_self k v m = simp (lookup-insert, eq_refl)

  pub lookup-remove :
      (k j : String) (m : Entries V) → lookup j (remove k m) ≡ (if k == j then none else lookup j m)
  unfolding lookup remove
  lookup-remove k j [] = ground arith
  lookup-remove k j ((i, w) ∷ m) =
      ground (arith, eq_iff i k, eq_iff i j, eq_iff k j, lookup-remove k j m)

  -- No key stands twice, as in every Go map.
  abbrev pub IsMap : Entries V → Type ℓ
  IsMap [] = Unit
  IsMap ((k, v) ∷ m) = (lookup k m ≡ none) × IsMap m

  pub insert-IsMap : (k : String) (v : V) (m : Entries V) → IsMap m → IsMap (insert k v m)
  unfolding lookup insert
  insert-IsMap k v [] h = (refl, tt)
  insert-IsMap k v ((j, w) ∷ m) (fresh, h) =
      ground (arith, eq_iff j k, eq_iff k j, insert-IsMap k v m h, lookup-insert k j v m)

  abbrev pub or_else : Option V → Option V → Option V
  or_else none old = old
  or_else (some v) old = some v

  -- A range over new entries leaves each of them in the map, and the rest as it was.
  pub lookup-insert_all :
      (j : String) (new m : Entries V)
      → IsMap new
      → lookup j (insert_all new m) ≡ or_else (lookup j new) (lookup j m)
  unfolding lookup insert_all
  lookup-insert_all j [] m h = refl
  lookup-insert_all j ((k, v) ∷ new) m (fresh, h) =
      ground (arith, eq_iff k j, lookup-insert_all j new (insert k v m) h, lookup-insert k j v m)

  pub insert_all-IsMap : (new m : Entries V) → IsMap m → IsMap (insert_all new m)
  unfolding insert_all
  insert_all-IsMap [] m h = h
  insert_all-IsMap ((k, v) ∷ new) m h = insert_all-IsMap new (insert k v m) (insert-IsMap k v m h)

  pub any-lookup :
      (k : String) (p : String × V → Bool) (m : Entries V) {v : V}
      → lookup k m ≡ some v
      → ((u : V) → p (k, u) ≡ true)
      → any p m ≡ true
  unfolding lookup
  any-lookup k p [] h good = cc
  any-lookup k p ((j, w) ∷ m) h good = elim (Bool-cases (j == k)) [
    | inl same ↦ rw ((eq_iff j k).0 same, good w)
    | inr other ↦ ground (arith, any-lookup k p m (rw other at h) good)
  ]

pub ruleset map_laws = (lookup-insert, lookup-remove)
