-- ===== src/Builds/ScanPod/Sorted.antt =====
-- `sort.Strings`: a list without repetition is sorted to the only ascending list of its elements.
use Prim.Native.Nat.{Ordering}
use Prim.Native.String
use mathlib.Core.Path.{subst}
use insights_remote.Base.{
  String, List, [], ◌∷◌, ◌≡◌, refl, sym, ◌∙◌, ap, Bool, true, false, ◌||◌, ◌==◌, eq_iff, eq_refl,
  ◌⊎◌, inl, inr, arith, any, All, Bool-cases,
}
use text.Mathlib.TextEquality.{path_by_compare}
use insights_remote.Base.Text.Order.{Before, Before-flip, Before-irrefl, Before-asym, Before-trans}
use insights_remote.Builds.ScanPod.{insert_sorted, sort_strings}

-- Each comes before all that are behind it.
abbrev pub Ascending : List String → Type 0
Ascending [] = Unit
Ascending (k ∷ ks) = All (Before k) ks × Ascending ks

abbrev pub has : String → List String → Bool
has k ks = any (λ j. j == k) ks

pub All-has : (x k : String) (ks : List String) → All (Before x) ks → has k ks ≡ true → Before x k
All-has x k [] h e = cc
All-has x k (j ∷ ks) (first, h) e = elim (Bool-cases (j == k)) [
  | inl same ↦ subst (Before x) ((eq_iff j k).0 same) first
  | inr other ↦ All-has x k ks h (ground (arith, other, e))
]

All-trans : (x y : String) (ks : List String) → Before x y → All (Before y) ks → All (Before x) ks
All-trans x y [] b h = tt
All-trans x y (k ∷ ks) b (first, h) = (Before-trans x y k b first, All-trans x y ks b h)

-- A key goes in front of the list, or behind its first element.
insert_sorted_cases :
    (k j : String) (ks : List String)
    → (Before k j × (insert_sorted k (j ∷ ks) ≡ k ∷ j ∷ ks))
      ⊎ (Before j k × (insert_sorted k (j ∷ ks) ≡ j ∷ insert_sorted k ks))
      ⊎ ((k ≡ j) × (insert_sorted k (j ∷ ks) ≡ k ∷ j ∷ ks))
unfolding insert_sorted
insert_sorted_cases k j ks = split_on (String.compare k j) refl
  where
    split_on :
        (o : Ordering)
        → String.compare k j ≡ o
        → (Before k j × (insert_sorted k (j ∷ ks) ≡ k ∷ j ∷ ks))
          ⊎ (Before j k × (insert_sorted k (j ∷ ks) ≡ j ∷ insert_sorted k ks))
          ⊎ ((k ≡ j) × (insert_sorted k (j ∷ ks) ≡ k ∷ j ∷ ks))
    split_on Ordering.lt e = inl (e, ground (arith, e))
    split_on Ordering.gt e = inr (inl (Before-flip k j e, ground (arith, e)))
    split_on Ordering.eq e = inr (inr (path_by_compare k j e, ground (arith, e)))

All-insert_sorted :
    (x k : String) (ks : List String)
    → Before x k
    → All (Before x) ks
    → All (Before x) (insert_sorted k ks)
All-insert_sorted x k [] b h = unfold insert_sorted in (b, tt)
All-insert_sorted x k (j ∷ ks) b (first, h) =
    let later = All-insert_sorted x k ks b h in
    elim (insert_sorted_cases k j ks) [
      | inl (_, e) ↦ rw (e, All) (b, (first, h))
      | inr (inl (_, e)) ↦ rw (e, All) (first, later)
      | inr (inr (_, e)) ↦ rw (e, All) (b, (first, h))
    ]

pub has-insert_sorted :
    (x k : String) (ks : List String) → has x (insert_sorted k ks) ≡ (k == x || has x ks)
has-insert_sorted x k [] = unfold insert_sorted in refl
has-insert_sorted x k (j ∷ ks) =
    let later = has-insert_sorted x k ks in
    elim (insert_sorted_cases k j ks) [
      | inl (_, e) ↦ rw e refl
      | inr (inl (_, e)) ↦ rw e (ground (arith, later))
      | inr (inr (_, e)) ↦ rw e refl
    ]

insert_sorted-Ascending :
    (k : String) (ks : List String)
    → has k ks ≡ false
    → Ascending ks
    → Ascending (insert_sorted k ks)
insert_sorted-Ascending k [] fresh h = unfold insert_sorted in (tt, tt)
insert_sorted-Ascending k (j ∷ ks) fresh (first, h) =
    let later : Ascending (insert_sorted k ks) =
      insert_sorted-Ascending k ks (ground (arith, fresh)) h in
    elim (insert_sorted_cases k j ks) [
      | inl (b, e) ↦ rw (e, Ascending) ((b, All-trans k j ks b first), (first, h))
      | inr (inl (b, e)) ↦ rw (e, Ascending) (All-insert_sorted j k ks b first, later)
      | inr (inr (same, e)) ↦ absurd (ground (arith, fresh, (eq_iff j k).1 (sym same)))
    ]

-- No key stands twice.
abbrev pub Distinct : List String → Type 0
Distinct [] = Unit
Distinct (k ∷ ks) = (has k ks ≡ false) × Distinct ks

pub has-sort_strings : (x : String) (ks : List String) → has x (sort_strings ks) ≡ has x ks
unfolding sort_strings
has-sort_strings x [] = refl
has-sort_strings x (k ∷ ks) =
    has-insert_sorted x k (sort_strings ks) ∙ rw (has-sort_strings x ks) refl

pub sort_strings-Ascending : (ks : List String) → Distinct ks → Ascending (sort_strings ks)
unfolding sort_strings
sort_strings-Ascending [] h = tt
sort_strings-Ascending (k ∷ ks) (fresh, h) =
    insert_sorted-Ascending k (sort_strings ks) (has-sort_strings k ks ∙ fresh)
      (sort_strings-Ascending ks h)

not_behind : (x : String) (ks : List String) → All (Before x) ks → has x ks ≡ false
not_behind x ks h = elim (Bool-cases (has x ks)) [
  | inl in_it ↦ absurd (Before-irrefl x (All-has x x ks h in_it))
  | inr out ↦ out
]

heads_eq :
    (x y : String) (xs ys : List String)
    → All (Before x) xs
    → All (Before y) ys
    → has x (y ∷ ys) ≡ true
    → has y (x ∷ xs) ≡ true
    → x ≡ y
heads_eq x y xs ys hx hy in_ys in_xs = elim (Bool-cases (x == y)) [
  | inl same ↦ (eq_iff x y).0 same
  | inr other ↦ absurd (
      Before-asym x y (All-has x y xs hx (ground (arith, in_xs, other)))
        (All-has y x ys hy (ground (arith, in_ys, other, eq_iff x y, eq_iff y x))))
]

pub Ascending-ext :
    (xs ys : List String)
    → Ascending xs
    → Ascending ys
    → ((k : String) → has k xs ≡ has k ys)
    → xs ≡ ys
Ascending-ext [] [] hx hy same = refl
Ascending-ext [] (y ∷ ys) hx hy same = absurd (ground (arith, same y, eq_refl y))
Ascending-ext (x ∷ xs) [] hx hy same = absurd (ground (arith, same x, eq_refl x))
Ascending-ext (x ∷ xs) (y ∷ ys) (hx, ax) (hy, ay) same =
    let e : x ≡ y =
      heads_eq x y xs ys hx hy (ground (arith, same x, eq_refl x))
        (ground (arith, same y, eq_refl y)) in
    let tails : xs ≡ ys = Ascending-ext xs ys ax ay (λ k. tail_has e k (Bool-cases (x == k))) in
    λ i. e i ∷ tails i
  where
    tail_has : x ≡ y → (k : String) → ((x == k) ≡ true) ⊎ ((x == k) ≡ false) → has k xs ≡ has k ys
    tail_has e k (inl found) =
        let at_k : x ≡ k = (eq_iff x k).0 found in
        ap (λ z. has z xs) (sym at_k)
        ∙ not_behind x xs hx
        ∙ sym (not_behind y ys hy)
        ∙ ap (λ z. has z ys) (sym e ∙ at_k)
    tail_has e k (inr other) = ground (arith, same k, other, ap (λ z. z == k) e)
