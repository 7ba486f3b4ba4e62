-- ===== src/Command/Pairs.antt =====
-- cmd/main.go: the extra variables for the scan pod, KEY=VALUE pairs from flags and the environment.
use Prim.Native.Char.{code}
use Prim.Native.String.{[], ◌∷◌}
use insights_remote.Base.{
  ℕ, String, none, some, List, [], ◌∷◌, Bool, true, false, ◌&&◌, ◌||◌, ◌⊎◌, inl, inr, ◌==◌,
  if◌then◌else◌, leb, nat_eq,
}
use insights_remote.Base.Maps.{Entries, insert}
use insights_remote.Base.Text.Fields.{trim_space, cut, split}

-- The errors of `parseKV`, with the text that they quote.
pub data Invalid : Type 0 where
  expected_key_value invalid_name : String → Invalid

abbrev is_letter : ℕ → Bool
is_letter c = leb 65 c && leb c 90 || leb 97 c && leb c 122 || nat_eq c 95

abbrev is_digit : ℕ → Bool
is_digit c = leb 48 c && leb c 57

unfoldable pub is_name_tail : String → Bool
is_name_tail [] = true
is_name_tail (c ∷ s) = (is_letter (code c) || is_digit (code c)) && is_name_tail s

-- ^[A-Za-z_][A-Za-z0-9_]*$
unfoldable pub is_env_var_name : String → Bool
unfolding is_name_tail
is_env_var_name [] = false
is_env_var_name (c ∷ s) = is_letter (code c) && is_name_tail s

unfoldable pub parse_kv : Entries String → String → Invalid ⊎ Entries String
unfolding trim_space cut is_env_var_name
parse_kv env s = elim (cut 61 (trim_space s)) [
  | none ↦ inl (expected_key_value s)
  | some (k, v) ↦
      if trim_space k == ""
      then inl (expected_key_value s)
      else if is_env_var_name (trim_space k)
      then inr (insert (trim_space k) v env)
      else inl (invalid_name (trim_space k))
]

-- The loop over the pairs, which the first invalid one ends.
unfoldable pub parse_pairs : Entries String → List String → Invalid ⊎ Entries String
unfolding parse_kv
parse_pairs env [] = inr env
parse_pairs env (kv ∷ kvs) =
    if trim_space kv == ""
    then parse_pairs env kvs
    else elim (parse_kv env (trim_space kv)) [ inl e ↦ inl e | inr grown ↦ parse_pairs grown kvs ]

-- The variables of the flags, each of which is one pair, in order.
unfoldable pub parse_flags : Entries String → List String → Invalid ⊎ Entries String
unfolding parse_kv
parse_flags env [] = inr env
parse_flags env (kv ∷ kvs) = elim (parse_kv env kv) [
  | inl e ↦ inl e
  | inr grown ↦ parse_flags grown kvs
]

-- The pairs of the variable, if it is set to a text.
unfoldable pub merge_env_vars : Entries String → String → Invalid ⊎ Entries String
unfolding parse_pairs split
merge_env_vars env listed = if listed == "" then inr env else parse_pairs env (split 44 listed)

-- The flags first, then BUILD_SCANNER_EXTRA_ENV_VARS.
unfoldable pub build_scanner_extra_env_vars : List String → String → Invalid ⊎ Entries String
unfolding parse_flags merge_env_vars
build_scanner_extra_env_vars flags listed = elim (parse_flags [] flags) [
  | inl e ↦ inl e
  | inr env ↦ merge_env_vars env listed
]
