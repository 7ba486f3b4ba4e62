-- ===== src/Command/Variables.antt =====
-- Which variables for the scan pod the flags and the environment can give.
use mathlib.Core.Path.{subst}
use insights_remote.Base.{
  String, Option, none, some, List, [], ◌∷◌, ◌≡◌, ◌⊎◌, inl, inr, refl, arith, ◌==◌, Bool, true,
  false, Bool-cases,
}
use insights_remote.Base.Maps.{Entries, insert, IsMap, insert-IsMap}
use insights_remote.Base.Text.Fields.{trim_space, cut, split}
use insights_remote.Command.Pairs.{
  merge_env_vars, Invalid, expected_key_value, invalid_name, is_env_var_name, parse_kv, parse_pairs,
  parse_flags, build_scanner_extra_env_vars,
}

-- Every name is one of a variable, and none stands twice.
abbrev pub AreNames : Entries String → Type 0
AreNames [] = Unit
AreNames ((k, v) ∷ env) = (is_env_var_name k ≡ true) × AreNames env

abbrev pub AreVariables : Entries String → Type 0
AreVariables env = IsMap env × AreNames env

insert-AreNames :
    (k v : String) (env : Entries String)
    → is_env_var_name k ≡ true
    → AreNames env
    → AreNames (insert k v env)
unfolding insert
insert-AreNames k v [] h _ = (h, tt)
insert-AreNames k v ((j, u) ∷ env) h (named, rest) =
    split_on (j == k) refl (insert-AreNames k v env h rest)
  where
    split_on :
        (b : Bool) → (j == k) ≡ b → AreNames (insert k v env) → AreNames (insert k v ((j, u) ∷ env))
    split_on true same later = rw same (ground (arith, h), rest)
    split_on false other later = rw other (named, later)

-- A pair is an error or is added under the name of a variable.
parse_kv_cases :
    (env : Entries String) (s : String)
    → ((e : Invalid) × (parse_kv env s ≡ inl e))
      ⊎ ((k v : String) × (is_env_var_name k ≡ true) × (parse_kv env s ≡ inr (insert k v env)))
unfolding parse_kv
parse_kv_cases env s = split_on (cut 61 (trim_space s)) refl
  where
    split_on :
        (x : Option (String × String))
        → cut 61 (trim_space s) ≡ x
        → ((e : Invalid) × (parse_kv env s ≡ inl e))
          ⊎ ((k v : String) × (is_env_var_name k ≡ true) × (parse_kv env s ≡ inr (insert k v env)))
    split_on none h = inl (expected_key_value s, ground (arith, h))
    split_on (some (k, v)) h = elim (Bool-cases (trim_space k == "")) [
      | inl empty ↦ inl (expected_key_value s, ground (arith, h, empty))
      | inr given ↦ elim (Bool-cases (is_env_var_name (trim_space k))) [
        | inl is_name ↦ inr (trim_space k, v, is_name, ground (arith, h, given, is_name))
        | inr no_name ↦ inl (invalid_name (trim_space k), ground (arith, h, given, no_name))
      ]
    ]

insert-AreVariables :
    (k v : String) (env : Entries String)
    → is_env_var_name k ≡ true
    → AreVariables env
    → AreVariables (insert k v env)
insert-AreVariables k v env h (is_map, names) =
    (insert-IsMap k v env is_map, insert-AreNames k v env h names)

parse_pairs-AreVariables :
    (env : Entries String) (kvs : List String) {result : Entries String}
    → parse_pairs env kvs ≡ inr result
    → AreVariables env
    → AreVariables result
unfolding parse_pairs
parse_pairs-AreVariables env [] h good = subst AreVariables (ground (arith, h)) good
parse_pairs-AreVariables env (kv ∷ kvs) {result} h good =
    split_on (λ grown. parse_pairs-AreVariables grown kvs) (Bool-cases (trim_space kv == ""))
      (parse_kv_cases env (trim_space kv))
  where
    split_on :
        ((grown : Entries String)
          → parse_pairs grown kvs ≡ inr result
          → AreVariables grown
          → AreVariables result)
        → ((trim_space kv == "") ≡ true) ⊎ ((trim_space kv == "") ≡ false)
        → ((e : Invalid) × (parse_kv env (trim_space kv) ≡ inl e))
          ⊎ ((k v : String) × (is_env_var_name k ≡ true)
              × (parse_kv env (trim_space kv) ≡ inr (insert k v env)))
        → AreVariables result
    split_on later (inl empty) _ = later env (ground (arith, h, empty)) good
    split_on later (inr given) (inl (e, failed)) = absurd (ground (arith, h, given, failed))
    split_on later (inr given) (inr (k, v, is_name, added)) =
        later (insert k v env) (ground (arith, h, given, added))
          (insert-AreVariables k v env is_name good)

parse_flags-AreVariables :
    (env : Entries String) (kvs : List String) {result : Entries String}
    → parse_flags env kvs ≡ inr result
    → AreVariables env
    → AreVariables result
unfolding parse_flags
parse_flags-AreVariables env [] h good = subst AreVariables (ground (arith, h)) good
parse_flags-AreVariables env (kv ∷ kvs) {result} h good =
    split_on (λ grown. parse_flags-AreVariables grown kvs) (parse_kv_cases env kv)
  where
    split_on :
        ((grown : Entries String)
          → parse_flags grown kvs ≡ inr result
          → AreVariables grown
          → AreVariables result)
        → ((e : Invalid) × (parse_kv env kv ≡ inl e))
          ⊎ ((k v : String) × (is_env_var_name k ≡ true) × (parse_kv env kv ≡ inr (insert k v env)))
        → AreVariables result
    split_on later (inl (e, failed)) = absurd (ground (arith, h, failed))
    split_on later (inr (k, v, is_name, added)) =
        later (insert k v env) (ground (arith, h, added)) (insert-AreVariables k v env is_name good)

-- Whatever the flags and the environment hold, when the program starts every extra variable for the
-- scan pod has a name of letters, digits and underscores that does not start with a digit, and no
-- name stands twice.
pub build_scanner_extra_env_vars-AreVariables :
    (flags : List String) (listed : String) {env : Entries String}
    → build_scanner_extra_env_vars flags listed ≡ inr env
    → AreVariables env
unfolding build_scanner_extra_env_vars merge_env_vars
build_scanner_extra_env_vars-AreVariables flags listed {env} h =
    split_on (parse_flags [] flags) refl (Bool-cases (listed == ""))
  where
    split_on :
        (x : Invalid ⊎ Entries String)
        → parse_flags [] flags ≡ x
        → ((listed == "") ≡ true) ⊎ ((listed == "") ≡ false)
        → AreVariables env
    split_on (inl e) failed _ = absurd (ground (arith, h, failed))
    split_on (inr grown) parsed (inl empty) =
        subst AreVariables (ground (arith, h, parsed, empty))
          (parse_flags-AreVariables [] flags parsed (tt, tt))
    split_on (inr grown) parsed (inr given) =
        parse_pairs-AreVariables grown (split 44 listed) (ground (arith, h, parsed, given))
          (parse_flags-AreVariables [] flags parsed (tt, tt))
