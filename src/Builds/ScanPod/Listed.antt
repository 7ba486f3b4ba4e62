-- ===== src/Builds/ScanPod/Listed.antt =====
-- The list of the variables of the scan pod: each of the map once, in the order of the names.
use mathlib.Core.Path.{subst}
use insights_remote.Base.{
  String, Option, none, some, List, [], ◌∷◌, map, ◌≡◌, refl, sym, ◌∙◌, ap, Bool, true, false, ◌==◌,
  eq_iff, eq_refl, inl, inr, if◌then◌else◌, arith, is_some, Option-cases,
}
use insights_remote.Base.Maps.{Entries, lookup, insert, insert_all, IsMap, or_else}
use insights_remote.World.{Pod, EnvVar}
use insights_remote.Builds.ScanPod.{
  env_var, scan_vars, copy_env, extra_vars, env_map, sort_strings, value_at, sorted_env, copy_vars,
  contains_regex,
}
use insights_remote.Builds.ScanPod.Env.{lookup-env_map, as_var, copied}
use insights_remote.Builds.ScanPod.Sorted.{Ascending, has, has-sort_strings}
use insights_remote.Builds.ScanPod.Determined.{keys, has-keys, sorted_keys-Ascending, env_map-IsMap}

-- The variable with a name.
abbrev pub find_var : String → List EnvVar → Option EnvVar
find_var k [] = none
find_var k (e ∷ es) = if e.name == k then some e else find_var k es

abbrev pub names : List EnvVar → List String
names es = map (λ e. e.name) es

-- Every entry stands under the name of its variable.
abbrev NamedByKey : Entries EnvVar → Type 0
NamedByKey [] = Unit
NamedByKey ((k, e) ∷ env) = (e.name ≡ k) × NamedByKey env

insert-NamedByKey :
    (k : String) (e : EnvVar) (env : Entries EnvVar)
    → e.name ≡ k
    → NamedByKey env
    → NamedByKey (insert k e env)
unfolding insert
insert-NamedByKey k e [] named h = (named, tt)
insert-NamedByKey k e ((j, f) ∷ env) named (first, h) =
    split_on (j == k) refl (insert-NamedByKey k e env named h)
  where
    split_on :
        (b : Bool)
        → (j == k) ≡ b
        → NamedByKey (insert k e env)
        → NamedByKey (insert k e ((j, f) ∷ env))
    split_on true same later = rw same (named ∙ sym ((eq_iff j k).0 same), h)
    split_on false other later = rw other (first, later)

copy_env-NamedByKey :
    (es : List EnvVar) (env : Entries EnvVar) → NamedByKey env → NamedByKey (copy_env es env)
unfolding copy_env
copy_env-NamedByKey [] env h = h
copy_env-NamedByKey (e ∷ es) env h =
    copy_env-NamedByKey es _ (kept (contains_regex copy_vars e.name))
  where
    kept : (b : Bool) → NamedByKey (if b then insert e.name e env else env)
    kept true = insert-NamedByKey e.name e env refl h
    kept false = h

extra_vars-NamedByKey :
    (extra : Entries String) (env : Entries EnvVar)
    → NamedByKey env
    → NamedByKey (insert_all (extra_vars extra) env)
unfolding extra_vars insert_all
extra_vars-NamedByKey [] env h = h
extra_vars-NamedByKey ((k, v) ∷ extra) env h =
    extra_vars-NamedByKey extra _ (insert-NamedByKey k (env_var k v) env refl h)

lookup-name :
    (k : String) (env : Entries EnvVar) (e : EnvVar)
    → NamedByKey env
    → lookup k env ≡ some e
    → e.name ≡ k
unfolding lookup
lookup-name k [] e h found = cc
lookup-name k ((j, f) ∷ env) e (first, h) found = ground (arith, eq_iff j k, lookup-name k env e h)

module _ (env : Entries EnvVar) (named : NamedByKey env) where
  value_at-name : (k : String) → is_some (lookup k env) ≡ true → (value_at env k).name ≡ k
  value_at-name k h = elim (Option-cases (lookup k env)) [
    | inl missing ↦ absurd (ground (arith, missing, h))
    | inr (e, found) ↦ ground (arith, found, lookup-name k env e named found)
  ]

  -- The keys of a list that are all in the map.
  AreKeys : List String → Type 0
  AreKeys ks = (k : String) → has k ks ≡ true → is_some (lookup k env) ≡ true

  names-values : (ks : List String) → AreKeys ks → names (map (value_at env) ks) ≡ ks
  unfolding AreKeys
  names-values [] h = refl
  names-values (k ∷ ks) h =
      let first : (value_at env k).name ≡ k = value_at-name k (h k (ground (arith, eq_refl k))) in
      let others : names (map (value_at env) ks) ≡ ks =
        names-values ks (λ j in_ks. h j (ground (arith, in_ks))) in
      λ i. first i ∷ others i

  find_var-values :
      (x : String) (ks : List String)
      → AreKeys ks
      → find_var x (map (value_at env) ks) ≡ (if has x ks then lookup x env else none)
  unfolding AreKeys
  find_var-values x [] h = refl
  find_var-values x (k ∷ ks) h = elim (Option-cases (lookup k env)) [
    | inl missing ↦ absurd (ground (arith, missing, h k (ground (arith, eq_refl k))))
    | inr (e, found) ↦ ground (
      arith,
      found,
      lookup-name k env e named found,
      eq_iff k x,
      find_var-values x ks (λ j in_ks. h j (ground (arith, in_ks))),
    )
  ]

  keys-AreKeys : AreKeys (sort_strings (keys env))
  unfolding AreKeys
  keys-AreKeys k h = sym (has-keys k env) ∙ sym (has-sort_strings k (keys env)) ∙ h

  names-sorted_env : names (sorted_env env) ≡ sort_strings (keys env)
  unfolding sorted_env
  names-sorted_env = names-values (sort_strings (keys env)) keys-AreKeys

  find_var-sorted_env : (x : String) → find_var x (sorted_env env) ≡ lookup x env
  unfolding sorted_env
  find_var-sorted_env x =
      find_var-values x (sort_strings (keys env)) keys-AreKeys
      ∙ ap (λ b. if b then lookup x env else none) (has-sort_strings x (keys env) ∙ has-keys x env)
      ∙ settle (lookup x env)
    where
      settle : (o : Option EnvVar) → (if is_some o then o else none) ≡ o
      settle none = refl
      settle (some e) = refl

module _ (build : Pod) (env : List EnvVar) (images : List String) (dockerhost : String)
    (extra : Entries String) where
  env_map-NamedByKey : NamedByKey (env_map build env images dockerhost extra)
  unfolding env_map
  env_map-NamedByKey = extra_vars-NamedByKey extra _ (
      copy_env-NamedByKey env (scan_vars build images dockerhost)
        (refl, (refl, (refl, (refl, tt)))))

  -- The variables of the scan pod stand in strictly ascending order of their names, so none stands
  -- twice; and a name has the configured value, else that of the last variable of the build with the
  -- name when it is one to copy, else the own value for the scan, and there is no other variable.
  pub sorted_env-Ascending :
      IsMap extra
      → Ascending (names (sorted_env (env_map build env images dockerhost extra)))
        × ((k : String)
            → find_var k (sorted_env (env_map build env images dockerhost extra))
              ≡ or_else
                  (as_var k (lookup k extra))
                  (or_else (copied k env) (lookup k (scan_vars build images dockerhost))))
  sorted_env-Ascending h = (
    subst Ascending
        (sym (names-sorted_env (env_map build env images dockerhost extra) env_map-NamedByKey))
        (sorted_keys-Ascending (env_map build env images dockerhost extra)
          (env_map-IsMap build env images dockerhost extra)),
    λ k.
        find_var-sorted_env (env_map build env images dockerhost extra) env_map-NamedByKey k
        ∙ lookup-env_map build env images dockerhost extra k h,
  )
