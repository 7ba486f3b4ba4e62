-- ===== src/Builds/ScanPod/Env.antt =====
-- Which value a variable of the scan pod has.
use insights_remote.Base.{
  String, Option, none, some, List, [], ◌∷◌, ◌≡◌, refl, arith, ◌==◌, eq_iff, if◌then◌else◌, ◌&&◌,
}
use insights_remote.Base.Maps.{
  Entries, insert, lookup, IsMap, or_else, lookup-insert, lookup-insert_all,
}
use insights_remote.World.{Pod, EnvVar}
use insights_remote.Builds.ScanPod.{
  env_var, scan_vars, copy_vars, contains_regex, copy_env, extra_vars, env_map,
}

-- The last variable of the build with the name, when the name is one to copy.
abbrev pub copied : String → List EnvVar → Option EnvVar
copied k [] = none
copied k (e ∷ es) =
    let rest = copied k es in
    or_else rest (if contains_regex copy_vars e.name && e.name == k then some e else none)

lookup-copy_env :
    (k : String) (es : List EnvVar) (env : Entries EnvVar)
    → lookup k (copy_env es env) ≡ or_else (copied k es) (lookup k env)
unfolding copy_env
lookup-copy_env k [] env = refl
lookup-copy_env k (e ∷ es) env = ground (
  arith,
  lookup-copy_env k es (insert e.name e env),
  lookup-copy_env k es env,
  lookup-insert e.name k e env,
)

abbrev pub as_var : String → Option String → Option EnvVar
as_var k none = none
as_var k (some v) = some (env_var k v)

lookup-extra_vars :
    (k : String) (extra : Entries String) → lookup k (extra_vars extra) ≡ as_var k (lookup k extra)
unfolding extra_vars lookup
lookup-extra_vars k [] = refl
lookup-extra_vars k ((j, v) ∷ extra) = ground (arith, lookup-extra_vars k extra, eq_iff j k)

extra_vars-IsMap : (extra : Entries String) → IsMap extra → IsMap (extra_vars extra)
unfolding extra_vars
extra_vars-IsMap [] h = tt
extra_vars-IsMap ((k, v) ∷ extra) (fresh, h) =
    (ground (arith, lookup-extra_vars k extra, fresh), extra_vars-IsMap extra h)

-- A variable of the scan pod has the configured value, else the one of the last variable of the build
-- with its name when that is one to copy, reference and all, else its own value for the scan.
pub lookup-env_map :
    (build : Pod) (env : List EnvVar) (images : List String) (dockerhost : String)
    (extra : Entries String) (k : String)
    → IsMap extra
    → lookup k (env_map build env images dockerhost extra)
      ≡ or_else
          (as_var k (lookup k extra))
          (or_else (copied k env) (lookup k (scan_vars build images dockerhost)))
unfolding env_map
lookup-env_map build env images dockerhost extra k h = ground (
  arith,
  lookup-insert_all k (extra_vars extra) (copy_env env (scan_vars build images dockerhost))
      (extra_vars-IsMap extra h),
  lookup-extra_vars k extra,
  lookup-copy_env k env (scan_vars build images dockerhost),
)
