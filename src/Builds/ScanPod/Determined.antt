-- ===== src/Builds/ScanPod/Determined.antt =====
-- The variables of the scan pod do not depend on the order in which Go ranges over a map.
use insights_remote.Base.{
  String, List, [], ◌∷◌, map, ◌≡◌, refl, sym, ◌∙◌, ap, Bool, true, false, if◌then◌else◌, arith,
  is_some,
}
use insights_remote.Base.Maps.{
  Entries, lookup, insert, IsMap, insert-IsMap, insert_all-IsMap, or_else,
}
use insights_remote.World.{Pod, EnvVar, Container}
use insights_remote.Builds.ScanPod.{
  scan_vars, copy_env, extra_vars, env_map, sort_strings, value_at, sorted_env,
  generate_scan_pod_spec, copy_vars, contains_regex,
}
use insights_remote.Builds.ScanPod.Env.{lookup-env_map, as_var, copied}
use insights_remote.Builds.ScanPod.Sorted.{
  Ascending, has, Distinct, has-sort_strings, sort_strings-Ascending, Ascending-ext,
}

abbrev pub keys : Entries EnvVar → List String
keys env = map (λ e. e.0) env

pub has-keys : (k : String) (env : Entries EnvVar) → has k (keys env) ≡ is_some (lookup k env)
unfolding lookup
has-keys k [] = refl
has-keys k ((j, e) ∷ env) = ground (arith, has-keys k env)

keys-Distinct : (env : Entries EnvVar) → IsMap env → Distinct (keys env)
keys-Distinct [] h = tt
keys-Distinct ((k, e) ∷ env) (fresh, h) = (has-keys k env ∙ ap is_some fresh, keys-Distinct env h)

map_values :
    (env env' : Entries EnvVar)
    → ((k : String) → lookup k env ≡ lookup k env')
    → (ks : List String) → map (value_at env) ks ≡ map (value_at env') ks
map_values env env' same [] = refl
map_values env env' same (k ∷ ks) = ground (arith, same k, map_values env env' same ks)

pub sorted_keys-Ascending : (env : Entries EnvVar) → IsMap env → Ascending (sort_strings (keys env))
sorted_keys-Ascending env h = sort_strings-Ascending (keys env) (keys-Distinct env h)

-- Two lists of entries of the same map give the same list of variables.
sorted_env-ext :
    (env env' : Entries EnvVar)
    → IsMap env
    → IsMap env'
    → ((k : String) → lookup k env ≡ lookup k env')
    → sorted_env env ≡ sorted_env env'
unfolding sorted_env
sorted_env-ext env env' h h' same =
    ap (map (value_at env)) (
      Ascending-ext (sort_strings (keys env)) (sort_strings (keys env'))
        (sorted_keys-Ascending env h) (sorted_keys-Ascending env' h')
        (λ k.
          has-sort_strings k (keys env)
          ∙ has-keys k env
          ∙ ap is_some (same k)
          ∙ sym (has-keys k env')
          ∙ sym (has-sort_strings k (keys env'))))
    ∙ map_values env env' same (sort_strings (keys env'))

copy_env-IsMap : (es : List EnvVar) (env : Entries EnvVar) → IsMap env → IsMap (copy_env es env)
unfolding copy_env
copy_env-IsMap [] env h = h
copy_env-IsMap (e ∷ es) env h = copy_env-IsMap es _ (kept (contains_regex copy_vars e.name))
  where
    kept : (b : Bool) → IsMap (if b then insert e.name e env else env)
    kept true = insert-IsMap e.name e env h
    kept false = h

pub env_map-IsMap :
    (build : Pod) (env : List EnvVar) (images : List String) (dockerhost : String)
    (extra : Entries String)
    → IsMap (env_map build env images dockerhost extra)
unfolding env_map lookup
env_map-IsMap build env images dockerhost extra =
    insert_all-IsMap (extra_vars extra) _
      (copy_env-IsMap env (scan_vars build images dockerhost) (refl, (refl, (refl, (refl, tt)))))

env_map-ext :
    (build : Pod) (env : List EnvVar) (images : List String) (dockerhost : String)
    (extra extra' : Entries String)
    → IsMap extra
    → IsMap extra'
    → ((k : String) → lookup k extra ≡ lookup k extra')
    → sorted_env (env_map build env images dockerhost extra)
      ≡ sorted_env (env_map build env images dockerhost extra')
env_map-ext build env images dockerhost extra extra' h h' same =
    sorted_env-ext (env_map build env images dockerhost extra)
      (env_map build env images dockerhost extra') (env_map-IsMap build env images dockerhost extra)
      (env_map-IsMap build env images dockerhost extra')
      (λ k.
        lookup-env_map build env images dockerhost extra k h
        ∙ ap
            (λ o.
              or_else (as_var k o)
                (or_else (copied k env) (lookup k (scan_vars build images dockerhost))))
            (same k)
        ∙ sym (lookup-env_map build env images dockerhost extra' k h'))

-- Whatever the order in which the configured variables are met, the scan pod is the same: two lists
-- without repetition of the entries of one map give the same pod, or the same error or panic.
pub generate_scan_pod_spec-ext :
    (build : Pod) (images : List String) (name dockerhost : String) (extra extra' : Entries String)
    → IsMap extra
    → IsMap extra'
    → ((k : String) → lookup k extra ≡ lookup k extra')
    → generate_scan_pod_spec build images name dockerhost extra
      ≡ generate_scan_pod_spec build images name dockerhost extra'
unfolding generate_scan_pod_spec
generate_scan_pod_spec-ext build [] name dockerhost extra extra' h h' same = refl
generate_scan_pod_spec-ext build (i ∷ is) name dockerhost extra extra' h h' same =
    split_on build.containers refl
  where
    split_on :
        (cs : List Container)
        → build.containers ≡ cs
        → generate_scan_pod_spec build (i ∷ is) name dockerhost extra
          ≡ generate_scan_pod_spec build (i ∷ is) name dockerhost extra'
    split_on [] e = ground (arith, e)
    split_on (c ∷ cs) e =
        ground (arith, e, env_map-ext build c.env (i ∷ is) dockerhost extra extra' h h' same)
