-- ===== src/Command/Unset.antt =====
-- What cmd/main.go makes of the flags when no environment variable is set.
use insights_remote.Base.{String, Bool, ◌≡◌, refl}
use insights_remote.Base.Int.{ℤ}
use insights_remote.Base.Text.Decimal.{parse_int}
use insights_remote.Command.Config.{Environment, Settings, override}

-- A reader gives what stands in for a variable that is not set.
pub record IsUnset (env : Environment) : Type 0 where
  pub text : (name held : String) → env.get_env name held ≡ held
  pub flag : (name : String) (held : Bool) → env.get_env_bool name held ≡ held
  pub number : (name : String) (held : ℤ) → env.get_env_int name held ≡ held

abbrev pub reconciler_as_namespaces : Settings → Settings
reconciler_as_namespaces s = record s {
  processing = record s.processing { enable_cm_reconciler = s.processing.enable_ns_reconciler };
}

-- In an environment where nothing is set, every setting is the one of its flag, but whether the
-- reconciler of config maps is enabled: that is decided by the flag for the reconciler of namespaces.
pub override_unset :
    (env : Environment) (s : Settings) → IsUnset env → override env s ≡ reconciler_as_namespaces s
unfolding override parse_int
override_unset env s unset = simp (unset.text, unset.flag, unset.number) refl
