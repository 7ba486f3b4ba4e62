-- ===== src/Tests/Command.antt =====
-- The command with its default settings, and the theorems about it.
use insights_remote.Base.{none, some, [], ◌∷◌, ◌≡◌, refl, inr, true, false, ◌≢◌, arith, String}
use insights_remote.Base.Int.{pos}
use insights_remote.Base.Maps.{Entries, insert, lookup}
use insights_remote.Command.{Flags}
use insights_remote.Command.Address.{read_dsn-broker_dsn, parts_of}
use insights_remote.Command.Calls.{Answers}
use insights_remote.Command.Config.{Environment, Settings, Broker, default_settings, override}
use insights_remote.Command.Pairs.{build_scanner_extra_env_vars}
use insights_remote.Command.Queue.{broker_dsn}
use insights_remote.Command.Reader.{read_dsn, IsPlain, all_chars, is_plain_char}
use insights_remote.Command.Shipping.{shipping, shipping-Settles}
use insights_remote.Command.Tokens.{IsServed, reconcile-IsServed}
use insights_remote.Command.Unset.{IsUnset, reconciler_as_namespaces, override_unset}
use insights_remote.Command.Variables.{AreVariables, build_scanner_extra_env_vars-AreVariables}
use insights_remote.ConfigMaps
use insights_remote.ConfigMaps.{insights_message}
use insights_remote.ConfigMaps.Outcomes.{Settles}
use insights_remote.Namespaces.{token_secret}
use insights_remote.Tests.Fixtures.{world, request, sbom, shop, with_secrets}
use insights_remote.Tests.Tokens.{shop_jwt, shop-ReadsBack, shop_token}
use insights_remote.Tests.Tracking.{plain_libraries, differs}

build_scanner_extra_env_vars-AreVariables_example : AreVariables (("A", "1") ∷ ("B_2", "x=y") ∷ [])
unfolding build_scanner_extra_env_vars insert
build_scanner_extra_env_vars-AreVariables_example =
    build_scanner_extra_env_vars-AreVariables ("A=0" ∷ []) " A=1 ,, B_2 =x=y" refl

-- Nothing is set.
abbrev unset : Environment
unset = record {
  get_env = λ name held. held;
  get_env_bool = λ name held. held;
  get_env_int = λ name held. held;
}

unset-IsUnset : IsUnset unset
unset-IsUnset = record {
  text = λ name held. refl;
  flag = λ name held. refl;
  number = λ name held. refl;
}

-- Without namespaces the config maps are left out too.
abbrev no_namespaces : Settings
no_namespaces = record default_settings {
  processing = record default_settings.processing { enable_ns_reconciler = false };
}

override_unset_example : override unset no_namespaces ≡ reconciler_as_namespaces no_namespaces
override_unset_example = override_unset unset no_namespaces unset-IsUnset

abbrev welcome : Answers
welcome log c = inr tt

abbrev one_variable : Entries String
one_variable = ("A", "1") ∷ []

abbrev flags : Flags
flags = record { settings = default_settings; extra_env = "A=1" ∷ []; token_only = none }

-- With TLS, a verified peer and one file.
abbrev secure : Broker
secure = record default_settings.broker { tls = true; verify = true; ca_cert = "/ca" }

secure-IsPlain : IsPlain secure
unfolding all_chars is_plain_char
secure-IsPlain = record {
  user = refl;
  pass = refl;
  host = refl;
  ca_cert = refl;
  client_cert = refl;
  client_key = refl;
  ca_cert_ampersand = ground arith;
  client_cert_ampersand = ground arith;
  client_key_ampersand = ground arith;
}

read_dsn-broker_dsn_example : read_dsn (broker_dsn secure) ≡ some (parts_of secure)
read_dsn-broker_dsn_example = read_dsn-broker_dsn secure secure-IsPlain

sbom_accepted : ConfigMaps.is_accepted (ConfigMaps.insights_type sbom) ≡ true
unfolding ConfigMaps.is_accepted ConfigMaps.insights_type lookup
sbom_accepted = refl

has_parent : default_settings.tracking.parent_template ≢ ""
has_parent = differs "{{ .ProjectName }}-{{ .EnvironmentName }}" "" refl

shipping-Settles_example :
    Settles world
      (shipping plain_libraries world true default_settings.tracking has_parent (pos 3) (pos 3))
      request
      []
      sbom
      shop
shipping-Settles_example =
    shipping-Settles plain_libraries world true default_settings.tracking has_parent (pos 3) (pos 3)
      request [] sbom shop refl refl sbom_accepted

abbrev keyed : Settings
keyed = record default_settings {
  endpoint = record default_settings.endpoint { token_secret = "key" };
}

reconcile-IsServed_example :
    IsServed
      (with_secrets [])
      shop_jwt
      keyed
      request
      shop
      []
      "7"
      "web"
      "main"
      (token_secret (with_secrets []) shop_jwt "key" shop "signed")
unfolding lookup
reconcile-IsServed_example =
    reconcile-IsServed (with_secrets []) shop_jwt keyed request shop [] "7" "web" "main" "signed"
      refl refl refl refl refl shop-ReadsBack shop_token refl
