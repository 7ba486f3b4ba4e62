-- ===== src/Tests/Upkeep.antt =====
-- Keeping the secrets of namespaces and the config maps in order.
use insights_remote.Base.{some, [], ◌∷◌, ◌≡◌, refl, true, false, arith, eq_iff, ◌*◌, ◌^◌}
use insights_remote.Base.Int.{pos, ◌*ℤ◌}
use insights_remote.Base.Exec.{ok}
use insights_remote.Base.Maps.{lookup}
use insights_remote.Base.Text.Decimal.{format_int, parse_int}
use insights_remote.Namespaces.{reconcile, token_secret}
use insights_remote.Namespaces.Secrets.{deleted}
use insights_remote.Namespaces.Provision.{
  listed, reconcile_keeps, reconcile_loses, Converges, reconcile-Converges, reconcile_replaces,
}
use insights_remote.Crons
use insights_remote.Crons.{
  burn_after_reading, clear_deferred, clear, undeferred, is_due, batch_limit,
}
use insights_remote.Crons.Burn.{burned, burn_after_reading-burned}
use insights_remote.Crons.Deferred.{Cleared, clear_deferred-Cleared, clear-stops, is_due_2038}
use insights_remote.Types.{insights_label, insights_write_deferred}
use insights_remote.World.{Trace, list_config_maps, update_config_map, create_secret, delete_secret}
use insights_remote.Tokens.{no_details, validate_and_extract_namespace_details_from_token}
use insights_remote.Tests.Fixtures.{
  request, done, deferred, shop, shop_details, secret_of, bare_secret, with_secrets, world,
  refusing, broken,
}
use insights_remote.Tests.Tokens.{shop_jwt, shop-ReadsBack, shop_token, shop_read, tokens}

reconcile_keeps_example :
    reconcile (with_secrets (secret_of "signed" ∷ [])) shop_jwt "key" request []
    ≡ (ok tt, listed request shop [])
reconcile_keeps_example =
    reconcile_keeps (with_secrets (secret_of "signed" ∷ [])) shop_jwt "key" request shop [] refl
      refl (secret_of "signed") [] refl
      ((shop_details, ("signed", unfold lookup in refl, shop_read)), tt)

reconcile_loses_example :
    reconcile (with_secrets (bare_secret ∷ secret_of "signed" ∷ [])) shop_jwt "key" request []
    ≡ (ok tt, deleted (bare_secret ∷ secret_of "signed" ∷ []) (listed request shop []))
reconcile_loses_example =
    reconcile_loses (with_secrets (bare_secret ∷ secret_of "signed" ∷ [])) shop_jwt "key" request
      shop [] refl refl bare_secret (secret_of "signed") [] refl (λ t c. refl)
      (unfold lookup in refl)
      ((shop_details, refl, ("signed", unfold lookup in refl, shop_read)), tt)

reconcile-Converges_example : Converges (with_secrets []) shop_jwt "key" request shop [] "signed"
unfolding lookup
reconcile-Converges_example =
    reconcile-Converges (with_secrets []) shop_jwt "key" request shop [] "signed" "7" "web" "main"
      refl refl refl refl refl shop-ReadsBack shop_token refl

forged_read :
    validate_and_extract_namespace_details_from_token shop_jwt "key" "forged"
    ≡ ok (no_details, some broken)
unfolding tokens
forged_read = refl

reconcile_replaces_example :
    reconcile (with_secrets (secret_of "forged" ∷ [])) shop_jwt "key" request [] ≡ (
      ok tt,
      create_secret
            (token_secret (with_secrets (secret_of "forged" ∷ [])) shop_jwt "key" shop "signed")
          ∷ delete_secret (secret_of "forged")
          ∷ listed request shop [],
    )
unfolding lookup
reconcile_replaces_example =
    reconcile_replaces (with_secrets (secret_of "forged" ∷ [])) shop_jwt "key" request shop [] refl
      refl "7" "web" "main" "signed" refl refl refl shop-ReadsBack shop_token (secret_of "forged")
      "forged" no_details broken refl (λ t c. refl) refl forged_read
      (ground (arith, eq_iff "" "shop"))

burn_after_reading-burned_example :
    burn_after_reading world []
    ≡ (ok tt, burned (done ∷ deferred ∷ []) (list_config_maps insights_label batch_limit ∷ []))
burn_after_reading-burned_example = burn_after_reading-burned world (done ∷ deferred ∷ []) [] refl

abbrev listed_deferred : Trace
listed_deferred = list_config_maps insights_write_deferred batch_limit ∷ []

clear_deferred-Cleared_example :
    (t' : Trace) × (clear_deferred world [] ≡ (ok tt, t'))
    × Cleared world (done ∷ deferred ∷ []) listed_deferred t'
clear_deferred-Cleared_example =
    clear_deferred-Cleared world (done ∷ deferred ∷ []) [] (λ t c. refl) refl

clear-stops_example :
    clear refusing (deferred ∷ deferred ∷ []) false []
    ≡ (ok tt, update_config_map (undeferred deferred) ∷ [])
unfolding is_due Crons.undeferred lookup parse_int ◌*ℤ◌
clear-stops_example = clear-stops refusing deferred (deferred ∷ []) [] broken refl refl

is_due_2038_example :
    is_due
      (record world { now_ns = λ t. 3_000_000_000 * 1_000_000_000 })
      (format_int (pos (2 ^ 31)))
      []
    ≡ true
is_due_2038_example =
    is_due_2038 (record world { now_ns = λ t. 3_000_000_000 * 1_000_000_000 }) (2 ^ 31) []
      (omega arith) (omega arith)
