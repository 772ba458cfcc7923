-- ===== src/Examples/Web.antt =====
-- The theorems on the web server and on the secrets, at concrete requests.
use envoy_control_plane.Prelude.{
  String, true, false, none, some, List, [], ◌∷◌, map, ok, ◌≡◌, ◌≢◌, ◌↔◌, ◌⊎◌, refl,
}
use envoy_control_plane.Prelude.Texts.{has_prefix}
use envoy_control_plane.Prelude.Maps.{lookup}
use envoy_control_plane.Config.{scalar}
use envoy_control_plane.Envoy.{Secret, tls_certificate, validation_context}
use envoy_control_plane.Secrets.{new_secrets}
use envoy_control_plane.Web.{
  Request, unauthorised, served, auth, admin_prefix, dump, endpoints_results, handler_config_dump,
  handler_config_endpoints,
}
use envoy_control_plane.Web.Access.{auth_iff}
use envoy_control_plane.Web.Dumps.{dumps-lookup, stores_of}
use envoy_control_plane.Examples.{settings, issuer}
use envoy_control_plane.Examples.Stores.{running, running-IsRegistered}

abbrev anonymous : Request
anonymous = record { path = "/api/admin/status"; basic_auth = none }

abbrev mux : Request → String
mux r = r.path

auth_iff_example :
    ((auth settings mux anonymous ≡ unauthorised) ↔ (
      (has_prefix anonymous.path admin_prefix ≡ true)
      × (anonymous.basic_auth ≢ some (settings.web_admin_user, settings.web_admin_password))))
    × ((auth settings mux anonymous ≡ served (mux anonymous)) ↔ (
        (has_prefix anonymous.path admin_prefix ≡ false)
        ⊎ (anonymous.basic_auth ≡ some (settings.web_admin_user, settings.web_admin_password))))
auth_iff_example = auth_iff settings mux anonymous

front : ◌≢◌ {A = String} "front" ""
front h = cc

dumps-lookup_example :
    (handler_config_dump "front" running
      ≡ dump (map (λ cs. cs.config) (stores_of (lookup "front" running.store_map) running)))
    × (handler_config_endpoints "front" running
        ≡ dump (map endpoints_results (stores_of (lookup "front" running.store_map) running)))
dumps-lookup_example = dumps-lookup running "front" running-IsRegistered front

abbrev front_secrets : List Secret
front_secrets =
    record { name = "envoy_control_plane_default"; secret_type = tls_certificate "chain" "key" }
    ∷ record {
      name = "validation";
      secret_type = validation_context (record { trusted_ca = some "root"; rest = "{}" });
    }
    ∷ []

made : new_secrets issuer settings "front" (some (scalar "x")) ≡ ok front_secrets
unfolding new_secrets settings
made = refl
