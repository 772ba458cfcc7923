-- ===== src/Examples/Loaded.antt =====
-- The theorems on the resources that SaveResources (pkg/config/configType.go) stores, at a configuration with one element in each section.
use envoy_control_plane.Prelude.{
  ◌≡◌, refl, ap, subst, String, Bool, true, false, Option, none, some, [], ◌∷◌, ok, Result, err,
  ok-injective, ◌==◌, if◌then◌else◌, All,
}
use envoy_control_plane.Config.{ConfigType, Settings, scalar}
use envoy_control_plane.Resources.{
  Codec, cluster_class, route_class, listener_class, secret_class, yaml_to_resources,
}
use envoy_control_plane.Loading.{save_resources, new_config}
use envoy_control_plane.Resources.Classes.{AreOf}
use envoy_control_plane.Loading.Classes.{save_resources-AreOf}
use envoy_control_plane.Loading.Filtered.{IsPacking, IsOpen, save_resources-IsOpen}
use envoy_control_plane.Examples as Node
use envoy_control_plane.Examples.{settings}

abbrev codec : Codec
codec = record Node.codec { unmarshal_list = λ _. ok (scalar "one" ∷ []) }

abbrev sections : ConfigType
sections = record Node.config {
  clusters = scalar "c" ∷ [];
  routes = scalar "r" ∷ [];
  listeners = scalar "l" ∷ [];
}

abbrev loaded : Result ConfigType → ConfigType
loaded (ok c) = c
loaded (err e) = new_config

unfoldable saved : ConfigType
unfolding save_resources settings
saved = loaded (save_resources codec settings sections)

loads : save_resources codec settings sections ≡ ok saved
unfolding saved save_resources settings yaml_to_resources
loads = refl

save_resources-AreOf_example :
    AreOf cluster_class saved.parsed_clusters
    × AreOf route_class saved.parsed_routes
    × AreOf listener_class saved.parsed_listeners
    × AreOf secret_class saved.parsed_secrets
save_resources-AreOf_example = save_resources-AreOf codec settings sections loads

-- A codec of TLS contexts, and a listener that requires a certificate of the client.
abbrev text_of : Option Bool → String
text_of none = "none"
text_of (some true) = "true"
text_of (some false) = "false"

abbrev read : String → Option Bool
read s = if s == "none" then none else some (s == "true")

read-text_of : (o : Option Bool) → read (text_of o) ≡ o
read-text_of none = refl
read-text_of (some true) = refl
read-text_of (some false) = refl

abbrev tls_codec : Codec
tls_codec = record codec {
  unpack_tls = λ p. ok (record { require_client_certificate = read p.type_url; rest = p.value });
  pack_tls = λ r. ok (record { type_url = text_of r.require_client_certificate; value = r.rest });
  unmarshal_listener = λ text. ok (record {
    filter_chains =
        record {
          filters = [];
          transport_socket = some (record {
            name = "envoy.transport_sockets.tls";
            typed_config = record { type_url = "true"; value = "" };
          });
          rest = "";
        }
        ∷ [];
    default_filter_chain = none;
    rest = text;
  });
}

tls_codec-IsPacking : IsPacking tls_codec
tls_codec-IsPacking r p h =
    subst (λ z. tls_codec.unpack_tls z ≡ ok r) (ok-injective h)
      (ap (λ o. ok (record { require_client_certificate = o; rest = r.rest }))
        (read-text_of r.require_client_certificate))

unfoldable unvalidated : Settings
unfolding settings
unvalidated = record settings { ssl_do_not_use_validation = true }

unfoldable open_config : ConfigType
unfolding save_resources unvalidated
open_config = loaded (save_resources tls_codec unvalidated sections)

opens : save_resources tls_codec unvalidated sections ≡ ok open_config
unfolding open_config save_resources unvalidated yaml_to_resources
opens = refl

validation_off : unvalidated.ssl_do_not_use_validation ≡ true
unfolding unvalidated
validation_off = refl

save_resources-IsOpen_example : All (IsOpen tls_codec) open_config.parsed_listeners
save_resources-IsOpen_example =
    save_resources-IsOpen tls_codec tls_codec-IsPacking unvalidated sections validation_off opens
