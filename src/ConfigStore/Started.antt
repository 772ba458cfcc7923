-- ===== src/ConfigStore/Started.antt =====
-- What `New` of pkg/configstore/configStore.go returns, and the id that `SaveResources` of
-- pkg/config/configType.go keeps.
use envoy_control_plane.Prelude.{
  Bool, false, [], ◌≡◌, refl, ap, sym, Result, ok, err, Outcome, returns, panics, ok-injective,
  returns-injective, >>=-eq-ok, wrapped, if◌then◌else◌,
}
use envoy_control_plane.Kube.{Listers}
use envoy_control_plane.Config.{ConfigType, Settings}
use envoy_control_plane.Resources.{
  Codec, yaml_to_resources, cluster_class, route_class, listener_class, secret_class,
}
use envoy_control_plane.Loading.{save_resources, override_weights, filter_certificates}
use envoy_control_plane.Publish.{Runtime}
use envoy_control_plane.Secrets.{Issuer, new_secrets}
use envoy_control_plane.Endpoints.Listing.{LbMap}
use envoy_control_plane.ConfigStore.{ConfigStore, load_new_secrets, save_last_endpoints}
use envoy_control_plane.ConfigStore.Create.{new, new_with, initial, get_config_endpoints}
use envoy_control_plane.ConfigStore.Saving.{
  config-save_last_endpoints, is_stoped-save_last_endpoints,
}

pub save_resources-id :
    (k : Codec) (c : Settings) (config saved : ConfigType)
    → save_resources k c config ≡ ok saved
    → saved.id ≡ config.id
unfolding save_resources
save_resources-id k c config saved h =
    let (clusters, _, h1) =
      >>=-eq-ok
        (wrapped "error parsing clusters" (yaml_to_resources k config.clusters cluster_class)) _
        h in
    let (routes, _, h2) =
      >>=-eq-ok (wrapped "error parsing routes" (yaml_to_resources k config.routes route_class)) _
        h1 in
    let (listeners, _, h3) =
      >>=-eq-ok
        (wrapped "error parsing listeners" (yaml_to_resources k config.listeners listener_class)) _
        h2 in
    let (secrets, _, h4) =
      >>=-eq-ok (wrapped "error parsing secrets" (yaml_to_resources k config.secrets secret_class))
        _ h3 in
    let (parsed, _, h5) = >>=-eq-ok (override_weights k config listeners routes) _ h4 in
    let (_, _, h6) =
      >>=-eq-ok
        (if c.ssl_do_not_use_validation
          then wrapped "errors in filterCertificates" (filter_certificates k parsed.0)
          else ok parsed.0)
        _ h5 in
    ap (λ z. z.id) (sym (ok-injective h6))

pub load_new_secrets_lem :
    (i : Issuer) (c : Settings) (cs : ConfigStore) {loaded : ConfigStore}
    → load_new_secrets i c cs ≡ ok loaded
    → (loaded.config ≡ cs.config) × (loaded.is_stoped ≡ cs.is_stoped)
unfolding load_new_secrets
load_new_secrets_lem i c cs h =
    let (_, _, q) =
      >>=-eq-ok
        (wrapped "can not create secrets" (new_secrets i c cs.config.name cs.config.validation)) _
        h in
    rw (← ok-injective q) (refl, refl)

module _ (r : Runtime) (c : Settings) (l : Listers) (i : Issuer) (k : Codec) where
  -- What `New` returns runs and has the configuration that it was given.
  abbrev pub IsStarted : ConfigType → Result (ConfigStore × Bool) → Type 0
  IsStarted config (err e) = Unit
  IsStarted config (ok (cs, pushes)) = (cs.config ≡ config) × (cs.is_stoped ≡ false)

  new_with-IsStarted :
      (config : ConfigType) (m : LbMap) → IsStarted config (new_with r c l i k config m)
  new_with-IsStarted config m =
      go (load_new_secrets i c (initial config m))
        (λ loaded h. load_new_secrets_lem i c (initial config m) h)
    where
      go :
          (res : Result ConfigStore)
          → ((loaded : ConfigStore)
              → res ≡ ok loaded
              → (loaded.config ≡ config) × (loaded.is_stoped ≡ false))
          → IsStarted config (elim (wrapped "error in LoadNewSecrets" res) [
            | ok cs ↦ ok (save_last_endpoints r c l cs)
            | err e ↦ err e
          ])
      go (err e) f = tt
      go (ok cs) f =
          rw (config-save_last_endpoints r c l cs, is_stoped-save_last_endpoints r c l cs)
            (f cs refl)

  pub new-IsStarted :
      (config : ConfigType) {made : Result (ConfigStore × Bool)}
      → new r c l i k config ≡ returns made
      → IsStarted config made
  unfolding new
  new-IsStarted config {made} h = go (get_config_endpoints k config) h
    where
      go :
          (o : Outcome (Result LbMap))
          → elim o [
            | panics ↦ panics
            | returns (ok m) ↦ returns (new_with r c l i k config m)
            | returns (err e) ↦ returns (new_with r c l i k config [])
          ]
            ≡ returns made
          → IsStarted config made
      go panics h = cc
      go (returns (ok m)) h = rw (← returns-injective h) (new_with-IsStarted config m)
      go (returns (err e)) h = rw (← returns-injective h) (new_with-IsStarted config [])
