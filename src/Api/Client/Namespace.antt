-- ===== src/Api/Client/Namespace.antt =====
-- pkg/api/client.go: what the client that Init makes watches.
use envoy_control_plane.Prelude.{
  ◌≡◌, ◌==◌, if◌then◌else◌, refl, ap, subst, none, some, [], Result, ok, err, Outcome, returns,
  panics, wrapped, wrapped-eq-ok, Bool-cases, inl, inr, attempt-eq-ok, returns-injective,
  ok-injective,
}
use envoy_control_plane.Config.{Settings}
use envoy_control_plane.Api.Client.{
  ClientGo, Client, default_resync, new_factory, rest_config, factory_of, with_config, new_client,
  run_and_wait, init_with, init, start_factory,
}

module _ (g : ClientGo) where
  factory_of_lem :
      (c : Settings) (clientset : g.Clientset)
      → factory_of g c clientset ≡ new_factory g clientset default_resync c.namespace
  unfolding factory_of
  factory_of_lem c clientset = elim (Bool-cases c.watch_namespaced) [
    | inl e ↦ rw e refl
    | inr e ↦ rw e refl
  ]

  -- What the client of the settings consists of.
  abbrev pub IsClientOf : Settings → Client g → Type 0
  IsClientOf c client =
      ((if c.kube_config_file == ""
          then g.in_cluster_config
          else g.build_config_from_flags "" c.kube_config_file)
        ≡ ok client.restconfig)
      × (g.new_for_config client.restconfig ≡ ok client.clientset)
      × (client.factory ≡ record {
        clientset = client.clientset;
        resync = 0;
        namespace = if c.namespace == "" then none else some c.namespace;
        requested = [];
        started = [];
      })

  with_config-IsClientOf :
      (c : Settings) (restconfig : g.RestConfig) (m : Result g.Clientset) {client : Client g}
      → (if c.kube_config_file == ""
          then g.in_cluster_config
          else g.build_config_from_flags "" c.kube_config_file)
        ≡ ok restconfig
      → g.new_for_config restconfig ≡ m
      → with_config g c restconfig m ≡ returns (ok client)
      → IsClientOf c client
  with_config-IsClientOf c restconfig (err e) p q h = cc
  with_config-IsClientOf c restconfig (ok clientset) p q h =
      subst (IsClientOf c) (ok-injective (returns-injective h)) (p, q, factory_of_lem c clientset)

  new_client-IsClientOf :
      (c : Settings) {client : Client g}
      → new_client g c ≡ returns (ok client)
      → IsClientOf c client
  unfolding new_client rest_config
  new_client-IsClientOf c h =
      let (restconfig, p, q) = attempt-eq-ok (rest_config g c) _ h in
      with_config-IsClientOf c restconfig _ p refl q

  run_and_wait-IsClientOf :
      (c : Settings) (client : Client g)
      → IsClientOf c client
      → IsClientOf c (run_and_wait g client)
  unfolding run_and_wait
  run_and_wait-IsClientOf c client (p, q, same) = (p, q, ap start_factory same)

  init_with-IsClientOf :
      (c : Settings) (o : Outcome (Result (Client g))) {client : Client g}
      → ((made : Client g) → o ≡ returns (ok made) → IsClientOf c made)
      → init_with g o ≡ returns (ok client)
      → IsClientOf c client
  init_with-IsClientOf c panics f h = cc
  init_with-IsClientOf c (returns m) f h =
      let (made, p, q) = attempt-eq-ok (wrapped "error creating newClient" m) _ h in
      subst (IsClientOf c) (ok-injective (returns-injective q))
        (run_and_wait-IsClientOf c made (f made (ap returns (wrapped-eq-ok _ m p))))

  -- If Init succeeds, the client has the configuration that the settings name, in-cluster without
  -- a file, and its clientset; and its factory watches the namespace of the settings, or every
  -- namespace if that is "", whether `-namespaced` is set or not, and has run no informer, as it was
  -- asked for none.
  pub init-IsClientOf :
      (c : Settings) {client : Client g} → init g c ≡ returns (ok client) → IsClientOf c client
  unfolding init
  init-IsClientOf c h =
      init_with-IsClientOf c (new_client g c) (λ made p. new_client-IsClientOf c p) h
