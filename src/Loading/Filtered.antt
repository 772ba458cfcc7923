-- ===== src/Loading/Filtered.antt =====
-- pkg/config/configType.go: filterCertificates and the listeners that SaveResources stores.
use envoy_control_plane.Prelude.{
  ◌≡◌, refl, sym, ap, subst, Bool, true, false, Option, none, some, List, ok, wrapped, traverse,
  >>=-eq-ok, wrapped-eq-ok, ok-injective, Bool-cases, inl, inr, arith, ◌==◌, if◌then◌else◌, All,
  All-traverse,
}
use envoy_control_plane.Envoy.{
  DownstreamTlsContext, TransportSocket, FilterChain, Packed, Resource, cluster,
  route_configuration, cluster_load_assignment, listener, secret,
}
use envoy_control_plane.Config.{ConfigType, Settings}
use envoy_control_plane.Resources.{
  Codec, cluster_class, route_class, listener_class, secret_class, yaml_to_resources,
}
use envoy_control_plane.Loading.{
  transport_socket_tls, not_required, filter_socket, filter_transport_socket, filter_chain,
  filter_listener, filter_certificates, override_weights, save_resources,
}

abbrev pub required_of : Option Bool → Bool
required_of none = false
required_of (some b) = b

-- `r.GetRequireClientCertificate().GetValue()`
abbrev pub is_required : DownstreamTlsContext → Bool
is_required r = required_of r.require_client_certificate

is_required-not_required : (r : DownstreamTlsContext) → is_required (not_required r) ≡ false
is_required-not_required r = go r.require_client_certificate refl
  where
    go :
        (o : Option Bool)
        → r.require_client_certificate ≡ o
        → is_required
            (elim o [ none ↦ r | some _ ↦ record r { require_client_certificate = some false } ])
          ≡ false
    go none e = ap required_of e
    go (some b) e = refl

module _ (k : Codec) where
  -- A TLS socket can be read, and asks clients for no certificate.
  abbrev pub IsOpenTls : Bool → Packed → Type 0
  IsOpenTls false config = Unit
  IsOpenTls true config =
      (r : DownstreamTlsContext) × (k.unpack_tls config ≡ ok r) × (is_required r ≡ false)

  abbrev pub IsOpenSocket : Option TransportSocket → Type 0
  IsOpenSocket none = Unit
  IsOpenSocket (some s) = IsOpenTls (s.name == transport_socket_tls) s.typed_config

  abbrev pub IsOpenChain : FilterChain → Type 0
  IsOpenChain fc = IsOpenSocket fc.transport_socket

  abbrev pub IsOpen : Resource → Type 0
  IsOpen (listener l) = All IsOpenChain l.filter_chains
  IsOpen _ = Unit

  -- What is packed is unpacked again.
  abbrev pub IsPacking : Type 0
  IsPacking = (r : DownstreamTlsContext) (p : Packed) → k.pack_tls r ≡ ok p → k.unpack_tls p ≡ ok r

  module _ (law : IsPacking) where
    filter_socket-IsOpen :
        (s s' : TransportSocket) → filter_socket k s ≡ ok s' → IsOpenSocket (some s')
    unfolding filter_socket
    filter_socket-IsOpen s s' h = elim (Bool-cases (s.name == transport_socket_tls)) [
      | inr e ↦
          subst (λ z. IsOpenSocket (some z)) (ok-injective (rw (filter_socket, e) at h))
            (subst (λ t. IsOpenTls t s.typed_config) (sym e) tt)
      | inl e ↦
          let (r, p, q) = >>=-eq-ok (k.unpack_tls s.typed_config) _ (rw (filter_socket, e) at h) in
          let (pbst, u, v) = >>=-eq-ok (k.pack_tls (not_required r)) _ q in
          subst (λ z. IsOpenSocket (some z)) (ok-injective v)
            (subst (λ t. IsOpenTls t pbst) (sym e)
              (not_required r, law _ pbst u, is_required-not_required r))
    ]

    filter_transport_socket-IsOpen :
        (o o' : Option TransportSocket) → filter_transport_socket k o ≡ ok o' → IsOpenSocket o'
    filter_transport_socket-IsOpen none o' h = subst IsOpenSocket (ok-injective h) tt
    filter_transport_socket-IsOpen (some s) o' h =
        let (s', p, q) = >>=-eq-ok (filter_socket k s) _ h in
        subst IsOpenSocket (ok-injective q) (filter_socket-IsOpen s s' p)

    filter_chain-IsOpen : (a b : FilterChain) → filter_chain k a ≡ ok b → IsOpenChain b
    unfolding filter_chain
    filter_chain-IsOpen a b h =
        let (o, p, q) = >>=-eq-ok (filter_transport_socket k a.transport_socket) _ h in
        subst IsOpenChain (ok-injective q) (filter_transport_socket-IsOpen a.transport_socket o p)

    filter_listener-IsOpen : (a b : Resource) → filter_listener k a ≡ ok b → IsOpen b
    unfolding filter_listener
    filter_listener-IsOpen (listener l) b h =
        let (fcs, p, q) = >>=-eq-ok (traverse (filter_chain k) l.filter_chains) _ h in
        subst IsOpen (ok-injective q)
          (All-traverse IsOpenChain (filter_chain k) l.filter_chains filter_chain-IsOpen p)
    filter_listener-IsOpen (cluster r) b h = ground (arith, h)
    filter_listener-IsOpen (route_configuration r) b h = ground (arith, h)
    filter_listener-IsOpen (cluster_load_assignment r) b h = ground (arith, h)
    filter_listener-IsOpen (secret r) b h = ground (arith, h)

    filtered-IsOpen :
        (settings : Settings) (listeners : List Resource) {rs : List Resource}
        → settings.ssl_do_not_use_validation ≡ true
        → (if settings.ssl_do_not_use_validation
            then wrapped "errors in filterCertificates" (filter_certificates k listeners)
            else ok listeners)
          ≡ ok rs
        → All IsOpen rs
    unfolding filter_certificates
    filtered-IsOpen settings listeners off h =
        All-traverse IsOpen (filter_listener k) listeners filter_listener-IsOpen
          (wrapped-eq-ok _ _ (rw off at h))

    -- Where validation is switched off in the settings and a TLS context that was packed is unpacked
    -- as it was, each transport socket with the name envoy.transport_sockets.tls of a filter chain
    -- among the `filter_chains` of a listener that SaveResources stores holds a context that can be
    -- read and does not require a certificate of the client. Nothing is said of the default filter
    -- chain of a listener and of sockets with another name, which the filter leaves alone.
    pub save_resources-IsOpen :
        (settings : Settings) (c : ConfigType) {saved : ConfigType}
        → settings.ssl_do_not_use_validation ≡ true
        → save_resources k settings c ≡ ok saved
        → All IsOpen saved.parsed_listeners
    unfolding save_resources filter_certificates
    save_resources-IsOpen settings c off h =
        let (clusters, p, h1) =
          >>=-eq-ok (wrapped _ (yaml_to_resources k c.clusters cluster_class)) _ h in
        let (routes, q, h2) =
          >>=-eq-ok (wrapped _ (yaml_to_resources k c.routes route_class)) _ h1 in
        let (listeners, r, h3) =
          >>=-eq-ok (wrapped _ (yaml_to_resources k c.listeners listener_class)) _ h2 in
        let (secrets, s, h4) =
          >>=-eq-ok (wrapped _ (yaml_to_resources k c.secrets secret_class)) _ h3 in
        let (both, t, h5) = >>=-eq-ok (override_weights k c listeners routes) _ h4 in
        let (filtered, u, h6) =
          >>=-eq-ok
            (if settings.ssl_do_not_use_validation
              then wrapped "errors in filterCertificates" (filter_certificates k both.0)
              else ok both.0)
            _ h5 in
        subst (λ d. All IsOpen d.parsed_listeners) (ok-injective h6)
          (filtered-IsOpen settings both.0 off u)
