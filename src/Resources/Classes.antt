-- ===== src/Resources/Classes.antt =====
-- pkg/resources/resources.go: the classes of parsed resources.
use envoy_control_plane.Prelude.{
  ◌≡◌, refl, sym, ap, ◌∙◌, subst, String, List, [], ◌∷◌, Result, ok, wrapped, traverse, ◌>>=◌,
  >>=-eq-ok, ok-injective, arith,
}
use envoy_control_plane.Envoy.{
  Resource, cluster, route_configuration, cluster_load_assignment, listener, secret,
}
use envoy_control_plane.Config.{Yaml}
use envoy_control_plane.Resources.{
  Codec, OutType, cluster_class, route_class, endpoint_class, listener_class, secret_class,
  other_class, unmarshal_resource, to_resources, yaml_to_resources,
}

abbrev pub class_of : Resource → OutType
class_of (cluster r) = cluster_class
class_of (route_configuration r) = route_class
class_of (cluster_load_assignment r) = endpoint_class
class_of (listener r) = listener_class
class_of (secret r) = secret_class

abbrev pub AreOf : OutType → List Resource → Type 0
AreOf t [] = Unit
AreOf t (r ∷ rs) = (class_of r ≡ t) × AreOf t rs

pub AreOf-traverse :
    (f : Resource → Result Resource) (t : OutType) (l : List Resource) {m : List Resource}
    → ((a b : Resource) → f a ≡ ok b → class_of b ≡ t)
    → traverse f l ≡ ok m
    → AreOf t m
unfolding traverse
AreOf-traverse f t [] step h = subst (AreOf t) (ok-injective h) tt
AreOf-traverse f t (a ∷ l) step h =
    let (b, p, q) = >>=-eq-ok (f a) _ h in
    let (bs, r, s) = >>=-eq-ok (traverse f l) _ q in
    subst (AreOf t) (ok-injective s) (step a b p, AreOf-traverse f t l step r)

module _ (k : Codec) where
  made :
      {A : Type 0} (text : String) (m : Result A) (g : A → Resource) (t : OutType) {r : Resource}
      → ((a : A) → class_of (g a) ≡ t)
      → (wrapped text m >>= λ a. ok (g a)) ≡ ok r
      → class_of r ≡ t
  made text m g t same h =
      let (a, p, q) = >>=-eq-ok (wrapped text m) _ h in ap class_of (sym (ok-injective q)) ∙ same a

  unmarshal_resource-class :
      (t : OutType) (json : String) {r : Resource}
      → unmarshal_resource k t json ≡ ok r
      → class_of r ≡ t
  unfolding unmarshal_resource
  unmarshal_resource-class cluster_class json h =
      made _ (k.unmarshal_cluster json) cluster _ (λ _. refl) h
  unmarshal_resource-class route_class json h =
      made _ (k.unmarshal_route json) route_configuration _ (λ _. refl) h
  unmarshal_resource-class endpoint_class json h =
      made _ (k.unmarshal_endpoint json) cluster_load_assignment _ (λ _. refl) h
  unmarshal_resource-class listener_class json h =
      made _ (k.unmarshal_listener json) listener _ (λ _. refl) h
  unmarshal_resource-class secret_class json h =
      made _ (k.unmarshal_secret json) secret _ (λ _. refl) h
  unmarshal_resource-class other_class json h = ground (arith, h)

  to_resources-AreOf :
      (t : OutType) (l : List Yaml) {rs : List Resource} → to_resources k t l ≡ ok rs → AreOf t rs
  unfolding to_resources
  to_resources-AreOf t [] h = subst (AreOf t) (ok-injective h) tt
  to_resources-AreOf t (v ∷ vs) h =
      let (json, _, p) =
        >>=-eq-ok (wrapped "utils.GetJSONfromYAML(v)" (k.get_json_from_yaml v)) _ h in
      let (r, q, s) = >>=-eq-ok (unmarshal_resource k t json) _ p in
      let (rest, u, w) = >>=-eq-ok (to_resources k t vs) _ s in
      subst (AreOf t) (ok-injective w)
        (unmarshal_resource-class t json q, to_resources-AreOf t vs u)

  pub yaml_to_resources-AreOf :
      (t : OutType) (l : List Yaml) {rs : List Resource}
      → yaml_to_resources k l t ≡ ok rs
      → AreOf t rs
  unfolding yaml_to_resources
  yaml_to_resources-AreOf t [] h = subst (AreOf t) (ok-injective h) tt
  yaml_to_resources-AreOf t (y ∷ ys) h =
      let (json, _, p) = >>=-eq-ok (wrapped _ (k.marshal_list (y ∷ ys))) _ h in
      let (l, _, q) = >>=-eq-ok (wrapped _ (k.unmarshal_list json)) _ p in to_resources-AreOf t l q
