-- ===== src/Informers/Typed.antt =====
-- pkg/api/informers.go: what a notification does and when it ends the process.
use envoy_control_plane.Prelude.{
  ◌≡◌, refl, ◌↔◌, ◌⊎◌, if◌then◌else◌, String, Bool, true, false, ◌&&◌, Option, none, some, Outcome,
  returns, panics, ◌==◌, arith, inl, inr,
}
use envoy_control_plane.Events.{same_map}
use envoy_control_plane.Metrics.{
  endpointstore_add_func, endpointstore_update_func, endpointstore_delete_func,
  configmapsstore_add_func, configmapsstore_update_func, configmapsstore_delete_func, Metric,
  Counters, inc,
}
use envoy_control_plane.Informers.{
  Object, pod, config_map, endpoints, deleted_final_state_unknown, Notification, pod_added,
  pod_updated, pod_deleted, config_added, config_updated, config_deleted, endpoints_added,
  endpoints_updated, Callbacks, call, counting, uncounted, dispatch,
}

-- The resource that an object is of, and the one that an informer watches.
abbrev pub resource : Object → String
resource (pod p) = "pods"
resource (config_map cm) = "configmaps"
resource (endpoints e) = "endpoints"
resource (deleted_final_state_unknown obj) = ""

-- Every object that is read is of the watched resource.
unfoldable pub is_typed : Notification → Bool
is_typed (pod_added obj) = resource obj == "pods"
is_typed (pod_updated old new) = resource new == "pods"
is_typed (pod_deleted obj) = resource obj == "pods"
is_typed (config_added obj) = resource obj == "configmaps"
is_typed (config_updated old cur) = resource old == "configmaps" && resource cur == "configmaps"
is_typed (config_deleted obj) = resource obj == "configmaps"
is_typed (endpoints_added obj) = resource obj == "endpoints"
is_typed (endpoints_updated old cur) = resource cur == "endpoints"

-- The counter of a notification: those of endpoints have none.
abbrev pub metric_of : Notification → Option Metric
metric_of (pod_added obj) = some endpointstore_add_func
metric_of (pod_updated old new) = some endpointstore_update_func
metric_of (pod_deleted obj) = some endpointstore_delete_func
metric_of (config_added obj) = some configmapsstore_add_func
metric_of (config_updated old cur) = some configmapsstore_update_func
metric_of (config_deleted obj) = some configmapsstore_delete_func
metric_of (endpoints_added obj) = none
metric_of (endpoints_updated old cur) = none

abbrev pub counted : Option Metric → Counters → Counters
counted none v = v
counted (some m) v = inc m v

module _ {S : Type 0} where
  -- What the program's function for a notification makes of the state. An update of a ConfigMap
  -- with the texts and the annotations that it had is not passed on.
  abbrev pub reaction : Callbacks S → Notification → S → Outcome S
  reaction h (pod_added (pod p)) s = call h.on_new_pod p s
  reaction h (pod_updated old (pod p)) s = call h.on_new_pod p s
  reaction h (pod_deleted (pod p)) s = call h.on_delete_pod p s
  reaction h (config_added (config_map cm)) s = call h.on_new_config cm s
  reaction h (config_updated (config_map old) (config_map cur)) s =
      if same_map cur.texts old.texts && same_map cur.annotations old.annotations
      then returns s
      else call h.on_new_config cur s
  reaction h (config_deleted (config_map cm)) s = call h.on_delete_config cm s
  reaction h (endpoints_added (endpoints e)) s = call h.on_new_endpoints e s
  reaction h (endpoints_updated old (endpoints e)) s = call h.on_new_endpoints e s
  reaction h n s = returns s

  -- The process ends exactly if an object that is read is not typed or the reaction ends it;
  -- otherwise the state is that of the reaction, and the counter has gone up by one.
  abbrev pub IsAnswer :
      Outcome (Counters × S) → Bool → Option Metric → Counters → Outcome S → Type 0
  IsAnswer o typed m v reaction =
      ((o ≡ panics) ↔ ((typed ≡ false) ⊎ (reaction ≡ panics)))
      × ((o ≡ panics) ⊎ ((t : S) × (reaction ≡ returns t) × (o ≡ returns (counted m v, t))))

  counting_lem :
      (m : Metric) (v : Counters) (o : Outcome S) → IsAnswer (counting m v o) true (some m) v o
  counting_lem m v (returns s) =
      ((λ h. ground (arith, h), λ h. ground (arith, h)), inr (s, refl, refl))
  counting_lem m v panics = ((λ h. inr refl, λ h. refl), inl refl)

  uncounted_lem : (v : Counters) (o : Outcome S) → IsAnswer (uncounted v o) true none v o
  uncounted_lem v (returns s) =
      ((λ h. ground (arith, h), λ h. ground (arith, h)), inr (s, refl, refl))
  uncounted_lem v panics = ((λ h. inr refl, λ h. refl), inl refl)

  untyped_lem :
      (m : Option Metric) (v : Counters) (reaction : Outcome S) → IsAnswer panics false m v reaction
  untyped_lem m v reaction = ((λ h. inl refl, λ h. refl), inl refl)

  -- A notification ends the process exactly if an object that is read is not of the resource of its
  -- informer, as the final state of a deletion that the watch missed is not, or the function of the
  -- program that it is passed on to panics. If it does not, the state is what that function makes of
  -- it, or the same for an update of a ConfigMap without a change, and the counter of the
  -- notification, if it has one, has gone up by one.
  pub dispatch_lem :
      (h : Callbacks S) (n : Notification) (v : Counters) (s : S)
      → IsAnswer (dispatch h n v s) (is_typed n) (metric_of n) v (reaction h n s)
  unfolding dispatch is_typed
  dispatch_lem h (pod_added (pod p)) v s =
      counting_lem endpointstore_add_func v (call h.on_new_pod p s)
  dispatch_lem h (pod_added _) v s = untyped_lem (some endpointstore_add_func) v (returns s)
  dispatch_lem h (pod_updated old (pod p)) v s =
      counting_lem endpointstore_update_func v (call h.on_new_pod p s)
  dispatch_lem h (pod_updated old _) v s =
      untyped_lem (some endpointstore_update_func) v (returns s)
  dispatch_lem h (pod_deleted (pod p)) v s =
      counting_lem endpointstore_delete_func v (call h.on_delete_pod p s)
  dispatch_lem h (pod_deleted _) v s = untyped_lem (some endpointstore_delete_func) v (returns s)
  dispatch_lem h (config_added (config_map cm)) v s =
      counting_lem configmapsstore_add_func v (call h.on_new_config cm s)
  dispatch_lem h (config_added _) v s = untyped_lem (some configmapsstore_add_func) v (returns s)
  dispatch_lem h (config_updated (config_map old) (config_map cur)) v s =
      counting_lem configmapsstore_update_func v (
        if same_map cur.texts old.texts && same_map cur.annotations old.annotations
        then returns s
        else call h.on_new_config cur s)
  dispatch_lem h (config_updated (config_map old) _) v s =
      untyped_lem (some configmapsstore_update_func) v (returns s)
  dispatch_lem h (config_updated _ (config_map cur)) v s =
      untyped_lem (some configmapsstore_update_func) v (returns s)
  dispatch_lem h (config_updated _ (pod p)) v s =
      untyped_lem (some configmapsstore_update_func) v (returns s)
  dispatch_lem h (config_updated _ (endpoints e)) v s =
      untyped_lem (some configmapsstore_update_func) v (returns s)
  dispatch_lem h (config_updated _ (deleted_final_state_unknown obj)) v s =
      untyped_lem (some configmapsstore_update_func) v (returns s)
  dispatch_lem h (config_deleted (config_map cm)) v s =
      counting_lem configmapsstore_delete_func v (call h.on_delete_config cm s)
  dispatch_lem h (config_deleted _) v s =
      untyped_lem (some configmapsstore_delete_func) v (returns s)
  dispatch_lem h (endpoints_added (endpoints e)) v s = uncounted_lem v (call h.on_new_endpoints e s)
  dispatch_lem h (endpoints_added _) v s = untyped_lem none v (returns s)
  dispatch_lem h (endpoints_updated old (endpoints e)) v s =
      uncounted_lem v (call h.on_new_endpoints e s)
  dispatch_lem h (endpoints_updated old _) v s = untyped_lem none v (returns s)
