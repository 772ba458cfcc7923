-- ===== src/Informers.antt =====
-- pkg/api/informers.go: the functions that RunKubeInformers gives to the informers, for the variables
-- OnNewPod, OnDeletePod, OnNewConfig, OnDeleteConfig and OnNewEndpoints. log.Fatal ends the process.
pub mod Typed
pub mod Setup
pub mod Started
use envoy_control_plane.Prelude.{
  Bool, true, false, ◌&&◌, Option, none, some, Outcome, returns, panics, if◌then◌else◌,
}
use envoy_control_plane.Kube.{Pod, ConfigMap, Endpoints}
use envoy_control_plane.Events.{same_map}
use envoy_control_plane.Metrics.{
  Counters, inc, endpointstore_add_func, endpointstore_update_func, endpointstore_delete_func,
  configmapsstore_add_func, configmapsstore_update_func, configmapsstore_delete_func, Metric,
}

-- What an informer passes on: an object, or for a deletion that the watch missed the last state that
-- it knows, cache.DeletedFinalStateUnknown.
pub data Object : Type 0 where
  pod : Pod → Object
  config_map : ConfigMap → Object
  endpoints : Endpoints → Object
  deleted_final_state_unknown : Object → Object

-- One call of a function of the three handlers.
pub data Notification : Type 0 where
  pod_added : (obj : Object) → Notification
  pod_updated : (old new : Object) → Notification
  pod_deleted : (obj : Object) → Notification
  config_added : (obj : Object) → Notification
  config_updated : (old cur : Object) → Notification
  config_deleted : (obj : Object) → Notification
  endpoints_added : (obj : Object) → Notification
  endpoints_updated : (old cur : Object) → Notification

-- The variables, `none` for nil: functions that change the state of the process.
pub record Callbacks (S : Type 0) : Type 0 where
  pub on_new_pod : Option (Pod → S → Outcome S)
  pub on_delete_pod : Option (Pod → S → Outcome S)
  pub on_new_config : Option (ConfigMap → S → Outcome S)
  pub on_delete_config : Option (ConfigMap → S → Outcome S)
  pub on_new_endpoints : Option (Endpoints → S → Outcome S)

-- obj.(*v1.Pod) and so on
abbrev pub as_pod : Object → Option Pod
as_pod (pod p) = some p
as_pod _ = none

abbrev pub as_config_map : Object → Option ConfigMap
as_config_map (config_map cm) = some cm
as_config_map _ = none

abbrev pub as_endpoints : Object → Option Endpoints
as_endpoints (endpoints e) = some e
as_endpoints _ = none

module _ {S : Type 0} where
  -- if f != nil { f(v) }
  abbrev pub call : {A : Type 0} → Option (A → S → Outcome S) → A → S → Outcome S
  call none v s = returns s
  call (some f) v s = f v s

  -- The assertion, with its fatal error, and then the call.
  abbrev pub assert_call : {A : Type 0} → Option (A → S → Outcome S) → Option A → S → Outcome S
  assert_call f none s = panics
  assert_call f (some v) s = call f v s

  -- do not update config if there is no change in data or annotations
  abbrev pub update_config :
      Option (ConfigMap → S → Outcome S) → (old cur : Option ConfigMap) → S → Outcome S
  update_config f old none s = panics
  update_config f none (some cm) s = panics
  update_config f (some old) (some cm) s =
      if same_map cm.texts old.texts && same_map cm.annotations old.annotations
      then returns s
      else call f cm s

  -- The call behind the count of a metric.
  abbrev pub counting : Metric → Counters → Outcome S → Outcome (Counters × S)
  counting m values (returns s) = returns (inc m values, s)
  counting m values panics = panics

  abbrev pub uncounted : Counters → Outcome S → Outcome (Counters × S)
  uncounted values (returns s) = returns (values, s)
  uncounted values panics = panics

  unfoldable pub dispatch : Callbacks S → Notification → Counters → S → Outcome (Counters × S)
  unfolding same_map inc
  dispatch h (pod_added obj) v s =
      counting endpointstore_add_func v (assert_call h.on_new_pod (as_pod obj) s)
  dispatch h (pod_updated old new) v s =
      counting endpointstore_update_func v (assert_call h.on_new_pod (as_pod new) s)
  dispatch h (pod_deleted obj) v s =
      counting endpointstore_delete_func v (assert_call h.on_delete_pod (as_pod obj) s)
  dispatch h (config_added obj) v s =
      counting configmapsstore_add_func v (assert_call h.on_new_config (as_config_map obj) s)
  dispatch h (config_updated old cur) v s =
      counting configmapsstore_update_func v
        (update_config h.on_new_config (as_config_map old) (as_config_map cur) s)
  dispatch h (config_deleted obj) v s =
      counting configmapsstore_delete_func v (assert_call h.on_delete_config (as_config_map obj) s)
  dispatch h (endpoints_added obj) v s =
      uncounted v (assert_call h.on_new_endpoints (as_endpoints obj) s)
  dispatch h (endpoints_updated old cur) v s =
      uncounted v (assert_call h.on_new_endpoints (as_endpoints cur) s)
