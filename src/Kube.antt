-- ===== src/Kube.antt =====
-- The Kubernetes objects, as far as the program reads them (k8s.io/api/core/v1), and the listers
-- of client-go through which it reads them. Neither is code of the repository: the objects are
-- the API's data and the listers are a parameter.
use envoy_control_plane.Prelude.{String, Bool, Option, List, Result}
use envoy_control_plane.Prelude.Maps.{Map}

pub record PodCondition : Type 0 where
  pub condition_type : String
  pub status : String

pub record Pod : Type 0 where
  pub name : String
  pub namespace : String
  pub labels : Option (Map String)
  pub pod_ip : String
  pub node_name : String
  pub phase : String
  pub conditions : List PodCondition
  pub is_deleted : Bool

pub record Node : Type 0 where
  pub name : String
  pub labels : Map String

pub record ObjectReference : Type 0 where
  pub kind : String
  pub namespace : String
  pub name : String

pub record EndpointAddress : Type 0 where
  pub ip : String
  pub node_name : Option String
  pub target_ref : Option ObjectReference

-- One of the `Subsets` of an `Endpoints` object: its ready addresses.
pub record EndpointSubset : Type 0 where
  pub addresses : List EndpointAddress

pub record Endpoints : Type 0 where
  pub name : String
  pub annotations : Map String
  pub subsets : List EndpointSubset

pub record ConfigMap : Type 0 where
  pub name : String
  pub namespace : String
  pub labels : Map String
  pub annotations : Map String
  pub texts : Map String

-- The caches of the informers at one moment. An error is what a lister returns for an object that
-- it does not hold; a `nil` object with no error is `none`.
pub record Listers : Type 0 where
  pub list_pods : Map String → Result (List Pod)
  pub get_pod : String → String → Result (Option Pod)
  pub get_node : String → Result Node
  pub list_endpoints : Result (List Endpoints)
