-- ===== src/Metrics.antt =====
-- pkg/metrics/metrics.go: the metrics that the process exports, with their names in Prometheus,
-- and the counters as numbers; and what pkg/utils/utils.go measures.
use envoy_control_plane.Prelude.{
  ℕ, suc, String, Option, none, some, List, [], ◌∷◌, ◌++◌, ◌==◌, if◌then◌else◌,
}
use envoy_control_plane.Prelude.Texts.{join_text}

pub data Kind : Type 0 where
  gauge counter counter_vec histogram histogram_vec : Kind

pub data Metric : Type 0 where
  leader_election_is_master grpc_on_stream_open grpc_on_stream_closed grpc_on_stream_request
        grpc_on_stream_response grpc_on_fetch_request grpc_on_fetch_response
        grpc_on_stream_delta_request grpc_on_stream_delta_response
        grpc_on_stream_delta_request_on_stream_delta_request grpc_on_delta_stream_open
        grpc_on_delta_stream_closed kubernetes_api_request kubernetes_api_request_duration
        configmapsstore_add_func configmapsstore_update_func configmapsstore_delete_func
        configmapsstore_push endpointstore_add_func endpointstore_update_func
        endpointstore_delete_func operation operation_duration :
      Metric

-- The options of a metric: `Name` and `Help`, and the label of a vector.
pub record Options : Type 0 where
  pub kind : Kind
  pub name : String
  pub help : String
  pub label : Option String

abbrev pub namespace : String
namespace = "envoy_control_plane"

unfoldable pub options : Metric → Options
options leader_election_is_master = record {
  kind = gauge;
  name = "leader_election_is_master";
  help = "0 if not master, 1 if master";
  label = none;
}
options grpc_on_stream_open = record {
  kind = counter;
  name = "on_stream_open_total";
  help = "The total number of OnStreamOpen events";
  label = none;
}
options grpc_on_stream_closed = record {
  kind = counter;
  name = "on_stream_closed_total";
  help = "The total number of OnStreamClosed events";
  label = none;
}
options grpc_on_stream_request = record {
  kind = counter;
  name = "on_stream_request_total";
  help = "The total number of OnStreamRequest events";
  label = none;
}
options grpc_on_stream_response = record {
  kind = counter;
  name = "on_stream_response_total";
  help = "The total number of OnStreamResponse events";
  label = none;
}
options grpc_on_fetch_request = record {
  kind = counter;
  name = "on_fetch_request_total";
  help = "The total number of OnFetchRequest events";
  label = none;
}
options grpc_on_fetch_response = record {
  kind = counter;
  name = "on_fetch_response_total";
  help = "The total number of OnFetchResponse events";
  label = none;
}
options grpc_on_stream_delta_request = record {
  kind = counter;
  name = "on_stream_delta_request_total";
  help = "The total number of OnStreamDeltaRequest events";
  label = none;
}
options grpc_on_stream_delta_response = record {
  kind = counter;
  name = "on_stream_delta_response_total";
  help = "The total number of OnStreamDeltaResponse events";
  label = none;
}
options grpc_on_stream_delta_request_on_stream_delta_request = record {
  kind = counter;
  name = "on_stream_delta_request_on_stream_delta_request_total";
  help = "The total number of OnStreamDeltaRequestOnStreamDeltaRequest events";
  label = none;
}
options grpc_on_delta_stream_open = record {
  kind = counter;
  name = "on_delta_stream_open_total";
  help = "The total number of OnDeltaStreamOpen events";
  label = none;
}
options grpc_on_delta_stream_closed = record {
  kind = counter;
  name = "on_delta_stream_closed_total";
  help = "The total number of OnDeltaStreamClosed events";
  label = none;
}
options kubernetes_api_request = record {
  kind = counter_vec;
  name = "apiserver_request_total";
  help = "The total number of kunernetes API requests";
  label = some "code";
}
options kubernetes_api_request_duration = record {
  kind = histogram;
  name = "apiserver_request_duration";
  help = "The duration in seconds of kunernetes API requests";
  label = none;
}
options configmapsstore_add_func = record {
  kind = counter;
  name = "configmapsstore_add_total";
  help = "The total number of AddFunc events in configmapsstore";
  label = none;
}
options configmapsstore_update_func = record {
  kind = counter;
  name = "configmapsstore_update_total";
  help = "The total number of UpdateFunc events in configmapsstore";
  label = none;
}
options configmapsstore_delete_func = record {
  kind = counter;
  name = "configmapsstore_delete_total";
  help = "The total number of DeleteFunc events in configmapsstore";
  label = none;
}
options configmapsstore_push = record {
  kind = counter;
  name = "configmapsstore_push_total";
  help = "The total number of Push";
  label = none;
}
options endpointstore_add_func = record {
  kind = counter;
  name = "endpointstore_add_total";
  help = "The total number of AddFunc events in endpointstore";
  label = none;
}
options endpointstore_update_func = record {
  kind = counter;
  name = "endpointstore_update_total";
  help = "The total number of UpdateFunc events in endpointstore";
  label = none;
}
options endpointstore_delete_func = record {
  kind = counter;
  name = "endpointstore_delete_total";
  help = "The total number of DeleteFunc events in endpointstore";
  label = none;
}
options operation = record {
  kind = counter_vec;
  name = "operation_total";
  help = "The total number of web requests";
  label = some "operation";
}
options operation_duration = record {
  kind = histogram_vec;
  name = "operation_duration";
  help = "The duration in ms of operations";
  label = some "operation";
}

-- prometheus.BuildFQName, for a metric without a subsystem.
unfoldable pub full_name : Metric → String
unfolding options
full_name m = join_text namespace (join_text "_" (options m).name)

-- The values of the counters without labels.
abbrev pub Counters : Type 0
Counters = Metric → ℕ

-- m.Inc()
unfoldable pub inc : Metric → Counters → Counters
unfolding options
inc m values = λ n. if (options m).name == (options n).name then suc (values n) else values n

-- The vectors `operation` and `operation_duration`, by the label: how often an operation was measured,
-- and the milliseconds that it took, the first first.
pub record Operations : Type 0 where
  pub total : String → ℕ
  pub durations : String → List ℕ

-- utils.TimeTrack, with the milliseconds since the start.
unfoldable pub time_track : (name : String) (elapsed : ℕ) → Operations → Operations
time_track name elapsed o = record {
  total = λ other. if name == other then suc (o.total other) else o.total other;
  durations =
      λ other. if name == other then o.durations other ++ elapsed ∷ [] else o.durations other;
}
