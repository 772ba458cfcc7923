-- ===== src/Examples/Streams.antt =====
-- The theorems on the callbacks of the xDS server, at three calls.
use envoy_control_plane.Prelude.{◌≡◌, refl, String, true, List, [], ◌∷◌, returns, length}
use envoy_control_plane.Config.{Settings}
use envoy_control_plane.Metrics.{Counters, grpc_on_stream_response}
use envoy_control_plane.Callbacks.{
  Call, State, Files, on_stream_open, on_stream_request, on_stream_response, run, new_callbacks,
}
use envoy_control_plane.Callbacks.Counts.{count, Shows}
use envoy_control_plane.Callbacks.Runs.{run-new_callbacks}
use envoy_control_plane.Callbacks.Descriptors.{run-open_files}
use envoy_control_plane.Prelude.Texts.{join_text}
use envoy_control_plane.Examples.{settings}

abbrev logging : Settings
logging = record settings { log_access = true }

abbrev log_files : Files
log_files = record { opens = λ _. true; join = join_text; written = λ path text. text }

abbrev calls : List Call
calls = on_stream_open ∷ on_stream_request ∷ on_stream_response "front" "{}" "{}" ∷ []

abbrev nothing : Counters
nothing = λ _. 0

abbrev empty_files : String → String
empty_files = λ _. ""

run-new_callbacks_example :
    (t : State) × (run log_files logging calls (new_callbacks nothing empty_files) ≡ returns t)
    × Shows nothing (λ m. count m calls) t
run-new_callbacks_example = run-new_callbacks log_files logging calls nothing empty_files

run-open_files_example :
    length (run-new_callbacks log_files logging calls nothing empty_files).0.open_files
    ≡ count grpc_on_stream_response calls
run-open_files_example =
    run-open_files log_files logging calls nothing empty_files (λ _. refl) refl
      (run-new_callbacks log_files logging calls nothing empty_files).1
