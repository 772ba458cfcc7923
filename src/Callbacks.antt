-- ===== src/Callbacks.antt =====
-- pkg/controlplane/callbacks.go: the state of `callbacks` and what the xDS server makes of it, one
-- call at a time. `Init` of pkg/controlplane/controlPlane.go creates it with an open channel.
-- Lines for the log are left out; the two files of OnStreamResponse are not.
pub mod Counts
pub mod Runs
pub mod Descriptors
use envoy_control_plane.Prelude.{
  ℕ, suc, ◌+◌, ◌%◌, ◌^◌, String, Bool, true, false, not, Option, none, some, List, [], ◌∷◌, Outcome,
  returns, panics, ◌==◌, if◌then◌else◌, nat_beq, any,
}
use envoy_control_plane.Prelude.Texts.{join_text}
use envoy_control_plane.Metrics.{
  Metric, Counters, inc, grpc_on_stream_open, grpc_on_stream_closed, grpc_on_stream_request,
  grpc_on_stream_response, grpc_on_fetch_request, grpc_on_fetch_response,
  grpc_on_stream_delta_request, grpc_on_stream_delta_response,
  grpc_on_stream_delta_request_on_stream_delta_request, grpc_on_delta_stream_open,
  grpc_on_delta_stream_closed,
}
use envoy_control_plane.Config.{Settings}

-- The calls of the xDS server, with the arguments that matter to the state: for OnStreamResponse
-- the node id and the messages as `protojson.Marshal` gives them.
pub data Call : Type 0 where
  on_stream_open on_stream_closed on_stream_request : Call
  on_stream_response : (node_id discovery_request discovery_response : String) → Call
  on_fetch_request on_fetch_response : Call
  on_stream_delta_request on_stream_delta_response : Call
  on_stream_delta_request_on_stream_delta_request : Call
  on_delta_stream_open on_delta_stream_closed : Call

-- The fields of `callbacks`, where a channel is a number and an `int` its 64 bits, and what the
-- calls change elsewhere: the channels that are closed, the counters, the contents of files and
-- the open descriptors.
pub record State : Type 0 where
  pub signal : Option ℕ
  pub fetches : ℕ
  pub requests : ℕ
  pub closed : List ℕ
  pub counters : Counters
  pub contents : String → String
  pub open_files : List ℕ
  pub next_file : ℕ

-- os.OpenFile: whether a path can be opened; path.Join; and the part of a text that
-- `WriteString` adds to the file of a path, all of it when it gives no error.
pub record Files : Type 0 where
  pub opens : String → Bool
  pub join : (directory name : String) → String
  pub written : (path text : String) → String

-- close(ch) panics for a closed channel.
abbrev pub close_channel : ℕ → State → Outcome State
close_channel ch s =
    if any (nat_beq ch) s.closed
    then panics
    else returns (record s { closed = ch ∷ s.closed; signal = none })

-- if cb.signal != nil { close(cb.signal); cb.signal = nil }
unfoldable pub close_signal : State → Outcome State
close_signal s = elim s.signal [ none ↦ returns s | some ch ↦ close_channel ch s ]

unfoldable pub on_request : State → Outcome State
unfolding close_signal inc
on_request s = close_signal (record s {
  counters = inc grpc_on_stream_request s.counters;
  requests = (s.requests + 1) % 2 ^ 64;
})

unfoldable pub on_fetch : State → Outcome State
unfolding close_signal inc
on_fetch s = close_signal (record s {
  counters = inc grpc_on_fetch_request s.counters;
  fetches = (s.fetches + 1) % 2 ^ 64;
})

-- A `*os.File`: its descriptor and path, and nil after an error.
abbrev pub File : Type 0
File = Option (ℕ × String)

abbrev pub open_file : Files → String → State → File × State
open_file f path s =
    if f.opens path
    then (
      some (s.next_file, path),
      record s { next_file = suc s.next_file; open_files = s.next_file ∷ s.open_files },
    )
    else (none, s)

abbrev pub write_string : Files → File → String → State → State
write_string f none text s = s
write_string f (some (fd, path)) text s = record s {
  contents =
      λ p. if path == p then join_text (s.contents p) (f.written path text) else s.contents p;
}

abbrev pub remove_file : ℕ → List ℕ → List ℕ
remove_file fd [] = []
remove_file fd (n ∷ fds) = let rest = remove_file fd fds in if nat_beq fd n then rest else n ∷ rest

-- Close of a nil or of a closed file gives an error, which is dropped.
abbrev pub close_file : File → State → State
close_file none s = s
close_file (some (fd, path)) s = record s { open_files = remove_file fd s.open_files }

abbrev pub file_name : (prefix node_id : String) → String
file_name prefix node_id = join_text prefix (join_text node_id ".log")

abbrev pub message_text : (prefix json : String) → String
message_text prefix json = join_text prefix (join_text json "\n\n")

-- The two deferred calls close the file of responses twice.
unfoldable pub log_response : Files → Settings → (node_id request response : String) → State → State
log_response f c node_id request response s =
    let (responses, opened) =
      open_file f (f.join c.log_path (file_name "OnStreamResponse." node_id)) s in
    let (requests, both) =
      open_file f (f.join c.log_path (file_name "OnStreamRequest." node_id)) opened in
    let first = write_string f requests (message_text "\nDiscoveryRequest=>\n\n" request) both in
    let second =
      write_string f responses (message_text "\nDiscoveryResponse=>\n\n" response) first in
    close_file responses (close_file responses second)

abbrev pub counted : Metric → State → State
counted m s = record s { counters = inc m s.counters }

unfoldable pub handle : Files → Settings → Call → State → Outcome State
unfolding on_request on_fetch log_response
handle f c on_stream_open s = returns (counted grpc_on_stream_open s)
handle f c on_stream_closed s = returns (counted grpc_on_stream_closed s)
handle f c on_stream_request s = on_request s
handle f c (on_stream_response node_id request response) s =
    let entered = counted grpc_on_stream_response s in
    returns (if c.log_access then log_response f c node_id request response entered else entered)
handle f c on_fetch_request s = on_fetch s
handle f c on_fetch_response s = returns (counted grpc_on_fetch_response s)
handle f c on_stream_delta_request s = returns (counted grpc_on_stream_delta_request s)
handle f c on_stream_delta_response s = returns (counted grpc_on_stream_delta_response s)
handle f c on_stream_delta_request_on_stream_delta_request s =
    returns (counted grpc_on_stream_delta_request_on_stream_delta_request s)
handle f c on_delta_stream_open s = returns (counted grpc_on_delta_stream_open s)
handle f c on_delta_stream_closed s = returns (counted grpc_on_delta_stream_closed s)

-- The calls of all streams in the order in which they take place.
unfoldable pub run : Files → Settings → List Call → State → Outcome State
unfolding handle
run f c [] s = returns s
run f c (call ∷ calls) s = elim (handle f c call s) [
  | returns t ↦ run f c calls t
  | panics ↦ panics
]

-- `&callbacks{signal: make(chan struct{})}`, in a process with these files.
abbrev pub new_callbacks : Counters → (String → String) → State
new_callbacks counters contents = record {
  signal = some 0;
  fetches = 0;
  requests = 0;
  closed = [];
  counters = counters;
  contents = contents;
  open_files = [];
  next_file = 0;
}
