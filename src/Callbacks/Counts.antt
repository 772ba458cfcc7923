-- ===== src/Callbacks/Counts.antt =====
-- pkg/controlplane/callbacks.go: the counters and the channel after any sequence of calls.
use envoy_control_plane.Prelude.{
  ◌≡◌, refl, ap, ◌∙◌, ℕ, zero, suc, ◌+◌, ◌%◌, ◌^◌, String, Option, none, some, List, [], ◌∷◌,
  returns, ◌==◌, if◌then◌else◌, arith, Bool-cases, inl, inr,
}
use envoy_control_plane.Metrics.{
  Metric, Counters, inc, options, grpc_on_stream_open, grpc_on_stream_closed,
  grpc_on_stream_request, grpc_on_stream_response, grpc_on_fetch_request, grpc_on_fetch_response,
  grpc_on_stream_delta_request, grpc_on_stream_delta_response,
  grpc_on_stream_delta_request_on_stream_delta_request, grpc_on_delta_stream_open,
  grpc_on_delta_stream_closed,
}
use envoy_control_plane.Callbacks.{
  Call, State, Files, File, on_stream_open, on_stream_closed, on_stream_request, on_stream_response,
  on_fetch_request, on_fetch_response, on_stream_delta_request, on_stream_delta_response,
  on_stream_delta_request_on_stream_delta_request, on_delta_stream_open, on_delta_stream_closed,
  close_signal, open_file, write_string, close_file, log_response, counted, file_name,
}
use envoy_control_plane.Config.{Settings}

-- The metric that a call counts.
abbrev pub metric_of : Call → Metric
metric_of on_stream_open = grpc_on_stream_open
metric_of on_stream_closed = grpc_on_stream_closed
metric_of on_stream_request = grpc_on_stream_request
metric_of (on_stream_response node_id request response) = grpc_on_stream_response
metric_of on_fetch_request = grpc_on_fetch_request
metric_of on_fetch_response = grpc_on_fetch_response
metric_of on_stream_delta_request = grpc_on_stream_delta_request
metric_of on_stream_delta_response = grpc_on_stream_delta_response
metric_of on_stream_delta_request_on_stream_delta_request =
    grpc_on_stream_delta_request_on_stream_delta_request
metric_of on_delta_stream_open = grpc_on_delta_stream_open
metric_of on_delta_stream_closed = grpc_on_delta_stream_closed

-- How many of the calls count as the metric.
unfoldable pub tally : Metric → Call → ℕ
unfolding options
tally m call = if (options (metric_of call)).name == (options m).name then 1 else 0

unfoldable pub count : Metric → List Call → ℕ
unfolding tally
count m [] = 0
count m (call ∷ calls) = tally m call + count m calls

-- The calls that close the channel, which is open before the first of them and closed once after.
abbrev pub closing : Counters → ℕ
closing seen = seen grpc_on_stream_request + seen grpc_on_fetch_request

abbrev pub signal_after : ℕ → Option ℕ
signal_after zero = some 0
signal_after (suc n) = none

abbrev pub closed_after : ℕ → List ℕ
closed_after zero = []
closed_after (suc n) = 0 ∷ []

-- The state after `seen m` calls of each metric, in a process that counted `base m` before.
pub record Shows (base seen : Counters) (s : State) : Type 0 where
  pub counters : (m : Metric) → s.counters m ≡ base m + seen m
  pub requests : s.requests ≡ seen grpc_on_stream_request % 2 ^ 64
  pub fetches : s.fetches ≡ seen grpc_on_fetch_request % 2 ^ 64
  pub signal : s.signal ≡ signal_after (closing seen)
  pub closed : s.closed ≡ closed_after (closing seen)

-- What the files of a response leave alone.
abbrev pub core : State → Counters × ℕ × ℕ × Option ℕ × List ℕ
core s = (s.counters, s.requests, s.fetches, s.signal, s.closed)

core-open_file : (f : Files) (path : String) (s : State) → core (open_file f path s).1 ≡ core s
core-open_file f path s = elim (Bool-cases (f.opens path)) [ inl p ↦ rw p refl | inr p ↦ rw p refl ]

core-write_string :
    (f : Files) (file : File) (text : String) (s : State)
    → core (write_string f file text s) ≡ core s
core-write_string f none text s = refl
core-write_string f (some (fd, path)) text s = refl

core-close_file : (file : File) (s : State) → core (close_file file s) ≡ core s
core-close_file none s = refl
core-close_file (some (fd, path)) s = refl

pub core-log_response :
    (f : Files) (c : Settings) (n req resp : String) (s : State)
    → core (log_response f c n req resp s) ≡ core s
unfolding log_response
core-log_response f c n req resp s =
    let (responses, opened) = open_file f (f.join c.log_path (file_name "OnStreamResponse." n)) s in
    core-close_file responses _
    ∙ core-close_file responses _
    ∙ core-write_string f responses _ _
    ∙ core-write_string f _ _ _
    ∙ core-open_file f _ opened
    ∙ core-open_file f _ s

pub Shows-core :
    {base seen : Counters} {s t : State} → core t ≡ core s → Shows base seen s → Shows base seen t
Shows-core p h = record {
  counters = λ m. ap (λ k. k.0 m) p ∙ h.counters m;
  requests = ap (λ k. k.1) p ∙ h.requests;
  fetches = ap (λ k. k.2) p ∙ h.fetches;
  signal = ap (λ k. k.3) p ∙ h.signal;
  closed = ap (λ k. k.4) p ∙ h.closed;
}

abbrev pub after : Call → Counters → Counters
after call seen = λ m. seen m + tally m call

pub counters_after :
    {base seen : Counters} (call : Call) (s : State)
    → Shows base seen s
    → (m : Metric) → inc (metric_of call) s.counters m ≡ base m + after call seen m
unfolding inc tally
counters_after call s h m = ground (arith, h.counters m)

pub Shows-counted :
    {base seen : Counters} (call : Call) (s : State)
    → tally grpc_on_stream_request call ≡ 0
    → tally grpc_on_fetch_request call ≡ 0
    → Shows base seen s
    → Shows base (after call seen) (counted (metric_of call) s)
Shows-counted {base} {seen} call s r q h = record {
  counters = counters_after call s h;
  requests = rw r (grind (arith, h.requests));
  fetches = rw q (grind (arith, h.fetches));
  signal = h.signal ∙ ap signal_after (omega (arith, r, q));
  closed = h.closed ∙ ap closed_after (omega (arith, r, q));
}

-- Where the counts include the call and the channel does not yet show it, closing the channel, if
-- it is open, makes it show.
pub Shows-close_signal :
    {base seen : Counters} (s : State) (n : ℕ)
    → s.signal ≡ signal_after n
    → s.closed ≡ closed_after n
    → closing seen ≡ suc n
    → ((m : Metric) → s.counters m ≡ base m + seen m)
    → s.requests ≡ seen grpc_on_stream_request % 2 ^ 64
    → s.fetches ≡ seen grpc_on_fetch_request % 2 ^ 64
    → (t : State) × (close_signal s ≡ returns t) × Shows base seen t
unfolding close_signal
Shows-close_signal s zero sig cl more counters requests fetches = (
  record s { closed = 0 ∷ s.closed; signal = none },
  rw (sig, cl) refl,
  record {
    counters = counters;
    requests = requests;
    fetches = fetches;
    signal = rw more refl;
    closed = rw (more, cl) refl;
  },
)
Shows-close_signal s (suc n) sig cl more counters requests fetches = (
  s,
  rw sig refl,
  record {
    counters = counters;
    requests = requests;
    fetches = fetches;
    signal = rw more sig;
    closed = rw more cl;
  },
)
