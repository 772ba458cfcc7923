-- ===== src/Callbacks/Runs.antt =====
-- pkg/controlplane/callbacks.go: any sequence of calls, refined by the counts of the calls.
use envoy_control_plane.Prelude.{
  ◌≡◌, refl, subst, ℕ, ◌+◌, String, List, [], ◌∷◌, returns, arith, Bool-cases, inl, inr,
}
use envoy_control_plane.Metrics.{Metric, Counters, grpc_on_stream_response}
use envoy_control_plane.Callbacks.{
  Call, State, Files, on_stream_open, on_stream_closed, on_stream_request, on_stream_response,
  on_fetch_request, on_fetch_response, on_stream_delta_request, on_stream_delta_response,
  on_stream_delta_request_on_stream_delta_request, on_delta_stream_open, on_delta_stream_closed,
  on_request, on_fetch, log_response, counted, handle, run, new_callbacks,
}
use envoy_control_plane.Callbacks.Counts.{
  tally, count, closing, Shows, Shows-core, Shows-counted, Shows-close_signal, core-log_response,
  counters_after, after,
}
use envoy_control_plane.Config.{Settings}

-- Every call returns, and what it leaves shows the counts with the call.
handle-Shows :
    {base seen : Counters} (f : Files) (c : Settings) (call : Call) (s : State)
    → Shows base seen s
    → (t : State) × (handle f c call s ≡ returns t) × Shows base (after call seen) t
unfolding handle on_request on_fetch tally
handle-Shows f c on_stream_open s h = (_, refl, Shows-counted on_stream_open s refl refl h)
handle-Shows f c on_stream_closed s h = (_, refl, Shows-counted on_stream_closed s refl refl h)
handle-Shows {base} {seen} f c on_stream_request s h =
    Shows-close_signal _ (closing seen) h.signal h.closed (omega arith)
      (counters_after on_stream_request s h) (grind (arith, h.requests)) (grind (arith, h.fetches))
handle-Shows {base} {seen} f c on_fetch_request s h =
    Shows-close_signal _ (closing seen) h.signal h.closed (omega arith)
      (counters_after on_fetch_request s h) (grind (arith, h.requests)) (grind (arith, h.fetches))
handle-Shows f c (on_stream_response n req resp) s h =
    let entered = counted grpc_on_stream_response s in
    let shown = Shows-counted (on_stream_response n req resp) s refl refl h in
    elim (Bool-cases c.log_access) [
      | inl e ↦ (
        log_response f c n req resp entered,
        rw e refl,
        Shows-core (core-log_response f c n req resp entered) shown,
      )
      | inr e ↦ (entered, rw e refl, shown)
    ]
handle-Shows f c on_fetch_response s h = (_, refl, Shows-counted on_fetch_response s refl refl h)
handle-Shows f c on_stream_delta_request s h =
    (_, refl, Shows-counted on_stream_delta_request s refl refl h)
handle-Shows f c on_stream_delta_response s h =
    (_, refl, Shows-counted on_stream_delta_response s refl refl h)
handle-Shows f c on_stream_delta_request_on_stream_delta_request s h =
    (_, refl, Shows-counted on_stream_delta_request_on_stream_delta_request s refl refl h)
handle-Shows f c on_delta_stream_open s h =
    (_, refl, Shows-counted on_delta_stream_open s refl refl h)
handle-Shows f c on_delta_stream_closed s h =
    (_, refl, Shows-counted on_delta_stream_closed s refl refl h)

Shows-seen :
    {base seen seen' : Counters} {s : State}
    → ((m : Metric) → seen m ≡ seen' m)
    → Shows base seen s
    → Shows base seen' s
Shows-seen {base} {s = s} p h = subst (λ g. Shows base g s) (λ i m. p m i) h

run-Shows :
    {base : Counters} (f : Files) (c : Settings) (calls : List Call) (seen : Counters) (s : State)
    → Shows base seen s
    → (t : State) × (run f c calls s ≡ returns t) × Shows base (λ m. seen m + count m calls) t
unfolding run count
run-Shows f c [] seen s h = (s, refl, Shows-seen (λ m. omega arith) h)
run-Shows f c (call ∷ calls) seen s h =
    let (t, p, g) = handle-Shows f c call s h in
    let (u, q, k) = run-Shows f c calls (after call seen) t g in
    (u, rw (run, p) q, Shows-seen (λ m. omega arith) k)

zero_add : (n : ℕ) → 0 + n ≡ n
zero_add n = omega arith

-- Whatever the xDS server calls, and in whatever order, no call panics, and at the end every
-- metric has grown by the number of the calls that count it, `requests` and `fetches` are the
-- numbers of stream and of fetch requests modulo 2 ^ 64, and the channel is open and set if there
-- was no such request, and otherwise closed, once, and nil.
pub run-new_callbacks :
    (f : Files) (c : Settings) (calls : List Call) (base : Counters) (contents : String → String)
    → (t : State) × (run f c calls (new_callbacks base contents) ≡ returns t)
      × Shows base (λ m. count m calls) t
run-new_callbacks f c calls base contents =
    let (t, p, h) =
      run-Shows {base = base} f c calls (λ m. 0) (new_callbacks base contents)
        (record {
          counters = λ m. omega arith;
          requests = refl;
          fetches = refl;
          signal = refl;
          closed = refl;
        }) in
    (t, p, Shows-seen (λ m. zero_add (count m calls)) h)
