-- ===== src/Callbacks/Descriptors.antt =====
-- pkg/controlplane/callbacks.go: the descriptors that OnStreamResponse leaves open.
use envoy_control_plane.Prelude.{
  Outcome, panics, returns-injective, any, some, none, Option, ◌≡◌, refl, sym, ap, ◌∙◌, subst, ℕ,
  suc, ◌+◌, ◌<◌, String, true, List, [], ◌∷◌, returns, arith, length, nat_beq, Bool-cases, inl, inr,
}
use envoy_control_plane.Metrics.{Metric, Counters, grpc_on_stream_response}
use envoy_control_plane.Callbacks.{
  Call, State, Files, on_stream_open, on_stream_closed, on_stream_request, on_stream_response,
  on_fetch_request, on_fetch_response, on_stream_delta_request, on_stream_delta_response,
  on_stream_delta_request_on_stream_delta_request, on_delta_stream_open, on_delta_stream_closed,
  on_request, on_fetch, close_signal, log_response, handle, run, new_callbacks, remove_file,
  close_channel, counted,
}
use envoy_control_plane.Callbacks.Counts.{metric_of, tally, count}
use envoy_control_plane.Config.{Settings}

-- Every open descriptor was given before.
abbrev Below : ℕ → List ℕ → Type 0
Below n [] = Unit
Below n (fd ∷ fds) = (fd < n) × Below n fds

Below-suc : (n : ℕ) (fds : List ℕ) → Below n fds → Below (suc n) fds
Below-suc n [] h = tt
Below-suc n (fd ∷ fds) (p, h) = (omega (arith, p), Below-suc n fds h)

remove_file-Below : (n : ℕ) (fds : List ℕ) → Below n fds → remove_file n fds ≡ fds
remove_file-Below n [] h = refl
remove_file-Below n (fd ∷ fds) (p, h) = ground (arith, remove_file-Below n fds h)

-- The two files are opened in the order of the code, and the first of them is closed twice.
remove_twice :
    (n : ℕ) (fds : List ℕ)
    → Below n fds
    → remove_file n (remove_file n (suc n ∷ n ∷ fds)) ≡ suc n ∷ fds
remove_twice n fds h = ground (arith, remove_file-Below n fds h)

record Holds (k : ℕ) (s : State) : Type 0 where
  count : length s.open_files ≡ k
  below : Below s.next_file s.open_files

Holds-files :
    {k : ℕ} {s t : State}
    → t.open_files ≡ s.open_files
    → t.next_file ≡ s.next_file
    → Holds k s
    → Holds k t
Holds-files p q h = record { count = rw p h.count; below = rw (p, q) h.below }

close_channel-files :
    (ch : ℕ) (s : State) {t : State}
    → close_channel ch s ≡ returns t
    → (t.open_files ≡ s.open_files) × (t.next_file ≡ s.next_file)
close_channel-files ch s h = elim (Bool-cases (any (nat_beq ch) s.closed)) [
  | inl e ↦ ground (arith, rw e at h)
  | inr e ↦
      let same = returns-injective (rw e at h) in
      (sym (ap (λ u. u.open_files) same), sym (ap (λ u. u.next_file) same))
]

close_signal-files :
    (s : State) (sig : Option ℕ) {t : State}
    → s.signal ≡ sig
    → close_signal s ≡ returns t
    → (t.open_files ≡ s.open_files) × (t.next_file ≡ s.next_file)
unfolding close_signal
close_signal-files s none e h =
    let same = returns-injective (rw (close_signal, e) at h) in
    (sym (ap (λ u. u.open_files) same), sym (ap (λ u. u.next_file) same))
close_signal-files s (some ch) e h = close_channel-files ch s (rw (close_signal, e) at h)

Below-at : {n m : ℕ} {fds gds : List ℕ} → fds ≡ gds → n ≡ m → Below m gds → Below n fds
Below-at p q h = rw (p, q) h

Holds-count : {j k : ℕ} {s : State} → j ≡ k → Holds j s → Holds k s
Holds-count p h = rw (← p) h

-- A call that only counts.
counting :
    {k : ℕ} (m : Metric) (s : State) {t : State}
    → returns (counted m s) ≡ returns t
    → Holds k s
    → Holds (k + 0) t
counting {k} m s h g =
    Holds-count (omega arith) (subst (Holds k) (returns-injective h) (Holds-files refl refl g))

log_response-files :
    (f : Files) (c : Settings) (n req resp : String) (s : State)
    → ((path : String) → f.opens path ≡ true)
    → Below s.next_file s.open_files
    → ((log_response f c n req resp s).open_files ≡ suc s.next_file ∷ s.open_files)
      × ((log_response f c n req resp s).next_file ≡ suc (suc s.next_file))
unfolding log_response
log_response-files f c n req resp s opens h =
    (rw (opens _, opens _) (remove_twice s.next_file s.open_files h), rw (opens _, opens _) refl)

log_response-Holds :
    {k : ℕ} (f : Files) (c : Settings) (n req resp : String) (s : State)
    → ((path : String) → f.opens path ≡ true)
    → Holds k s
    → Holds (suc k) (log_response f c n req resp s)
log_response-Holds f c n req resp s opens h =
    let (files, next) = log_response-files f c n req resp s opens h.below in
    record {
      count = ap length files ∙ ap suc h.count;
      below =
          Below-at files next
            (omega arith, Below-suc (suc s.next_file) _ (Below-suc s.next_file _ h.below));
    }

handle-Holds :
    {k : ℕ} (f : Files) (c : Settings) (call : Call) (s : State) {t : State}
    → ((path : String) → f.opens path ≡ true)
    → c.log_access ≡ true
    → handle f c call s ≡ returns t
    → Holds k s
    → Holds (k + tally grpc_on_stream_response call) t
unfolding handle on_request on_fetch tally
handle-Holds {k} f c (on_stream_response n req resp) s opens log h g = Holds-count (omega arith) (
    subst (Holds (suc k)) (returns-injective (rw (handle, log) at h))
      (log_response-Holds f c n req resp _ opens (Holds-files refl refl g)))
handle-Holds {k} f c on_stream_request s opens log h g =
    let (p, q) = close_signal-files _ s.signal refl h in
    Holds-count (omega arith) (Holds-files p q g)
handle-Holds {k} f c on_fetch_request s opens log h g =
    let (p, q) = close_signal-files _ s.signal refl h in
    Holds-count (omega arith) (Holds-files p q g)
handle-Holds {k} f c on_stream_open s opens log h g = counting (metric_of on_stream_open) s h g
handle-Holds {k} f c on_stream_closed s opens log h g = counting (metric_of on_stream_closed) s h g
handle-Holds {k} f c on_fetch_response s opens log h g =
    counting (metric_of on_fetch_response) s h g
handle-Holds {k} f c on_stream_delta_request s opens log h g =
    counting (metric_of on_stream_delta_request) s h g
handle-Holds {k} f c on_stream_delta_response s opens log h g =
    counting (metric_of on_stream_delta_response) s h g
handle-Holds {k} f c on_stream_delta_request_on_stream_delta_request s opens log h g =
    counting (metric_of on_stream_delta_request_on_stream_delta_request) s h g
handle-Holds {k} f c on_delta_stream_open s opens log h g =
    counting (metric_of on_delta_stream_open) s h g
handle-Holds {k} f c on_delta_stream_closed s opens log h g =
    counting (metric_of on_delta_stream_closed) s h g

run-step :
    (f : Files) (c : Settings) (call : Call) (calls : List Call) (s : State) (o : Outcome State)
    {t : State}
    → handle f c call s ≡ o
    → run f c (call ∷ calls) s ≡ returns t
    → (u : State) × (handle f c call s ≡ returns u) × (run f c calls u ≡ returns t)
unfolding run
run-step f c call calls s (returns u) e h = (u, e, rw (run, e) at h)
run-step f c call calls s panics e h = ground (arith, rw (run, e) at h)

run-Holds :
    (f : Files) (c : Settings) (calls : List Call) (k : ℕ) (s : State) {t : State}
    → ((path : String) → f.opens path ≡ true)
    → c.log_access ≡ true
    → run f c calls s ≡ returns t
    → Holds k s
    → Holds (k + count grpc_on_stream_response calls) t
unfolding run count
run-Holds f c [] k s opens log h g =
    Holds-count (omega arith) (subst (Holds k) (returns-injective h) g)
run-Holds f c (call ∷ calls) k s opens log h g =
    let (u, p, q) = run-step f c call calls s _ refl h in
    Holds-count (omega arith) (
      run-Holds f c calls (k + tally grpc_on_stream_response call) u opens log q
        (handle-Holds f c call s opens log p g))

-- Where accesses are logged and every file can be opened, after any calls as many descriptors are
-- open as there were calls of OnStreamResponse: it never closes the file of requests.
pub run-open_files :
    (f : Files) (c : Settings) (calls : List Call) (base : Counters) (contents : String → String)
    → {t : State} → ((path : String) → f.opens path ≡ true)
    → c.log_access ≡ true
    → run f c calls (new_callbacks base contents) ≡ returns t
    → length t.open_files ≡ count grpc_on_stream_response calls
run-open_files f c calls base contents opens log h =
    (run-Holds f c calls 0 (new_callbacks base contents) opens log h
      (record { count = refl; below = tt })).count
    ∙ omega arith
