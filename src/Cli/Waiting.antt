-- ===== src/Cli/Waiting.antt =====
-- cmd/cli/main.go: the loop that waits for the control plane, and the order of a drain.
use envoy_control_plane.Prelude.{
  ◌≡◌, refl, ap, ◌∙◌, ℕ, String, Bool, true, false, Option, none, some, List, [], ◌∷◌, ◌++◌, Result,
  ok, err, ◌==◌, Error, any, length, zero, suc, arith, Bool-cases, inl, inr,
}
use envoy_control_plane.Cli.{
  Flags, Host, Answer, Effect, post_admin, get_ready, print, sleep, Trace, then_trace, url,
  is_ready, poll, wait_for_api, drain, request_envoy_admin, read_body,
}

-- `n` failed polls.
unfoldable pub polls : ℕ → List Effect
polls zero = []
polls (suc n) = get_ready ∷ sleep 1000 ∷ polls n

abbrev pub is_quit : Effect → Bool
is_quit (post_admin path) = path == "/quitquitquit"
is_quit _ = false

module _ (f : Flags) (host : Host) where
  poll_lem :
      (next : List Answer → Trace) (before : List Answer) (a : Answer) (after : List Answer)
      → any (is_ready f host) before ≡ false
      → is_ready f host a ≡ true
      → ((poll f host next (before ++ a ∷ after)).effects
          ≡ polls (length before) ++ get_ready ∷ (next after).effects)
        × ((poll f host next (before ++ a ∷ after)).end ≡ (next after).end)
  unfolding poll polls
  poll_lem next [] a after none_ready ready = rw (poll, ready) (refl, refl)
  poll_lem next (b ∷ before) a after none_ready ready = elim (Bool-cases (is_ready f host b)) [
    | inl e ↦ ground (arith, e, none_ready)
    | inr e ↦
        let (p, q) = poll_lem next before a after (ground (arith, e, none_ready)) ready in
        rw (poll, e) (ap (λ l. get_ready ∷ sleep 1000 ∷ l) p, q)
  ]

  -- If http.NewRequest accepts the URL, then waitForAPI polls once more than there are answers before
  -- the first with status 200, sleeping a second after each of these, and then the program goes on
  -- with the answers that are left.
  pub wait_for_api_lem :
      (next : List Answer → Trace) (before : List Answer) (a : Answer) (after : List Answer)
      → host.new_request (url f host "https" f.server f.port "/api/ready") ≡ none
      → any (is_ready f host) before ≡ false
      → is_ready f host a ≡ true
      → ((wait_for_api f host next (before ++ a ∷ after)).effects
          ≡ polls (length before) ++ get_ready ∷ (next after).effects)
        × ((wait_for_api f host next (before ++ a ∷ after)).end ≡ (next after).end)
  unfolding wait_for_api
  wait_for_api_lem next before a after fine none_ready ready =
      rw (wait_for_api, fine) (poll_lem next before a after none_ready ready)

  -- A request to Envoy, and a quit in the run: it is answered, and the quit comes later, unless it is
  -- the request itself.
  abbrev Passes : String → (List Answer → Trace) → List Answer → Type 0
  Passes path next answers =
      (body : String) × (rest : List Answer) × ((request_envoy_admin f host path next
          answers).effects
        ≡ post_admin path ∷ print body ∷ (next rest).effects)
      × (any is_quit (next rest).effects ≡ true)

  body_read :
      (b : Result String) (t : Trace)
      → any is_quit (read_body f host b (λ body. then_trace (print body) t)).effects ≡ true
      → (body : String) × ((read_body f host b (λ text. then_trace (print text) t)).effects
          ≡ print body ∷ t.effects)
        × (any is_quit t.effects ≡ true)
  body_read (err e) t h = ground (arith, h)
  body_read (ok b) t h = (b, refl, h)

  answered :
      (path : String) (next : List Answer → Trace) (answers : List Answer) (o : Option Error)
      → host.new_request (url f host "http" "127.0.0.1" f.envoy_admin_port path) ≡ o
      → (path == "/quitquitquit") ≡ false
      → any is_quit (request_envoy_admin f host path next answers).effects ≡ true
      → Passes path next answers
  unfolding request_envoy_admin
  answered path next answers (some e) p ne h = ground (arith, rw (request_envoy_admin, p) at h)
  answered path next [] none p ne h = ground (arith, ne, rw (request_envoy_admin, p) at h)
  answered path next (err e ∷ answers) none p ne h =
      ground (arith, ne, rw (request_envoy_admin, p) at h)
  answered path next (ok r ∷ answers) none p ne h =
      let (b, e, q) = body_read r.body (next answers) (rw (request_envoy_admin, p, ne) at h) in
      (b, answers, rw (request_envoy_admin, p) (ap (λ l. post_admin path ∷ l) e), q)

  quits :
      (next : List Answer → Trace) (answers : List Answer) (o : Option Error)
      → host.new_request (url f host "http" "127.0.0.1" f.envoy_admin_port "/quitquitquit") ≡ o
      → any is_quit (request_envoy_admin f host "/quitquitquit" next answers).effects ≡ true
      → (more : List Effect) × ((request_envoy_admin f host "/quitquitquit" next answers).effects
          ≡ post_admin "/quitquitquit" ∷ more)
  unfolding request_envoy_admin
  quits next answers (some e) p h = ground (arith, rw (request_envoy_admin, p) at h)
  quits next [] none p h = ([], rw (request_envoy_admin, p) refl)
  quits next (err e ∷ answers) none p h = ([], rw (request_envoy_admin, p) refl)
  quits next (ok r ∷ answers) none p h = (
    (read_body f host r.body (λ body. then_trace (print body) (next answers))).effects,
    rw (request_envoy_admin, p) refl,
  )

  -- A drain asks Envoy to quit only after Envoy answered the request to drain its listeners and then
  -- the request to fail its health check, and after the time-out has passed; what it does is then
  -- exactly this.
  pub drain_quits :
      (answers : List Answer)
      → any is_quit (drain f host answers).effects ≡ true
      → (drained failed : String) × (more : List Effect) × ((drain f host answers).effects
          ≡ post_admin "/drain_listeners?graceful"
            ∷ print drained
            ∷ post_admin "/healthcheck/fail"
            ∷ print failed
            ∷ sleep f.timeout
            ∷ post_admin "/quitquitquit"
            ∷ more)
  unfolding drain
  drain_quits answers h =
      let (a, rest, p, q) = answered "/drain_listeners?graceful" _ answers _ refl refl h in
      let (b, rest', r, s) = answered "/healthcheck/fail" _ rest _ refl refl q in
      let (more, t) = quits _ rest' _ refl s in
      (
        a,
        b,
        more,
        p
            ∙ ap (λ l. post_admin "/drain_listeners?graceful" ∷ print a ∷ l)
                (r ∙ ap (λ l. post_admin "/healthcheck/fail" ∷ print b ∷ sleep f.timeout ∷ l) t),
      )
