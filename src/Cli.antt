-- ===== src/Cli.antt =====
-- cmd/cli/main.go: the client that init containers and hooks run. A run is the list of what it does,
-- one entry after the other, where the answers to its requests come from a list.
pub mod Waiting
use envoy_control_plane.Prelude.{
  ℕ, String, Bool, true, false, not, ◌&&◌, Option, none, some, List, [], ◌∷◌, Result, ok, err,
  Error, message, ◌==◌, nat_beq, if◌then◌else◌, ◌*◌,
}
use envoy_control_plane.Prelude.Texts.{join_text}

-- The flags; durations are in milliseconds.
pub record Flags : Type 0 where
  pub action : String
  pub namespace : String
  pub pod : String
  pub server : String
  pub port : String
  pub wait : Bool
  pub envoy_log_level : String
  pub drain_envoy : Bool
  pub timeout : ℕ
  pub envoy_admin_port : String
  pub tls_insecure : Bool
  pub tls_ca : String
  pub tls_client_crt : String
  pub tls_client_key : String

-- What package net/http, crypto/tls and os answer before a request: the error of a key pair and of
-- a file, and the error of http.NewRequest for a method and a URL; and url.Values.Encode.
pub record Host : Type 0 where
  pub key_pair : (crt key : String) → Option Error
  pub read_file : String → Option Error
  pub new_request : (url : String) → Option Error
  pub encode : (namespace pod : String) → String

-- A response: its status and what io.ReadAll gives of its body. `cli.Do` may fail.
pub record Response : Type 0 where
  pub status_code : ℕ
  pub body : Result String

abbrev pub Answer : Type 0
Answer = Result Response

-- The method of a request is in its name: the admin API of Envoy at a path, the readiness of the
-- control plane, and the action with its form.
pub data Effect : Type 0 where
  post_admin : (path : String) → Effect
  get_ready : Effect
  post_action : (form : String) → Effect
  print : (text : String) → Effect
  sleep : ℕ → Effect

-- `waits` is a run that has sent a request and has no answer yet.
pub data End : Type 0 where
  finished : End
  fatal : Error → End
  crashed : End
  waits : End

pub record Trace : Type 0 where
  pub effects : List Effect
  pub end : End

abbrev pub ends : End → Trace
ends e = record { effects = []; end = e }

abbrev pub then_trace : Effect → Trace → Trace
then_trace e t = record { effects = e ∷ t.effects; end = t.end }

module _ (f : Flags) (host : Host) where
  abbrev pub url : (scheme server port path : String) → String
  url scheme server port path =
      join_text scheme (join_text "://" (join_text server (join_text ":" (join_text port path))))

  abbrev pub read_body : (Result String) → (String → Trace) → Trace
  read_body (err e) next = ends (fatal e)
  read_body (ok body) next = next body

  abbrev pub do_request : Effect → (Response → List Answer → Trace) → List Answer → Trace
  do_request e next [] = then_trace e (ends waits)
  do_request e next (err failure ∷ answers) = then_trace e (ends (fatal failure))
  do_request e next (ok r ∷ answers) = then_trace e (next r answers)

  -- `next` is what follows the call.
  unfoldable pub request_envoy_admin : String → (List Answer → Trace) → List Answer → Trace
  request_envoy_admin path next answers =
      elim (host.new_request (url "http" "127.0.0.1" f.envoy_admin_port path)) [
        | some e ↦ ends (fatal e)
        | none ↦
            do_request (post_admin path)
              (λ r rest. read_body r.body (λ body. then_trace (print body) (next rest))) answers
      ]

  abbrev pub is_ready : Answer → Bool
  is_ready (err e) = false
  is_ready (ok r) = nat_beq r.status_code 200

  -- The loop of `waitForAPI`: a failed request and a response of another status are tried again.
  unfoldable pub poll : (List Answer → Trace) → List Answer → Trace
  poll next [] = then_trace get_ready (ends waits)
  poll next (answer ∷ answers) =
      let again = poll next answers in
      then_trace get_ready (if is_ready answer then next answers else then_trace (sleep 1000) again)

  -- An error of http.NewRequest leaves a nil request, at which `Do` panics.
  unfoldable pub wait_for_api : (List Answer → Trace) → List Answer → Trace
  unfolding poll
  wait_for_api next answers = elim (host.new_request (url "https" f.server f.port "/api/ready")) [
    | some e ↦ ends crashed
    | none ↦ poll next answers
  ]

  unfoldable pub run_action : List Answer → Trace
  run_action answers = elim (host.new_request (url "https" f.server f.port f.action)) [
    | some e ↦ ends (fatal e)
    | none ↦
        do_request (post_action (host.encode f.namespace f.pod))
          (λ r rest. read_body r.body (λ body. then_trace (print body) (
            ends
              (if nat_beq r.status_code 200 then finished else fatal (message "result not ok")))))
          answers
  ]

  unfoldable pub drain : List Answer → Trace
  unfolding request_envoy_admin
  drain = request_envoy_admin "/drain_listeners?graceful" (
      request_envoy_admin "/healthcheck/fail" (λ rest.
        then_trace (sleep f.timeout)
          (request_envoy_admin "/quitquitquit" (λ _. ends finished) rest)))

  -- `main`, behind the set-up of TLS.
  unfoldable pub run_flags : List Answer → Trace
  unfolding drain request_envoy_admin run_action wait_for_api
  run_flags answers =
      if not (f.envoy_log_level == "")
      then request_envoy_admin (join_text "/logging?level=" f.envoy_log_level) (λ _. ends finished)
          answers
      else if f.drain_envoy
      then drain answers
      else if f.namespace == ""
      then ends (fatal (message "no namespace"))
      else if f.pod == ""
      then ends (fatal (message "no pod"))
      else if f.wait
      then wait_for_api run_action answers
      else run_action answers

  abbrev pub checked : Option Error → Trace → Trace
  checked (some e) next = ends (fatal e)
  checked none next = next

  unfoldable pub main : List Answer → Trace
  unfolding run_flags
  main answers =
      checked
        (if not f.tls_insecure && not (f.tls_client_crt == "") && not (f.tls_ca == "")
          then host.key_pair f.tls_client_crt f.tls_client_key
          else none)
        (checked
          (if not f.tls_insecure && not (f.tls_ca == "") then host.read_file f.tls_ca else none)
          (run_flags answers))
