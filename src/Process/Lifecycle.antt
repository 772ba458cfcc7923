-- ===== src/Process/Lifecycle.antt =====
-- cmd/main/main.go: which parts of the process run, in every state that it reaches.
use envoy_control_plane.Prelude.{
  is_some, none, Outcome, returns, panics, ◌≡◌, refl, ap, sym, ◌∙◌, subst, ℕ, true, false, Option,
  some, List, [], ◌∷◌, ◌++◌, inl, inr, ok, err, Result, ◌==◌, arith, Bool-cases,
}
use envoy_control_plane.Config.{Settings}
use envoy_control_plane.Loading.{validate_config}
use envoy_control_plane.Process.{
  Election, election_of, Part, http_server, leader_election, event_handlers, grpc_server,
  https_server, Process, Host, init, exited, fatal, start, run_leader_election, run_settings, begun,
  main, on_started_leading, Step, started_leading, stopped_leading, first_signal, second_signal,
  grace_period_over, Reachable, here, step,
}

-- What a process is: ended before it started anything, ended for want of a lease, a candidate, the
-- leader, or an instance without an election.
pub data Phase : Type 0 where
  ended_early no_lease candidate leader single : Phase

abbrev pub parts_of : Phase → List Part
parts_of ended_early = []
parts_of no_lease = http_server ∷ []
parts_of candidate = http_server ∷ leader_election ∷ []
parts_of leader = http_server ∷ leader_election ∷ event_handlers ∷ grpc_server ∷ https_server ∷ []
parts_of single = http_server ∷ event_handlers ∷ grpc_server ∷ https_server ∷ []

abbrev pub is_master_of : Phase → ℕ
is_master_of leader = 1
is_master_of _ = 0

-- The settings of Init, with an election for their lease or without one.
abbrev pub Elects : Host → Option Election → Type 0
Elects host election =
    (c : Settings) × (init host ≡ returns (ok c))
    × (c.leader_election ≡ true)
    × (election ≡ some (election_of c))

abbrev pub IsSingle : Host → Option Election → Type 0
IsSingle host election =
    (c : Settings) × (init host ≡ returns (ok c)) × (c.leader_election ≡ false) × (election ≡ none)

abbrev pub Allowed : Host → Phase → Option ℕ → Option Election → Type 0
Allowed host ended_early code election = (is_some code ≡ true) × (election ≡ none)
Allowed host no_lease code election = (is_some code ≡ true) × (election ≡ none)
Allowed host candidate code election = Elects host election
Allowed host leader code election = Elects host election
Allowed host single code election = IsSingle host election

pub record In (host : Host) (phase : Phase) (p : Process) : Type 0 where
  pub parts : p.parts ≡ parts_of phase
  pub is_master : p.is_master ≡ is_master_of phase
  pub allowed : Allowed host phase p.exit_code p.election

abbrev Somewhere : Host → Process → Type 0
Somewhere host p = (phase : Phase) × In host phase p

ended :
    (host : Host) (phase : Phase) (code : Option ℕ) (n : ℕ) (election : Option Election)
    → Allowed host phase code election
    → Allowed host phase (some n) election
ended host ended_early code n election h = (refl, h.1)
ended host no_lease code n election h = (refl, h.1)
ended host candidate code n election h = h
ended host leader code n election h = h
ended host single code n election h = h

run_settings-In :
    (host : Host) (c : Settings)
    → init host ≡ returns (ok c)
    → Somewhere host (run_settings c (record begun { parts = http_server ∷ [] }))
unfolding run_settings run_leader_election start
run_settings-In host c h = elim (Bool-cases c.leader_election) [
  | inr e ↦ rw e (single, record { parts = refl; is_master = refl; allowed = (c, h, e, refl) })
  | inl e ↦ rw e (elim (Bool-cases (c.namespace == "")) [
    | inl n ↦ rw n (no_lease, record { parts = refl; is_master = refl; allowed = (refl, refl) })
    | inr n ↦ rw n (elim (Bool-cases (c.pod_name == "")) [
      | inl q ↦ rw q (no_lease, record { parts = refl; is_master = refl; allowed = (refl, refl) })
      | inr q ↦
          rw q (candidate, record { parts = refl; is_master = refl; allowed = (c, h, e, refl) })
    ])
  ])
]

early :
    (host : Host) {p : Process}
    → p.parts ≡ []
    → p.is_master ≡ 0
    → is_some p.exit_code ≡ true
    → p.election ≡ none
    → Somewhere host p
early host a b c d = (ended_early, record { parts = a; is_master = b; allowed = (c, d) })

main-version : (host : Host) → host.version ≡ true → main host ≡ exited 0 begun
unfolding main
main-version host v = rw (main, v) refl

main-inits :
    (host : Host) (r : Outcome (Result Settings))
    → host.version ≡ false
    → (host.validate == "") ≡ true
    → init host ≡ r
    → main host ≡ (elim r [
      | panics ↦ exited 2 begun
      | returns (err e) ↦ fatal begun
      | returns (ok c) ↦ run_settings c (record begun { is_master = 0; parts = http_server ∷ [] })
    ])
unfolding main
main-inits host r v e h = rw (main, v, e, h) refl

main-validate :
    (host : Host) (o : Outcome (Unit {0}))
    → host.version ≡ false
    → (host.validate == "") ≡ false
    → validate_config host.read_file host.unmarshal_config host.codec host.flags host.validate ≡ o
    → main host ≡ (elim o [ panics ↦ exited 1 begun | returns _ ↦ exited 0 begun ])
unfolding main
main-validate host o v e h = rw (main, v, e, h) refl

inits :
    (host : Host) (r : Outcome (Result Settings))
    → init host ≡ r
    → Somewhere host (elim r [
      | panics ↦ exited 2 begun
      | returns (err e) ↦ fatal begun
      | returns (ok c) ↦ run_settings c (record begun { is_master = 0; parts = http_server ∷ [] })
    ])
inits host panics k = early host refl refl refl refl
inits host (returns (err e)) k = early host refl refl refl refl
inits host (returns (ok c)) k = run_settings-In host c k

validates :
    (host : Host) (o : Outcome (Unit {0}))
    → Somewhere host (elim o [ panics ↦ exited 1 begun | returns _ ↦ exited 0 begun ])
validates host panics = early host refl refl refl refl
validates host (returns _) = early host refl refl refl refl

initial-In : (host : Host) → Somewhere host (main host)
initial-In host = elim (Bool-cases host.version) [
  | inl v ↦ subst (Somewhere host) (sym (main-version host v)) (early host refl refl refl refl)
  | inr v ↦ elim (Bool-cases (host.validate == "")) [
    | inl e ↦
        subst (Somewhere host) (sym (main-inits host (init host) v e refl))
          (inits host (init host) refl)
    | inr e ↦ subst (Somewhere host) (sym (main-validate host _ v e refl)) (validates host _)
  ]
]

step-In :
    (host : Host) (phase : Phase) {p q : Process} → In host phase p → Step p q → Somewhere host q
unfolding on_started_leading start
step-In host ended_early h (started_leading fine parts) = ground (arith, sym h.parts ∙ parts)
step-In host no_lease h (started_leading fine parts) = ground (arith, sym h.parts ∙ parts)
step-In host candidate h (started_leading fine parts) = (
  leader,
  record {
    parts = ap (λ l. l ++ event_handlers ∷ grpc_server ∷ https_server ∷ []) parts;
    is_master = refl;
    allowed = h.allowed;
  },
)
step-In host leader h (started_leading fine parts) = ground (arith, sym h.parts ∙ parts)
step-In host single h (started_leading fine parts) = ground (arith, sym h.parts ∙ parts)
step-In host phase {p} h (stopped_leading before after fine parts) = (
  phase,
  record {
    parts = h.parts;
    is_master = h.is_master;
    allowed = ended host phase p.exit_code _ p.election h.allowed;
  },
)
step-In host phase h (first_signal fine) =
    (phase, record { parts = h.parts; is_master = h.is_master; allowed = h.allowed })
step-In host phase {p} h (second_signal fine cancelled) = (
  phase,
  record {
    parts = h.parts;
    is_master = h.is_master;
    allowed = ended host phase p.exit_code _ p.election h.allowed;
  },
)
step-In host phase {p} h (grace_period_over fine cancelled) = (
  phase,
  record {
    parts = h.parts;
    is_master = h.is_master;
    allowed = ended host phase p.exit_code _ p.election h.allowed;
  },
)

-- In every state that the process reaches, from its flags and settings and by any elections and
-- signals, the parts that ran are those of one phase, each once and in the order of the phase, and
-- the gauge is 1 in the phase of a leader and 0 in the others: so the event handlers and the servers
-- of a process that elects run only if it was elected, and those of a single instance run while the
-- gauge is 0. A candidate and a leader contend for the lease of the program's name in the namespace
-- of the settings of Init, as the pod that these name. A process that started no part, or the
-- HTTP server alone, has ended.
pub Reachable-In :
    (host : Host) {p : Process} → Reachable host p → (phase : Phase) × In host phase p
Reachable-In host here = initial-In host
Reachable-In host (step path s) = let (phase, h) = Reachable-In host path in step-In host phase h s
