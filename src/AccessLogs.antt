-- ===== src/AccessLogs.antt =====
-- pkg/controlplane/accessLogService.go: StreamAccessLogs, with the lines that it logs, less their
-- time; and pkg/controlplane/logger.go. A getter of a nil message gives the zero value, and so a
-- missing part of an entry is the empty part.
pub mod Lines
use envoy_control_plane.Prelude.{
  ℕ, String, Bool, true, false, Option, none, some, List, [], ◌∷◌, ◌++◌, Error, wrap, if◌then◌else◌,
}
use envoy_control_plane.Config.{Settings}

pub record AccessLogCommon : Type 0 where
  pub upstream_local_address : String
  pub upstream_cluster : String

pub record HttpRequestProperties : Type 0 where
  pub authority : String
  pub path : String
  pub scheme : String
  pub request_id : String

pub record HttpEntry : Type 0 where
  pub common_properties : Option AccessLogCommon
  pub request : Option HttpRequestProperties
  pub response_code : Option ℕ

-- `LogEntries`: entries of HTTP or of TCP, which may be nil, or none of both.
pub data LogEntries : Type 0 where
  http_logs : List (Option HttpEntry) → LogEntries
  tcp_logs : List (Option (Option AccessLogCommon)) → LogEntries
  no_logs : LogEntries

-- A message: the log name of its identifier, if it has one, and its entries.
pub record Message : Type 0 where
  pub identifier : Option String
  pub log_entries : LogEntries

-- The arguments of the two formats, without the time.
pub data Line : Type 0 where
  http_line :
      (log_name authority path scheme : String) (code : ℕ) (request_id upstream_cluster : String)
      → Line
  tcp_line : (log_name upstream_local_address upstream_cluster : String) → Line

abbrev pub or_empty {ℓ} : {A : Type ℓ} → A → Option A → A
or_empty zero none = zero
or_empty zero (some a) = a

abbrev pub no_common : AccessLogCommon
no_common = record { upstream_local_address = ""; upstream_cluster = "" }

abbrev pub no_request : HttpRequestProperties
no_request = record { authority = ""; path = ""; scheme = ""; request_id = "" }

abbrev pub http_entry_line : String → HttpEntry → Line
http_entry_line log_name entry =
    let common = or_empty no_common entry.common_properties in
    let req = or_empty no_request entry.request in
    http_line log_name req.authority req.path req.scheme (or_empty 0 entry.response_code)
      req.request_id common.upstream_cluster

unfoldable pub http_lines : String → List (Option HttpEntry) → List Line
http_lines log_name [] = []
http_lines log_name (none ∷ entries) = http_lines log_name entries
http_lines log_name (some entry ∷ entries) =
    http_entry_line log_name entry ∷ http_lines log_name entries

unfoldable pub tcp_lines : String → List (Option (Option AccessLogCommon)) → List Line
tcp_lines log_name [] = []
tcp_lines log_name (none ∷ entries) = tcp_lines log_name entries
tcp_lines log_name (some entry ∷ entries) =
    let common = or_empty no_common entry in
    tcp_line log_name common.upstream_local_address common.upstream_cluster
    ∷ tcp_lines log_name entries

unfoldable pub entry_lines : String → LogEntries → List Line
unfolding http_lines tcp_lines
entry_lines log_name (http_logs entries) = http_lines log_name entries
entry_lines log_name (tcp_logs entries) = tcp_lines log_name entries
entry_lines log_name no_logs = []

-- if msg.GetIdentifier() != nil { logName = … }
abbrev pub next_name : String → Message → String
next_name log_name msg = or_empty log_name msg.identifier

-- The loop, for the messages that `Recv` gives before its error: the lines and the error.
unfoldable pub receive : String → List Message → Error → List Line × Error
unfolding entry_lines
receive log_name [] e = ([], wrap e "error in stream.Recv()")
receive log_name (msg ∷ msgs) e =
    let (lines, result) = receive (next_name log_name msg) msgs e in
    (entry_lines (next_name log_name msg) msg.log_entries ++ lines, result)

unfoldable pub stream_access_logs : List Message → Error → List Line × Error
unfolding receive
stream_access_logs msgs e = receive "" msgs e

-- The four methods of Logger: whether the line of go-control-plane is logged.
abbrev pub logged : Settings → String → Option String
logged c line = if c.log_access then some line else none
