-- ===== src/AccessLogs/Lines.antt =====
-- pkg/controlplane/accessLogService.go: the lines of a stream, message by message.
use mathlib.Core.List.{flat_map}
use envoy_control_plane.Prelude.{◌≡◌, refl, ap, String, List, [], ◌∷◌, ◌++◌, Error, wrap}
use envoy_control_plane.AccessLogs.{
  Message, Line, next_name, entry_lines, receive, stream_access_logs,
}

-- Each message with the name of the last identifier up to it.
unfoldable pub named : String → List Message → List (String × Message)
named log_name [] = []
named log_name (msg ∷ msgs) = (next_name log_name msg, msg) ∷ named (next_name log_name msg) msgs

lines_of : String × Message → List Line
lines_of (log_name, msg) = entry_lines log_name msg.log_entries

receive_lem :
    (log_name : String) (msgs : List Message) (e : Error)
    → receive log_name msgs e
      ≡ (flat_map lines_of (named log_name msgs), wrap e "error in stream.Recv()")
unfolding receive named flat_map lines_of
receive_lem log_name [] e = refl
receive_lem log_name (msg ∷ msgs) e =
    ap (λ b. (entry_lines (next_name log_name msg) msg.log_entries ++ b.0, b.1))
      (receive_lem (next_name log_name msg) msgs e)

-- StreamAccessLogs ends with the error of the stream, after it logged the entries of every message in
-- order, each under the name of the last identifier up to its message, and under "" before the first.
stream_access_logs_lem :
    (msgs : List Message) (e : Error)
    → stream_access_logs msgs e
      ≡ (flat_map lines_of (named "" msgs), wrap e "error in stream.Recv()")
unfolding stream_access_logs
stream_access_logs_lem msgs e = receive_lem "" msgs e
