-- ===== src/Lifecycle/Handlers.antt =====
-- The handlers of the event of a connection (http_request.c).
use ostrichserver.Base.{
  ℕ, zero, suc, ◌+◌, ◌-◌, Bool, true, false, ◌&&◌, List, [], ◌∷◌, ◌++◌, Option, none, some, ltb,
  if◌then◌else◌, length, is_some, ptr_or, take, drop,
}
use ostrichserver.RequestLine.Types.{
  State, Request, os_ok, os_again, invalid_method, invalid_request, invalid_09_method,
}
use ostrichserver.RequestLine.Parse.{Parsed, http_parse_request_line}
use ostrichserver.HttpRequest.Strings.{Strings, set_line_strings, http_process_request_uri}
use ostrichserver.HttpRequest.Host.{HostRc, declined, err, ok, os_http_validate_host}
use ostrichserver.Lifecycle.Session.{
  max_request_line_size, Socket, Received, got, recv_again, recv_err, os_recv, Session,
  process_line, process_headers, buffer, http_close_connection, http_create_request,
  http_close_request,
}

-- What a call of a handler comes to: it waits for the next event; the request was to be closed; the
-- request was refused by `http_finalize_request`, which prints a line; `http_process_request` was
-- called; or `http_process_request_headers` was.
pub data Done : Type 0 where
  waits closed refused processed to_headers : Done

-- What the calls outside come to: `os_calloc` of the buffer, `epoll_event_add`, and `os_malloc` of the URI
-- and of the host.
pub record Env : Type 0 where
  pub start_allocated : Bool
  pub polled : Bool
  pub uri_allocated : Bool
  pub host_allocated : Bool

-- The result of `http_read_request_header`: there are bytes to parse, or the handler returns.
pub data ReadRc : Type 0 where
  ready : ReadRc
  stops : Done → ReadRc

-- `http_read_request_header` where all that was read is parsed, after `os_recv`
unfoldable pub after_recv : Env → Session → Received → Session × ReadRc
after_recv env s recv_again =
    if env.polled then (s, stops waits) else (http_close_request s, stops closed)
after_recv env s recv_err = (record s { ev_error = true; error = true }, stops refused)
after_recv env s (got []) = (record s { error = true }, stops refused)
after_recv env s (got (x ∷ xs)) =
    (record s { bytes = s.bytes ++ x ∷ xs; received = s.received + length (x ∷ xs) }, ready)

-- `http_read_request_header`
unfoldable pub http_read_request_header : Env → Session → Socket → Session × ReadRc × Socket
unfolding after_recv
http_read_request_header env s socket =
    let (result, socket') = os_recv (max_request_line_size - length s.bytes) socket in
    let (s', rc) = after_recv env s result in
    if ltb s.pos (length s.bytes) then (s, ready, socket) else (s', rc, socket')

-- the bytes from `host_start` up to `host_end`
abbrev pub host_bytes : Session → List ℕ
host_bytes s =
    take (ptr_or s.request.host_end 0 - ptr_or s.request.host_start 0)
      (drop (ptr_or s.request.host_start 0) s.bytes)

-- behind the check of the host
unfoldable pub after_host : Session → HostRc → Session × Done
after_host s declined = (s, refused)
after_host s err = (http_close_request s, closed)
after_host s (ok host) =
    if ltb s.request.http_version 1000
    then (s, processed)
    else (record s { phase = process_headers }, to_headers)

-- the check of the host where the line has one; `ok` of nothing where it has none
abbrev pub checked_host : Env → Session → HostRc
checked_host env s =
    if is_some s.request.host_start && is_some s.request.host_end
    then os_http_validate_host (host_bytes s) false env.host_allocated
    else ok []

-- behind `http_process_request_uri`
unfoldable pub after_uri : Env → Session → Option Strings → Session × Done
unfolding after_host
after_uri env s none = (http_close_request s, closed)
after_uri env s (some strings) =
    let s' = record s { strings = strings } in after_host s' (checked_host env s')

-- `http_process_request_line` where the parser gave `OS_OK`
unfoldable pub on_line : Env → Session → Session × Done
unfolding after_uri
on_line env s = after_uri env s (
    http_process_request_uri env.uri_allocated s.request
      (set_line_strings s.request s.pos s.strings))

-- what the parser has written to the request and the buffer
abbrev pub with_parsed : Session → State → Request → ℕ → Session
with_parsed s sw r p = record s { state = sw; request = r; pos = p }

-- What a call of a handler returns; `none` means that the fuel ran out.
abbrev pub Result : Type 0
Result = Option (Session × Done × Socket)

-- the loop behind `http_parse_request_line`; `rest` is the loop from its head on
abbrev pub on_parsed : (Session → Socket → Result) → Env → Session → Socket → Option Parsed → Result
on_parsed rest env s socket none = none
on_parsed rest env s socket (some (os_again, sw, r, p)) = rest (with_parsed s sw r p) socket
on_parsed rest env s socket (some (os_ok, sw, r, p)) =
    let (s', done) = on_line env (with_parsed s sw r p) in some (s', done, socket)
on_parsed rest env s socket (some (invalid_method, sw, r, p)) =
    some (with_parsed s sw r p, refused, socket)
on_parsed rest env s socket (some (invalid_request, sw, r, p)) =
    some (with_parsed s sw r p, refused, socket)
on_parsed rest env s socket (some (invalid_09_method, sw, r, p)) =
    some (with_parsed s sw r p, refused, socket)

-- the loop behind `http_read_request_header`
abbrev pub on_read : (Session → Socket → Result) → Env → Session × ReadRc × Socket → Result
on_read rest env (s, stops done, socket) = some (s, done, socket)
on_read rest env (s, ready, socket) =
    on_parsed rest env s socket (http_parse_request_line s.state s.request (buffer s))

-- `for ( ;; )`, which comes back to its head only with `OS_AGAIN`
unfoldable pub line_loop : ℕ → Env → Session → Socket → Result
line_loop zero env s socket = none
line_loop (suc fuel) env s socket =
    on_read (line_loop fuel env) env (http_read_request_header env s socket)

-- Each round but the first reads a byte into the buffer.
abbrev pub line_fuel : ℕ
line_fuel = 1026

-- `http_process_request_line` on an event that has timed out or not
abbrev pub on_event : Bool → Env → Session → Socket → Result
on_event true env s socket =
    some (http_close_request (record s { timedout = true }), closed, socket)
on_event false env s socket = line_loop line_fuel env s socket

-- `http_process_request_line`
unfoldable pub http_process_request_line : Env → Session → Socket → Result
http_process_request_line env s socket = on_event s.ev_timedout env s socket

-- `http_wait_request_handler` behind `os_recv`
unfoldable pub after_first_recv : Env → Session → Received → Socket → Result
unfolding http_process_request_line
after_first_recv env s recv_again socket =
    if env.polled then some (s, waits, socket) else some (http_close_connection s, closed, socket)
after_first_recv env s recv_err socket =
    some (http_close_connection (record s { ev_error = true }), closed, socket)
after_first_recv env s (got []) socket = some (http_close_connection s, closed, socket)
after_first_recv env s (got (x ∷ xs)) socket =
    let s' = record s { bytes = x ∷ xs; received = s.received + length (x ∷ xs) } in
    http_process_request_line env (record (http_create_request s') { phase = process_line }) socket

-- `http_wait_request_handler`
unfoldable pub http_wait_request_handler : Env → Session → Socket → Result
unfolding after_first_recv
http_wait_request_handler env s socket =
    if env.start_allocated
    then (let (result, socket') = os_recv max_request_line_size socket in
        after_first_recv env (record s { bytes = []; pos = 0 }) result socket')
    else some (http_close_connection s, closed, socket)
