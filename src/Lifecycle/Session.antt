-- ===== src/Lifecycle/Session.antt =====
-- The state of a connection and its request, and `os_recv` (connection.h, http.h, recv.c). The buffer of
-- `MAX_REQUEST_LINE_SIZE` bytes is taken to belong to the connection.
use ostrichserver.Base.{
  ℕ, ◌+◌, ◌-◌, ◌%◌, ◌^◌, Bool, true, false, List, [], ◌∷◌, leb, ◌==◌, if◌then◌else◌, length, take,
  drop,
}
use ostrichserver.RequestLine.Types.{State, sw_start, Request, new_request, OsBuf}
use ostrichserver.HttpRequest.Strings.{Strings, new_strings}

abbrev pub max_request_line_size : ℕ
max_request_line_size = 1024

-- What a call of `recv` on a socket finds: bytes, of which it takes as many as it is asked for, and none
-- at the end of the stream; EAGAIN; EINTR; another error.
pub data Answer : Type 0 where
  arrived : List ℕ → Answer
  not_ready : Answer
  interrupted : Answer
  failed : Answer

-- the answers to the calls to come; behind the last one nothing is ready
abbrev pub Socket : Type 0
Socket = List Answer

-- the result of `os_recv`: bytes (none for 0), `OS_AGAIN`, or `OS_ERR`
pub data Received : Type 0 where
  got : List ℕ → Received
  recv_again : Received
  recv_err : Received

-- `os_recv` for `size` bytes: an interrupted call is made again
unfoldable pub os_recv : ℕ → Socket → Received × Socket
os_recv size [] = (recv_again, [])
os_recv size (arrived xs ∷ socket) =
    if leb (length xs) size
    then (got xs, socket)
    else (got (take size xs), arrived (drop size xs) ∷ socket)
os_recv size (not_ready ∷ socket) = (recv_again, socket)
os_recv size (interrupted ∷ socket) = os_recv size socket
os_recv size (failed ∷ socket) = (recv_err, socket)

-- `event_handler` of the event
pub data Phase : Type 0 where
  wait_request process_line process_headers : Phase

-- A connection with its event, its buffer and its request. `is_open` is false when the socket is closed
-- and the connection freed, `live` when there is no request or it is freed. `bytes` are those from
-- `start` up to `last`.
pub record Session : Type 0 where
  pub phase : Phase
  pub is_open : Bool
  pub live : Bool
  pub count : ℕ
  pub bytes : List ℕ
  pub pos : ℕ
  pub received : ℕ
  pub ev_timedout : Bool
  pub ev_error : Bool
  pub timedout : Bool
  pub error : Bool
  pub state : State
  pub request : Request
  pub strings : Strings

-- an accepted connection
abbrev pub new_session : Session
new_session = record {
  phase = wait_request;
  is_open = true;
  live = false;
  count = 0;
  bytes = [];
  pos = 0;
  received = 0;
  ev_timedout = false;
  ev_error = false;
  timedout = false;
  error = false;
  state = sw_start;
  request = new_request;
  strings = new_strings;
}

abbrev pub buffer : Session → OsBuf
buffer s = record { bytes = s.bytes; pos = s.pos }

-- `http_close_connection` of a socket that is not -1
abbrev pub http_close_connection : Session → Session
http_close_connection s = record s { is_open = false }

-- `http_free_request`
abbrev pub http_free_request : Session → Session
http_free_request s = record s { live = false }

-- `http_create_request`, with the buffer that has been read
abbrev pub http_create_request : Session → Session
http_create_request s = record s {
  live = true;
  count = 1;
  state = sw_start;
  request = new_request;
  strings = new_strings;
}

-- `http_close_request`; `count` has 32 bits
unfoldable pub http_close_request : Session → Session
http_close_request s =
    let left = (s.count + 2 ^ 32 - 1) % 2 ^ 32 in
    if left == 0
    then http_close_connection (http_free_request (record s { count = left }))
    else record s { count = left }
