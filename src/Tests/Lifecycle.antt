-- ===== src/Tests/Lifecycle.antt =====
-- A connection and its request: runs, and the theorems at concrete inputs.
use ostrichserver.Base.{bytes, ℕ, true, List, [], ◌∷◌, ◌++◌, Option, none, some, ◌≡◌, refl, arith}
use ostrichserver.RequestLine.Parse.{http_parse_request_line, step, at_done}
use ostrichserver.RequestLine.Method.{not_method_byte}
use ostrichserver.RequestLine.Uri.{usual}
use ostrichserver.HttpRequest.Strings.{http_process_request_uri}
use ostrichserver.Lifecycle.Session.{
  Socket, arrived, not_ready, interrupted, os_recv, Session, process_line, new_session,
  http_create_request, http_close_request,
}
use ostrichserver.Lifecycle.Handlers.{
  Done, refused, to_headers, Env, Result, http_read_request_header, on_line, line_loop,
  http_process_request_line, http_wait_request_handler,
}
use ostrichserver.Lifecycle.OneParse.{IsLine, Ends, process_line-Ends}
use ostrichserver.Lifecycle.Waiting.{Waited, wait_request-Waited}

-- Unfolded to run the functions.
lifecycle_run : Unit {0}
unfolding os_recv http_close_request http_read_request_header on_line line_loop
    http_process_request_line http_wait_request_handler http_parse_request_line step at_done
    not_method_byte usual http_process_request_uri
lifecycle_run = tt

abbrev all_well : Env
all_well = record {
  start_allocated = true;
  polled = true;
  uri_allocated = true;
  host_allocated = true;
}

abbrev line_end : List ℕ
line_end = 13 ∷ 10 ∷ []

abbrev in_pieces : Socket
in_pieces =
    arrived (bytes "GET /")
    ∷ interrupted
    ∷ arrived (bytes "a HTT")
    ∷ arrived (bytes "P/1.1" ++ line_end ++ bytes "Host")
    ∷ not_ready
    ∷ []

-- what the handler has come to
abbrev end_of : Result → Option (Done × ℕ)
end_of none = none
end_of (some (s, done, socket)) = some (done, s.pos)

pieces : end_of (http_wait_request_handler all_well new_session in_pieces) ≡ some (to_headers, 17)
unfolding lifecycle_run
pieces = refl

ends_early :
    end_of
      (http_wait_request_handler all_well new_session (arrived (bytes "GET /") ∷ arrived [] ∷ []))
    ≡ some (refused, 5)
unfolding lifecycle_run
ends_early = refl

wrong_method :
    end_of (http_wait_request_handler all_well new_session (arrived (bytes "get /") ∷ []))
    ≡ some (refused, 0)
unfolding lifecycle_run
wrong_method = refl

abbrev started : Session
started =
    record (http_create_request (record new_session { bytes = bytes "GET /"; received = 5 })) {
      phase = process_line;
    }

started-IsLine : IsLine started
unfolding http_parse_request_line
started-IsLine = record {
  alive = record { counted = refl; live = refl; opened = refl };
  before = omega arith;
  fits = omega arith;
  parsed = refl;
}

process_line-Ends_example :
    (s' : Session) × (done : Done) × (socket' : Socket) × (http_process_request_line all_well
        started in_pieces
      ≡ some (s', done, socket'))
    × Ends all_well started in_pieces s' done socket'
process_line-Ends_example = process_line-Ends all_well started in_pieces started-IsLine refl

wait_request-Waited_example :
    (s' : Session) × (done : Done) × (socket' : Socket) × (http_wait_request_handler all_well
        new_session in_pieces
      ≡ some (s', done, socket'))
    × Waited all_well new_session in_pieces s' done socket'
wait_request-Waited_example = wait_request-Waited all_well new_session in_pieces refl refl
