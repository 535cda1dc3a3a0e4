-- ===== src/Tests/RequestLine.antt =====
-- Request lines: runs of the parser, and its theorems at concrete inputs.
use Prim.Native.String.{String}
use mathlib.Core.Option
use ostrichserver.Base.{bytes, ℕ, ◌++◌, Option, none, some, ◌≡◌, refl, arith, length, drop}
use ostrichserver.RequestLine.Codes
use ostrichserver.RequestLine.Types.{
  State, sw_start, Rc, os_ok, os_again, invalid_method, invalid_request, invalid_09_method,
  new_request, OsBuf,
}
use ostrichserver.RequestLine.Parse.{Parsed, http_parse_request_line, step, at_done}
use ostrichserver.RequestLine.Run.{run, http_parse_request_line-eq-run}
use ostrichserver.RequestLine.Chunks.{outcome, call_again, parse-append}
use ostrichserver.RequestLine.Bounds.{Promises, new_request-IsParsing, parse-Promises}
use ostrichserver.RequestLine.RoundTrip.{Line, IsLine}
use ostrichserver.RequestLine.Method.{
  recognise, method_switch, method_3, method_4, method_5, method_6, method_7, method_8, method_9,
  not_method_byte,
}
use ostrichserver.RequestLine.Target.{is_letter, ip_literal_byte}
use ostrichserver.RequestLine.Uri.{usual}
use ostrichserver.RequestLine.Version.{push_digit}

-- Unfolded to run the parser.
unfoldable pub parser : Unit {0}
unfolding http_parse_request_line step at_done usual push_digit recognise method_switch method_3
    method_4 method_5 method_6 method_7 method_8 method_9 not_method_byte is_letter ip_literal_byte
parser = tt

-- code, `b->pos`, `uri_start`, `uri_end`, `method` and `http_version`
abbrev summary : Parsed → Rc × ℕ × Option ℕ × Option ℕ × ℕ × ℕ
summary (rc, _, r, pos) = (rc, pos, r.uri_start, r.uri_end, r.method, r.http_version)

abbrev parse : String → Option (Rc × ℕ × Option ℕ × Option ℕ × ℕ × ℕ)
parse s =
    Option.map summary
      (http_parse_request_line sw_start new_request (record { bytes = bytes s; pos = 0 }))

get_line :
    parse "GET /index.html HTTP/1.1\r\nHost: a" ≡ some (os_ok, 26, some 4, some 15, Codes.get, 1001)
unfolding parser
get_line = refl

absolute_line :
    parse "POST http://[::1]:80 HTTP/1.0\n" ≡ some (os_ok, 30, some 10, some 11, Codes.post, 1000)
unfolding parser
absolute_line = refl

space_line : parse "GET /a b HTTP/1.1\n" ≡ some (os_ok, 18, some 4, some 8, Codes.get, 1001)
unfolding parser
space_line = refl

lines_09 :
    (parse "GET /\r\n" ≡ some (os_ok, 7, some 4, some 5, Codes.get, 9))
    × (parse "PUT /\n" ≡ some (invalid_09_method, 6, some 4, some 5, Codes.put, 9))
unfolding parser
lines_09 = (refl, refl)

error_lines :
    (parse "get / HTTP/1.1\n" ≡ some (invalid_method, 0, none, none, 0, 0))
    × (parse "GET * HTTP/1.1\n" ≡ some (invalid_request, 0, none, none, Codes.get, 0))
    × (parse "GET / HTTP/1.1\rX" ≡ some (invalid_request, 0, some 4, some 5, Codes.get, 0))
unfolding parser
error_lines = (refl, refl, refl)

-- The 16 bits of a version number wrap: 65537 is read as 1.
version_wraps : parse "GET / HTTP/65537.1\n" ≡ some (os_ok, 19, some 4, some 5, Codes.get, 1001)
unfolding parser
version_wraps = refl

abbrev pub sample : Line
sample = record {
  method = bytes "GET";
  path = bytes "index";
  args = some (bytes "a=1");
  major = 1;
  minor = 1;
}

pub sample-IsLine : IsLine sample
unfolding parser
sample-IsLine = record {
  method_ne_nil = omega arith;
  method_ok = refl;
  path_ok = refl;
  args_ok = refl;
  major_pos = omega arith;
  major_lt = omega arith;
  minor_lt = omega arith;
}

abbrev whole_buf : OsBuf
whole_buf = record { bytes = bytes "GET / HTTP/1.1\r\n"; pos = 0 }

http_parse_request_line-eq-run_example :
    http_parse_request_line sw_start new_request whole_buf
    ≡ some (run whole_buf.bytes sw_start 0 sw_start new_request 0 (drop 0 whole_buf.bytes))
http_parse_request_line-eq-run_example =
    http_parse_request_line-eq-run sw_start new_request whole_buf

-- the state after "GE"
abbrev half : Parsed
half = (os_again, State.sw_method, record new_request { request_start = some 0 }, 2)

parse-append_example :
    Option.map outcome (
      http_parse_request_line sw_start new_request
        (record { bytes = bytes "GE" ++ bytes "T / HTTP/1.1\n"; pos = 0 }))
    ≡ call_again (bytes "GE" ++ bytes "T / HTTP/1.1\n") half
parse-append_example =
    parse-append (bytes "GE") (bytes "T / HTTP/1.1\n") sw_start new_request 0 {first = half}
      (omega arith) (unfold parser in refl)

parse-Promises_example :
    (result : Parsed) × (http_parse_request_line sw_start new_request whole_buf ≡ some result)
    × Promises (length whole_buf.bytes) result
parse-Promises_example =
    parse-Promises sw_start new_request whole_buf new_request-IsParsing (omega arith)
