-- ===== src/RequestLine/Parse.antt =====
-- The loop of `http_parse_request_line` and what stands behind it.
use ostrichserver.Base.{
  ℕ, zero, suc, ◌+◌, ◌*◌, ◌%◌, ◌^◌, not, ◌&&◌, List, [], ◌∷◌, Option, none, some, ◌==◌,
  if◌then◌else◌, length, drop, is_some,
}
use ostrichserver.RequestLine.Codes
use ostrichserver.RequestLine.Types.{
  State, sw_start, sw_method, sw_spaces_before_uri, sw_schema, sw_schema_slash,
  sw_schema_slash_slash, sw_host_start, sw_host, sw_host_end, sw_host_ip_literal, sw_port,
  sw_host_http_09, sw_after_slash_in_uri, sw_check_uri, sw_check_uri_http_09, sw_uri, sw_http_09,
  sw_http_h, sw_http_ht, sw_http_htt, sw_http_http, sw_first_major_digit, sw_major_digit,
  sw_first_minor_digit, sw_minor_digit, sw_spaces_after_digit, sw_almost_done, Request, OsBuf, Rc,
  os_ok, os_again, invalid_09_method, Step, next, reread, goto_done, fail,
}
use ostrichserver.RequestLine.Method.{on_start, on_method}
use ostrichserver.RequestLine.Target.{
  on_spaces_before_uri, on_schema, on_schema_slash, on_schema_slash_slash, on_host_start, on_host,
  on_host_end, on_host_ip_literal, on_port, on_host_http_09,
}
use ostrichserver.RequestLine.Uri.{
  on_after_slash_in_uri, on_check_uri, on_check_uri_http_09, on_uri, on_http_09,
}
use ostrichserver.RequestLine.Version.{
  on_letter, on_first_major_digit, on_major_digit, on_first_minor_digit, on_minor_digit,
  on_spaces_after_digit, on_almost_done,
}

-- `switch (state)` on the byte `ch = *p`
unfoldable pub step : List ℕ → State → Request → ℕ → ℕ → Step
unfolding on_start on_method on_spaces_before_uri on_schema on_schema_slash on_schema_slash_slash
    on_host_start on_host_end on_host_ip_literal on_port on_host_http_09 on_after_slash_in_uri
    on_check_uri on_check_uri_http_09 on_uri on_http_09 on_letter on_first_major_digit
    on_major_digit on_first_minor_digit on_minor_digit on_spaces_after_digit on_almost_done
step buf sw_start r p ch = on_start r p ch
step buf sw_method r p ch = on_method buf r p ch
step buf sw_spaces_before_uri r p ch = on_spaces_before_uri r p ch
step buf sw_schema r p ch = on_schema r p ch
step buf sw_schema_slash r p ch = on_schema_slash r ch
step buf sw_schema_slash_slash r p ch = on_schema_slash_slash r ch
step buf sw_host_start r p ch = on_host_start r p ch
step buf sw_host r p ch = on_host r p ch
step buf sw_host_end r p ch = on_host_end r p ch
step buf sw_host_ip_literal r p ch = on_host_ip_literal r ch
step buf sw_port r p ch = on_port r p ch
step buf sw_host_http_09 r p ch = on_host_http_09 r p ch
step buf sw_after_slash_in_uri r p ch = on_after_slash_in_uri r p ch
step buf sw_check_uri r p ch = on_check_uri r p ch
step buf sw_check_uri_http_09 r p ch = on_check_uri_http_09 r p ch
step buf sw_uri r p ch = on_uri r p ch
step buf sw_http_09 r p ch = on_http_09 r p ch
step buf sw_http_h r p ch = on_letter b'T' sw_http_ht r ch
step buf sw_http_ht r p ch = on_letter b'T' sw_http_htt r ch
step buf sw_http_htt r p ch = on_letter b'P' sw_http_http r ch
step buf sw_http_http r p ch = on_letter b'/' sw_first_major_digit r ch
step buf sw_first_major_digit r p ch = on_first_major_digit r ch
step buf sw_major_digit r p ch = on_major_digit r ch
step buf sw_first_minor_digit r p ch = on_first_minor_digit r ch
step buf sw_minor_digit r p ch = on_minor_digit r ch
step buf sw_spaces_after_digit r p ch = on_spaces_after_digit r ch
step buf sw_almost_done r p ch = on_almost_done r p ch

-- A call returns its code, `r->state`, the rest of the request, and `b->pos`.
abbrev pub Parsed : Type 0
Parsed = Rc × State × Request × ℕ

-- after the label `done`, with `p` at the last byte of the line
unfoldable pub at_done : Request → ℕ → Parsed
at_done r p =
    let version = (r.http_major * 1000 + r.http_minor) % 2 ^ 32 in
    let r' = record r {
      request_end = if is_some r.request_end then r.request_end else some p;
      http_version = version;
    } in
    if version == 9 && not (r.method == Codes.get)
    then (invalid_09_method, sw_start, r', p + 1)
    else (os_ok, sw_start, r', p + 1)

-- `for (p = b->pos; p < b->last; p++)`, with the bytes from `p` up to `b->last`. `sw₀` and `pos` are
-- `r->state` and `b->pos` at the call, which an error leaves as they are. `none` means that the
-- fuel ran out.
unfoldable pub parse_loop : ℕ → List ℕ → State → ℕ → State → Request → ℕ → List ℕ → Option Parsed
parse_loop zero buf sw₀ pos sw r p rest = none
parse_loop (suc fuel) buf sw₀ pos sw r p [] = some (os_again, sw, r, p)
parse_loop (suc fuel) buf sw₀ pos sw r p (ch ∷ rest) = elim (step buf sw r p ch) [
  | next sw' r' ↦ parse_loop fuel buf sw₀ pos sw' r' (p + 1) rest
  | reread sw' r' ↦ parse_loop fuel buf sw₀ pos sw' r' p (ch ∷ rest)
  | goto_done r' ↦ some (at_done r' p)
  | fail rc r' ↦ some (rc, sw₀, r', pos)
]

-- Two rounds for each byte, and one that finds the end of the buffer.
abbrev pub loop_fuel : List ℕ → ℕ
loop_fuel rest = 2 * length rest + 2

unfoldable pub http_parse_request_line : State → Request → OsBuf → Option Parsed
unfolding parse_loop
http_parse_request_line sw r b =
    let rest = drop b.pos b.bytes in parse_loop (loop_fuel rest) b.bytes sw b.pos sw r b.pos rest
