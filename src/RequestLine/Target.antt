-- ===== src/RequestLine/Target.antt =====
-- The states between the method and the path: spaces, a schema, a host and a port.
use ostrichserver.Base.{ℕ, ◌+◌, Bool, ◌&&◌, ◌||◌, some, bit_or, leb, ◌==◌, if◌then◌else◌}
use mathlib.Core.Option
use ostrichserver.RequestLine.Types.{
  Request, Step, next, goto_done, fail, invalid_request, sw_spaces_before_uri, sw_schema,
  sw_schema_slash, sw_schema_slash_slash, sw_host_start, sw_host, sw_host_end, sw_host_ip_literal,
  sw_port, sw_host_http_09, sw_after_slash_in_uri, sw_http_h, sw_almost_done, cr, lf,
}

-- `c = (u_char) (ch | 0x20); c >= 'a' && c <= 'z'`
unfoldable pub is_letter : ℕ → Bool
is_letter ch = let c = bit_or ch 0x20 in leb b'a' c && leb c b'z'

abbrev pub is_digit : ℕ → Bool
is_digit ch = leb b'0' ch && leb ch b'9'

unfoldable pub on_spaces_before_uri : Request → ℕ → ℕ → Step
on_spaces_before_uri r p ch =
    if ch == b'/'
    then next sw_after_slash_in_uri (record r { uri_start = some p })
    else if is_letter ch
    then next sw_schema (record r { schema_start = some p })
    else if ch == b' '
    then next sw_spaces_before_uri r
    else fail invalid_request r

unfoldable pub on_schema : Request → ℕ → ℕ → Step
on_schema r p ch =
    if is_letter ch
    then next sw_schema r
    else if ch == b':'
    then next sw_schema_slash (record r { schema_end = some p })
    else fail invalid_request r

unfoldable pub on_schema_slash : Request → ℕ → Step
on_schema_slash r ch = if ch == b'/' then next sw_schema_slash_slash r else fail invalid_request r

unfoldable pub on_schema_slash_slash : Request → ℕ → Step
on_schema_slash_slash r ch = if ch == b'/' then next sw_host_start r else fail invalid_request r

-- `uri_start` and `uri_end` round the single "/" of the schema
abbrev pub use_schema_slash : Request → Request
use_schema_slash r = record r {
  uri_start = Option.map (λ s. s + 1) r.schema_end;
  uri_end = Option.map (λ s. s + 2) r.schema_end;
}

unfoldable pub on_host_end : Request → ℕ → ℕ → Step
on_host_end r p ch =
    let r' = record r { host_end = some p } in
    if ch == b':'
    then next sw_port r'
    else if ch == b'/'
    then next sw_after_slash_in_uri (record r' { uri_start = some p })
    else if ch == b' '
    then next sw_host_http_09 (use_schema_slash r')
    else fail invalid_request r'

-- falls through to `sw_host_end`
unfoldable pub on_host : Request → ℕ → ℕ → Step
unfolding on_host_end
on_host r p ch =
    if is_letter ch
    then next sw_host r
    else if is_digit ch || (ch == b'.' || ch == b'-')
    then next sw_host r
    else on_host_end r p ch

-- falls through to `sw_host`
unfoldable pub on_host_start : Request → ℕ → ℕ → Step
unfolding on_host
on_host_start r p ch =
    let r' = record r { host_start = some p } in
    if ch == b'[' then next sw_host_ip_literal r' else on_host r' p ch

-- the cases of `switch (ch)` in `sw_host_ip_literal` that break: ':', unreserved, sub-delims
unfoldable pub ip_literal_byte : ℕ → Bool
ip_literal_byte ch =
    ch == b':'
    || (ch == b'-' || (ch == b'.' || (ch == b'_' || ch == b'~')))
    || (ch == b'!' || (ch == b'$' || (ch == b'&' || (ch == 39 || (ch == b'(' || ch == b')')))))
    || (ch == b'*' || (ch == b'+' || (ch == b',' || (ch == b';' || ch == b'='))))

unfoldable pub on_host_ip_literal : Request → ℕ → Step
on_host_ip_literal r ch =
    if is_digit ch
    then next sw_host_ip_literal r
    else if is_letter ch
    then next sw_host_ip_literal r
    else if ch == b']'
    then next sw_host_end r
    else if ip_literal_byte ch
    then next sw_host_ip_literal r
    else fail invalid_request r

unfoldable pub on_port : Request → ℕ → ℕ → Step
on_port r p ch =
    if is_digit ch
    then next sw_port r
    else if ch == b'/'
    then next sw_after_slash_in_uri (record r { port_end = some p; uri_start = some p })
    else if ch == b' '
    then next sw_host_http_09 (use_schema_slash (record r { port_end = some p }))
    else fail invalid_request r

unfoldable pub on_host_http_09 : Request → ℕ → ℕ → Step
on_host_http_09 r p ch =
    if ch == b' '
    then next sw_host_http_09 r
    else if ch == cr
    then next sw_almost_done (record r { http_minor = 9 })
    else if ch == lf
    then goto_done (record r { http_minor = 9 })
    else if ch == b'H'
    then next sw_http_h (record r { http_protocol = some p })
    else fail invalid_request r
