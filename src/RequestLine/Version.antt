-- ===== src/RequestLine/Version.antt =====
-- The states of "HTTP/major.minor" and of the end of the line.
use ostrichserver.Base.{ℕ, ◌+◌, ◌-◌, ◌*◌, ◌%◌, ◌^◌, ◌||◌, some, ltb, ◌==◌, if◌then◌else◌}
use ostrichserver.RequestLine.Types.{
  State, Request, Step, next, goto_done, fail, invalid_request, sw_major_digit,
  sw_first_minor_digit, sw_minor_digit, sw_spaces_after_digit, sw_almost_done, cr, lf,
}

-- `sw_http_H`, `sw_http_HT`, `sw_http_HTT` and `sw_http_HTTP`: one byte is expected
unfoldable pub on_letter : ℕ → State → Request → ℕ → Step
on_letter expected sw r ch = if ch == expected then next sw r else fail invalid_request r

-- `v * 10 + ch - '0'`, cut to the 16 bits of the field
unfoldable pub push_digit : ℕ → ℕ → ℕ
push_digit v ch = (v * 10 + ch - b'0') % 2 ^ 16

unfoldable pub on_first_major_digit : Request → ℕ → Step
on_first_major_digit r ch =
    if ltb ch b'1' || ltb b'9' ch
    then fail invalid_request r
    else next sw_major_digit (record r { http_major = ch - b'0' })

unfoldable pub on_major_digit : Request → ℕ → Step
on_major_digit r ch =
    if ch == b'.'
    then next sw_first_minor_digit r
    else if ltb ch b'0' || ltb b'9' ch
    then fail invalid_request r
    else next sw_major_digit (record r { http_major = push_digit r.http_major ch })

unfoldable pub on_first_minor_digit : Request → ℕ → Step
on_first_minor_digit r ch =
    if ltb ch b'0' || ltb b'9' ch
    then fail invalid_request r
    else next sw_minor_digit (record r { http_minor = ch - b'0' })

unfoldable pub on_minor_digit : Request → ℕ → Step
on_minor_digit r ch =
    if ch == cr
    then next sw_almost_done r
    else if ch == lf
    then goto_done r
    else if ch == b' '
    then next sw_spaces_after_digit r
    else if ltb ch b'0' || ltb b'9' ch
    then fail invalid_request r
    else next sw_minor_digit (record r { http_minor = push_digit r.http_minor ch })

unfoldable pub on_spaces_after_digit : Request → ℕ → Step
on_spaces_after_digit r ch =
    if ch == b' '
    then next sw_spaces_after_digit r
    else if ch == cr
    then next sw_almost_done r
    else if ch == lf
    then goto_done r
    else fail invalid_request r

unfoldable pub on_almost_done : Request → ℕ → ℕ → Step
on_almost_done r p ch =
    let r' = record r { request_end = some (p - 1) } in
    if ch == lf then goto_done r' else fail invalid_request r'
