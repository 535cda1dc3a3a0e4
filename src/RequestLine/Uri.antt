-- ===== src/RequestLine/Uri.antt =====
-- The states inside the path and its arguments, and those of the spaces behind them
-- (without the branches for `OS_WIN32`).
use ostrichserver.Base.{
  ℕ, ◌+◌, ◌/◌, ◌%◌, ◌^◌, Bool, true, List, [], ◌∷◌, none, some, ◌==◌, if◌then◌else◌, get_or,
}
use ostrichserver.RequestLine.Types.{
  Request, Step, next, reread, goto_done, fail, invalid_request, sw_after_slash_in_uri,
  sw_check_uri, sw_check_uri_http_09, sw_uri, sw_http_09, sw_http_h, sw_almost_done, cr, lf,
}

-- The table `usual`, 32 bytes to a word.
abbrev pub usual_words : List ℕ
usual_words =
    0xffffdbfe ∷ 0x7fff37d6 ∷ 0xffffffff ∷ 0xffffffff ∷ 0xffffffff ∷ 0xffffffff ∷ 0xffffffff
    ∷ 0xffffffff ∷ []

-- `usual[ch >> 5] & (1 << (ch & 0x1f))`
unfoldable pub usual : ℕ → Bool
usual ch = get_or usual_words (ch / 32) 0 / 2 ^ (ch % 32) % 2 == 1

abbrev pub end_09 : Request → ℕ → Request
end_09 r p = record r { uri_end = some p; http_minor = 9 }

unfoldable pub on_after_slash_in_uri : Request → ℕ → ℕ → Step
on_after_slash_in_uri r p ch =
    if usual ch
    then next sw_check_uri r
    else if ch == b' '
    then next sw_check_uri_http_09 (record r { uri_end = some p })
    else if ch == cr
    then next sw_almost_done (end_09 r p)
    else if ch == lf
    then goto_done (end_09 r p)
    else if ch == b'.'
    then next sw_uri (record r { complex_uri = true })
    else if ch == b'%'
    then next sw_uri (record r { quoted_uri = true })
    else if ch == b'/'
    then next sw_uri (record r { complex_uri = true })
    else if ch == b'?'
    then next sw_uri (record r { args_start = some (p + 1) })
    else if ch == b'#'
    then next sw_uri (record r { complex_uri = true })
    else if ch == b'+'
    then next sw_after_slash_in_uri (record r { plus_in_uri = true })
    else if ch == 0
    then fail invalid_request r
    else next sw_check_uri r

-- a byte with no case of its own stays in the state
unfoldable pub on_check_uri : Request → ℕ → ℕ → Step
on_check_uri r p ch =
    if usual ch
    then next sw_check_uri r
    else if ch == b'/'
    then next sw_after_slash_in_uri (record r { uri_ext = none })
    else if ch == b'.'
    then next sw_check_uri (record r { uri_ext = some (p + 1) })
    else if ch == b' '
    then next sw_check_uri_http_09 (record r { uri_end = some p })
    else if ch == cr
    then next sw_almost_done (end_09 r p)
    else if ch == lf
    then goto_done (end_09 r p)
    else if ch == b'%'
    then next sw_uri (record r { quoted_uri = true })
    else if ch == b'?'
    then next sw_uri (record r { args_start = some (p + 1) })
    else if ch == b'#'
    then next sw_uri (record r { complex_uri = true })
    else if ch == b'+'
    then next sw_check_uri (record r { plus_in_uri = true })
    else if ch == 0
    then fail invalid_request r
    else next sw_check_uri r

-- a byte that is no version is a space inside the URI: it is read again in `sw_check_uri`
unfoldable pub on_check_uri_http_09 : Request → ℕ → ℕ → Step
on_check_uri_http_09 r p ch =
    if ch == b' '
    then next sw_check_uri_http_09 r
    else if ch == cr
    then next sw_almost_done (record r { http_minor = 9 })
    else if ch == lf
    then goto_done (record r { http_minor = 9 })
    else if ch == b'H'
    then next sw_http_h (record r { http_protocol = some p })
    else reread sw_check_uri (record r { space_in_uri = true })

unfoldable pub on_uri : Request → ℕ → ℕ → Step
on_uri r p ch =
    if usual ch
    then next sw_uri r
    else if ch == b' '
    then next sw_http_09 (record r { uri_end = some p })
    else if ch == cr
    then next sw_almost_done (end_09 r p)
    else if ch == lf
    then goto_done (end_09 r p)
    else if ch == b'#'
    then next sw_uri (record r { complex_uri = true })
    else if ch == 0
    then fail invalid_request r
    else next sw_uri r

unfoldable pub on_http_09 : Request → ℕ → ℕ → Step
on_http_09 r p ch =
    if ch == b' '
    then next sw_http_09 r
    else if ch == cr
    then next sw_almost_done (record r { http_minor = 9 })
    else if ch == lf
    then goto_done (record r { http_minor = 9 })
    else if ch == b'H'
    then next sw_http_h (record r { http_protocol = some p })
    else reread sw_uri (record r { space_in_uri = true })
