-- ===== src/Tests/HttpRequest.antt =====
-- The strings of a request and its host: runs, and the theorems at concrete inputs.
use ostrichserver.Base.{bytes, ℕ, ◌+◌, Bool, true, false, ◌||◌, none, some, ◌≡◌, ◌⊎◌, refl, arith}
use ostrichserver.RequestLine.Types.{sw_start, os_ok, new_request, Request}
use ostrichserver.RequestLine.Parse.{http_parse_request_line}
use ostrichserver.RequestLine.Bounds.{IsComplete}
use ostrichserver.RequestLine.RoundTrip.{print_line, read_line, target_end}
use ostrichserver.OsString.Case.{os_tolower, os_strlow}
use ostrichserver.HttpRequest.Strings.{Strings, request_strings}
use ostrichserver.HttpRequest.Slices.{FitsAll, request_strings-FitsAll}
use ostrichserver.HttpRequest.ReadBack.{ReadBack, parse-ReadBack}
use ostrichserver.HttpRequest.Host.{
  pred64, scan_byte, finish, declined, err, ok, os_http_validate_host,
}
use ostrichserver.HttpRequest.HostSpec.{valid_host, os_http_validate_host-eq-valid_host}
use ostrichserver.Tests.RequestLine.{sample, sample-IsLine}

abbrev request : Request
request = read_line sample

abbrev line_end : ℕ
line_end = target_end sample + 11

request-IsComplete : IsComplete request line_end
request-IsComplete = ground arith

request_strings-FitsAll_example :
    (((request.complex_uri || request.quoted_uri) ≡ true)
      × (◌≡◌ {A = Bool} true false)
      × (request_strings true (some (os_ok, sw_start, request, line_end)) ≡ none))
    ⊎ ((t : Strings) × (request_strings true (some (os_ok, sw_start, request, line_end)) ≡ some t)
        × FitsAll request line_end t)
request_strings-FitsAll_example = request_strings-FitsAll true request line_end request-IsComplete

parse-ReadBack_example :
    (t : Strings) × (request_strings true (
        http_parse_request_line sw_start new_request
          (record { bytes = print_line sample (bytes "X: y"); pos = 0 }))
      ≡ some t)
    × ReadBack sample (print_line sample (bytes "X: y")) t
parse-ReadBack_example = parse-ReadBack true sample (bytes "X: y") sample-IsLine

-- Unfolded to run the host check.
host_check : Unit {0}
unfolding os_http_validate_host scan_byte finish pred64 os_strlow os_tolower
host_check = tt

hosts :
    (os_http_validate_host (bytes "Example.COM.:80") false true ≡ ok (bytes "example.com"))
    × (os_http_validate_host (bytes "[::1]:80") false true ≡ ok (bytes "[::1]"))
    × (os_http_validate_host (bytes "a..b") false true ≡ declined)
    × (os_http_validate_host (bytes ":80") false true ≡ declined)
    × (os_http_validate_host (bytes "A") false false ≡ err)
unfolding host_check
hosts = (refl, refl, refl, refl, refl)

os_http_validate_host-eq-valid_host_example :
    os_http_validate_host (bytes "Example.COM.:80") false true
    ≡ valid_host (bytes "Example.COM.:80") false true
os_http_validate_host-eq-valid_host_example =
    os_http_validate_host-eq-valid_host (bytes "Example.COM.:80") false true (omega arith)
