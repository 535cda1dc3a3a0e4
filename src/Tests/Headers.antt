-- ===== src/Tests/Headers.antt =====
-- Header lines: runs, and the theorems at concrete inputs.
use ostrichserver.Base.{bytes, ℕ, ◌≡◌, refl, true, List, arith, length, if◌then◌else◌}
use ostrichserver.OsString.Search.{os_strstrn, os_strcasestrn}
use ostrichserver.OsString.Folding.{lower}
use ostrichserver.Headers.Types.{HttpHeader, no_headers, Browsers, no_browsers}
use ostrichserver.Headers.Browser.{mark_browser}
use ostrichserver.Headers.Handlers.{
  header_parser, user_agent_line, connection_line, connection_close, connection_keep_alive,
}
use ostrichserver.Headers.Laws.{IsClassified, header_parser-IsClassified}
use ostrichserver.Headers.Searching.{occurs, connection_line-occurs}

-- Unfolded to run the handlers.
header_run : Unit {0}
unfolding header_parser mark_browser os_strstrn os_strcasestrn
header_run = tt

abbrev line : List ℕ → List ℕ → HttpHeader
line name value = record {
  hash = 0;
  metaidx = 0;
  name = name;
  value = value;
  value_len = length value;
}

abbrev explorer : HttpHeader
explorer = line (bytes "User-Agent") (bytes "Mozilla/4.0 (MSIE 6.0; Windows)")

abbrev opera_as_explorer : HttpHeader
opera_as_explorer = line (bytes "User-Agent") (bytes "Mozilla/4.0 (MSIE 6.0; X) Opera 7")

abbrev firefox : HttpHeader
firefox = line (bytes "User-Agent") (bytes "Mozilla/5.0 Gecko/2010 Chrome/1")

browsers_of : HttpHeader → Browsers
browsers_of h = (header_parser user_agent_line no_headers h).browsers

browsers_found :
    (browsers_of explorer ≡ record no_browsers { msie = true; msie6 = true })
    × (browsers_of opera_as_explorer ≡ record no_browsers { opera = true })
    × (browsers_of firefox ≡ record no_browsers { gecko = true })
unfolding header_run browsers_of
browsers_found = (refl, refl, refl)

no_headers-IsClassified : IsClassified no_headers
no_headers-IsClassified = record {
  exclusive = omega arith;
  versioned = omega arith;
  unknown = λ e. omega arith;
}

header_parser-IsClassified_example :
    IsClassified (header_parser user_agent_line no_headers opera_as_explorer)
header_parser-IsClassified_example =
    header_parser-IsClassified user_agent_line no_headers opera_as_explorer no_headers-IsClassified

connection_line-occurs_example :
    header_parser connection_line no_headers (line (bytes "Connection") (bytes "Keep-Alive"))
    ≡ record no_headers {
      connection_type =
          if occurs (bytes "close") (lower (bytes "Keep-Alive"))
          then connection_close
          else if occurs (bytes "keep-alive") (lower (bytes "Keep-Alive"))
          then connection_keep_alive
          else 0;
    }
connection_line-occurs_example =
    connection_line-occurs no_headers (line (bytes "Connection") (bytes "Keep-Alive")) (omega arith)
      (omega arith)
