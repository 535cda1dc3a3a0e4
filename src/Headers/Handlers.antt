-- ===== src/Headers/Handlers.antt =====
-- The handlers of header lines and the table that names them.
use ostrichserver.Base.{bytes, ℕ, Option, some, List, [], ◌∷◌, ◌++◌, ◌==◌, if◌then◌else◌, is_some}
use ostrichserver.OsString.Search.{os_strcasestrn}
use ostrichserver.Headers.Types.{
  HttpHeader, HeadersIn, Slot, slot_index, host, if_modified_since, if_unmodified_since, if_match,
  if_none_match, user_agent, referer, content_length, content_type, range, if_range,
  transfer_encoding, expect, upgrade, authorization, keep_alive,
}
use ostrichserver.Headers.Browser.{mark_browser}

-- `OS_HTTP_CONNECTION_CLOSE` and `OS_HTTP_CONNECTION_KEEP_ALIVE`
abbrev pub connection_close : ℕ
connection_close = 1

abbrev pub connection_keep_alive : ℕ
connection_keep_alive = 2

-- a write through the offset of a slot
abbrev pub write_slot : (Slot → Option HttpHeader) → Slot → HttpHeader → Slot → Option HttpHeader
write_slot f s h s' = if slot_index s == slot_index s' then some h else f s'

unfoldable pub http_process_unique_header_line : HeadersIn → HttpHeader → Slot → HeadersIn
http_process_unique_header_line r h s = record r { single = write_slot r.single s h }

unfoldable pub http_process_header_line : HeadersIn → HttpHeader → Slot → HeadersIn
http_process_header_line r h s =
    if is_some (r.single s) then r else record r { single = write_slot r.single s h }

-- The only array that the table names is `cookies`.
unfoldable pub http_process_multi_header_lines : HeadersIn → HttpHeader → HeadersIn
http_process_multi_header_lines r h = record r { cookies = r.cookies ++ h ∷ [] }

unfoldable pub http_process_connection : HeadersIn → HttpHeader → HeadersIn
http_process_connection r h =
    if is_some (os_strcasestrn h.value (bytes "close") 4)
    then record r { connection_type = connection_close }
    else if is_some (os_strcasestrn h.value (bytes "keep-alive") 9)
    then record r { connection_type = connection_keep_alive }
    else r

unfoldable pub http_process_user_agent : HeadersIn → HttpHeader → HeadersIn
http_process_user_agent r h = if is_some (r.single user_agent) then r else record r {
  single = write_slot r.single user_agent h;
  browsers = mark_browser r.browsers h;
}

-- `header_parser` of a line of the table, with its offset
pub data Handler : Type 0 where
  unique_header_line : Slot → Handler
  header_line : Slot → Handler
  multi_header_lines : Handler
  connection_line : Handler
  user_agent_line : Handler

-- `(*header_parser)(r, h, offset)`
unfoldable pub header_parser : Handler → HeadersIn → HttpHeader → HeadersIn
unfolding http_process_unique_header_line http_process_header_line http_process_multi_header_lines
    http_process_connection http_process_user_agent
header_parser (unique_header_line s) r h = http_process_unique_header_line r h s
header_parser (header_line s) r h = http_process_header_line r h s
header_parser multi_header_lines r h = http_process_multi_header_lines r h
header_parser connection_line r h = http_process_connection r h
header_parser user_agent_line r h = http_process_user_agent r h

-- `http_headers`
abbrev pub http_headers : List (List ℕ × Handler)
http_headers =
    (bytes "Host", unique_header_line host)
    ∷ (bytes "Connection", connection_line)
    ∷ (bytes "If-Modified-Since", unique_header_line if_modified_since)
    ∷ (bytes "If-Unmodified-Since", unique_header_line if_unmodified_since)
    ∷ (bytes "If-Match", unique_header_line if_match)
    ∷ (bytes "If-None-Match", unique_header_line if_none_match)
    ∷ (bytes "User-Agent", user_agent_line)
    ∷ (bytes "Referer", header_line referer)
    ∷ (bytes "Content-Length", unique_header_line content_length)
    ∷ (bytes "Content-Type", header_line content_type)
    ∷ (bytes "Range", header_line range)
    ∷ (bytes "If-Range", unique_header_line if_range)
    ∷ (bytes "Transfer-Encoding", header_line transfer_encoding)
    ∷ (bytes "Expect", unique_header_line expect)
    ∷ (bytes "Upgrade", header_line upgrade)
    ∷ (bytes "Authorization", unique_header_line authorization)
    ∷ (bytes "Keep-Alive", header_line keep_alive)
    ∷ (bytes "Cookie", multi_header_lines)
    ∷ []
