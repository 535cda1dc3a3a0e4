-- ===== src/Headers/Types.antt =====
-- What the handlers of header lines read and write (http.h). The slots under `HTTP_GZIP`,
-- `HTTP_X_FORWARDED_FOR`, `HTTP_REALIP`, `HTTP_HEADERS` and `HTTP_DAV` are not compiled: the build defines
-- none of these.
use ostrichserver.Base.{ℕ, Bool, false, List, [], Option, none}

-- `http_header`, with the bytes of its value up to a NUL and the length that it is said to have
pub record HttpHeader : Type 0 where
  pub hash : ℕ
  pub metaidx : ℕ
  pub name : List ℕ
  pub value : List ℕ
  pub value_len : ℕ

-- The fields of `http_request_headers_in` that hold one header line, for their offsets.
pub data Slot : Type 0 where
  host : Slot
  connection : Slot
  if_modified_since : Slot
  if_unmodified_since : Slot
  if_match : Slot
  if_none_match : Slot
  user_agent : Slot
  referer : Slot
  content_length : Slot
  content_type : Slot
  range : Slot
  if_range : Slot
  transfer_encoding : Slot
  expect : Slot
  upgrade : Slot
  authorization : Slot
  keep_alive : Slot

-- the position of a slot in the struct
abbrev pub slot_index : Slot → ℕ
slot_index host = 0
slot_index connection = 1
slot_index if_modified_since = 2
slot_index if_unmodified_since = 3
slot_index if_match = 4
slot_index if_none_match = 5
slot_index user_agent = 6
slot_index referer = 7
slot_index content_length = 8
slot_index content_type = 9
slot_index range = 10
slot_index if_range = 11
slot_index transfer_encoding = 12
slot_index expect = 13
slot_index upgrade = 14
slot_index authorization = 15
slot_index keep_alive = 16

-- the flags of `http_request_headers_in` for browsers
pub record Browsers : Type 0 where
  pub msie : Bool
  pub msie6 : Bool
  pub opera : Bool
  pub gecko : Bool
  pub chrome : Bool
  pub safari : Bool
  pub konqueror : Bool

-- `http_request_headers_in`; `single` gives the header line of each slot, and `none` for NULL.
pub record HeadersIn : Type 0 where
  pub single : Slot → Option HttpHeader
  pub cookies : List HttpHeader
  pub connection_type : ℕ
  pub browsers : Browsers

abbrev pub no_browsers : Browsers
no_browsers = record {
  msie = false;
  msie6 = false;
  opera = false;
  gecko = false;
  chrome = false;
  safari = false;
  konqueror = false;
}

-- as `os_calloc` leaves it
abbrev pub no_headers : HeadersIn
no_headers = record {
  single = λ s. none;
  cookies = [];
  connection_type = 0;
  browsers = no_browsers;
}
