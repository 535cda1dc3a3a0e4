-- ===== src/RequestLine/Types.antt =====
-- http.h, osbuf.h, http_request.h: the fields of `http_request` and of `os_buf` that
-- `http_parse_request_line` reads and writes, and its states and results.
-- A pointer into the buffer is its offset from `b->start`; NULL is `none`. The field `r->state`
-- is kept beside the record, as a `State` of its own.
use ostrichserver.Base.{ℕ, Bool, false, List, Option, none}

-- The `enum` of `http_parse_request_line`.
pub data State : Type 0 where
  sw_start sw_method sw_spaces_before_uri sw_schema sw_schema_slash : State
  sw_schema_slash_slash sw_host_start sw_host sw_host_end sw_host_ip_literal : State
  sw_port sw_host_http_09 sw_after_slash_in_uri sw_check_uri sw_check_uri_http_09 : State
  sw_uri sw_http_09 sw_http_h sw_http_ht sw_http_htt sw_http_http : State
  sw_first_major_digit sw_major_digit sw_first_minor_digit sw_minor_digit : State
  sw_spaces_after_digit sw_almost_done : State

-- The 16-bit fields `http_minor` and `http_major`, and the 32-bit `method` and `http_version`, are
-- numbers; their wrap-around is written where they are assigned.
pub record Request : Type 0 where
  pub request_start : Option ℕ
  pub request_end : Option ℕ
  pub method_end : Option ℕ
  pub schema_start : Option ℕ
  pub schema_end : Option ℕ
  pub host_start : Option ℕ
  pub host_end : Option ℕ
  pub port_end : Option ℕ
  pub uri_start : Option ℕ
  pub uri_end : Option ℕ
  pub uri_ext : Option ℕ
  pub args_start : Option ℕ
  pub http_protocol : Option ℕ
  pub method : ℕ
  pub http_minor : ℕ
  pub http_major : ℕ
  pub http_version : ℕ
  pub complex_uri : Bool
  pub quoted_uri : Bool
  pub plus_in_uri : Bool
  pub space_in_uri : Bool

-- What `os_calloc` gives.
abbrev pub new_request : Request
new_request = record {
  request_start = none;
  request_end = none;
  method_end = none;
  schema_start = none;
  schema_end = none;
  host_start = none;
  host_end = none;
  port_end = none;
  uri_start = none;
  uri_end = none;
  uri_ext = none;
  args_start = none;
  http_protocol = none;
  method = 0;
  http_minor = 0;
  http_major = 0;
  http_version = 0;
  complex_uri = false;
  quoted_uri = false;
  plus_in_uri = false;
  space_in_uri = false;
}

-- `bytes` are those from `b->start` up to `b->last`.
pub record OsBuf : Type 0 where
  pub bytes : List ℕ
  pub pos : ℕ

-- The return values of `http_parse_request_line`.
pub data Rc : Type 0 where
  os_ok os_again invalid_method invalid_request invalid_09_method : Rc

-- What one round of the loop does: go on with the next byte, read the same byte once more
-- (`p--`), `goto done`, or return an error.
pub data Step : Type 0 where
  next : State → Request → Step
  reread : State → Request → Step
  goto_done : Request → Step
  fail : Rc → Request → Step

abbrev pub cr : ℕ
cr = 13

abbrev pub lf : ℕ
lf = 10
