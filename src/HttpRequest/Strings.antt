-- ===== src/HttpRequest/Strings.antt =====
-- The strings of a request: `http_process_request_uri`, and those that `http_process_request_line`
-- sets itself when the parser returned `OS_OK`.
use ostrichserver.Base.{
  ℕ, ◌+◌, Bool, true, false, ◌&&◌, ◌||◌, List, Option, none, some, ltb, not, if◌then◌else◌, is_some,
  ptr_or, take, drop,
}
use ostrichserver.Base.Int.{ℤ, pos, negsuc, sub_ℕ}
use ostrichserver.RequestLine.Types.{Request, os_ok}
use ostrichserver.RequestLine.Parse.{Parsed}

-- Where the bytes of a string stand: at an offset of the buffer, which may be NULL, or in a block
-- from `os_malloc`, which nothing has been written to.
pub data Place : Type 0 where
  at : Option ℕ → Place
  fresh : Place

-- `string`; the length is an `int`
pub record Str : Type 0 where
  pub place : Place
  pub len : ℤ

abbrev pub null_string : Str
null_string = record { place = at none; len = pos 0 }

-- The fields of `http_request` that are strings, with two that go with them.
pub record Strings : Type 0 where
  pub request_line : Str
  pub method_name : Str
  pub http_protocol : Str
  pub request_length : ℤ
  pub uri : Str
  pub args : Str
  pub exten : Str
  pub unparsed_uri : Str
  pub valid_unparsed_uri : Bool

abbrev pub new_strings : Strings
new_strings = record {
  request_line = null_string;
  method_name = null_string;
  http_protocol = null_string;
  request_length = pos 0;
  uri = null_string;
  args = null_string;
  exten = null_string;
  unparsed_uri = null_string;
  valid_unparsed_uri = false;
}

-- `p - q` for pointers into the buffer
abbrev pub minus : Option ℕ → Option ℕ → ℤ
minus p q = sub_ℕ (ptr_or p 0) (ptr_or q 0)

-- The assignments behind `rc == OS_OK`, with `end` for `r->header_in->pos`.
unfoldable pub set_line_strings : Request → ℕ → Strings → Strings
set_line_strings r end s = record s {
  request_line = record { place = at r.request_start; len = minus r.request_end r.request_start };
  request_length = sub_ℕ end (ptr_or r.request_start 0);
  method_name = record {
    place = at r.request_start;
    len = sub_ℕ (ptr_or r.method_end 0 + 1) (ptr_or r.request_start 0);
  };
  http_protocol =
      if is_some r.http_protocol
      then record { place = at r.http_protocol; len = minus r.request_end r.http_protocol }
      else s.http_protocol;
}

-- the length up to the arguments, if there are any, or up to the end of the URI
abbrev pub up_to_args : Request → ℕ → ℤ
up_to_args r from =
    if is_some r.args_start
    then sub_ℕ (ptr_or r.args_start 0) (1 + from)
    else sub_ℕ (ptr_or r.uri_end 0) from

-- the assignments of `http_process_request_uri`
unfoldable pub set_uri_strings : Request → Strings → Strings
set_uri_strings r s = record s {
  uri = record {
    place = if r.complex_uri || r.quoted_uri then fresh else at r.uri_start;
    len = up_to_args r (ptr_or r.uri_start 0);
  };
  unparsed_uri = record { place = at r.uri_start; len = minus r.uri_end r.uri_start };
  valid_unparsed_uri = if r.space_in_uri then false else true;
  exten =
      if is_some r.uri_ext
      then record { place = at r.uri_ext; len = up_to_args r (ptr_or r.uri_ext 0) }
      else s.exten;
  args =
      if is_some r.args_start && ltb (ptr_or r.args_start 0) (ptr_or r.uri_end 0)
      then record { place = at r.args_start; len = minus r.uri_end r.args_start }
      else s.args;
}

-- `http_process_request_uri`. `allocated` is whether `os_malloc` succeeds; `none` stands for
-- `OS_ERR`, where the request has been closed.
unfoldable pub http_process_request_uri : Bool → Request → Strings → Option Strings
http_process_request_uri allocated r s =
    if (r.complex_uri || r.quoted_uri) && not allocated then none else some (set_uri_strings r s)

-- What `http_process_request_line` makes of the result of the parser when the code is `OS_OK`.
unfoldable pub request_strings : Bool → Option Parsed → Option Strings
unfolding set_line_strings http_process_request_uri
request_strings allocated (some (os_ok, sw, r, end)) =
    http_process_request_uri allocated r (set_line_strings r end new_strings)
request_strings allocated _ = none

abbrev pub slice : List ℕ → Place → ℤ → Option (List ℕ)
slice buf (at (some p)) (pos n) = some (take n (drop p buf))
slice buf (at none) l = none
slice buf (at (some p)) (negsuc n) = none
slice buf fresh l = none

-- The bytes of a string that stands in the buffer `buf`.
abbrev pub bytes_of : List ℕ → Str → Option (List ℕ)
bytes_of buf s = slice buf s.place s.len
