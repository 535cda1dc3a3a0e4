-- ===== src/HttpRequest/Slices.antt =====
-- The strings of a request stand where the parser's pointers say, with lengths that do not underflow.
use ostrichserver.Base.{
  ℕ, ◌+◌, ◌-◌, ◌≤◌, Bool, true, false, not, ◌&&◌, Bool-cases, ◌||◌, none, some, ◌≡◌, ◌⊎◌, inl, inr,
  arith, ptr_or,
}
use ostrichserver.Base.Int.{ℤ, pos, negsuc}
use ostrichserver.RequestLine.Types.{Request, sw_start, os_ok}
use ostrichserver.RequestLine.Bounds.{IsComplete}
use ostrichserver.HttpRequest.Strings.{
  at, fresh, Str, Strings, new_strings, set_line_strings, set_uri_strings, request_strings,
}

abbrev pub nat_of : ℤ → ℕ
nat_of (pos n) = n
nat_of (negsuc n) = 0

-- A string of the request: it stands at `start`, or in a block of its own where it may, or is empty; its length is no
-- negative number, and from `start` on it ends at `limit` or before.
pub record Fits (own : Bool) (s : Str) (start limit : ℕ) : Type 0 where
  pub stands : (s.place ≡ at (some start)) ⊎ ((own ≡ true) × (s.place ≡ fresh)) ⊎ (s.len ≡ pos 0)
  pub len_pos : s.len ≡ pos (nat_of s.len)
  pub in_limit : start + nat_of s.len ≤ limit

pub record FitsAll (r : Request) (end : ℕ) (t : Strings) : Type 0 where
  pub request_line : Fits false t.request_line (ptr_or r.request_start 0) (ptr_or r.request_end 0)
  pub request_length : t.request_length ≡ pos (end - ptr_or r.request_start 0)
  pub method_name : Fits false t.method_name (ptr_or r.request_start 0) (ptr_or r.uri_start 0)
  pub http_protocol : Fits false t.http_protocol (ptr_or r.http_protocol 0) (ptr_or r.request_end 0)
  pub uri : Fits (r.complex_uri || r.quoted_uri) t.uri (ptr_or r.uri_start 0) (ptr_or r.uri_end 0)
  pub unparsed_uri : Fits false t.unparsed_uri (ptr_or r.uri_start 0) (ptr_or r.uri_end 0)
  pub exten : Fits false t.exten (ptr_or r.uri_ext 0) (ptr_or r.uri_end 0)
  pub args : Fits false t.args (ptr_or r.args_start 0) (ptr_or r.uri_end 0)

module _ (r : Request) (end : ℕ) (v : IsComplete r end) where
  abbrev set_strings : Strings
  set_strings = set_uri_strings r (set_line_strings r end new_strings)

  request_line-Fits :
      Fits false set_strings.request_line (ptr_or r.request_start 0) (ptr_or r.request_end 0)
  unfolding set_uri_strings set_line_strings
  request_line-Fits = ground arith

  method_name-Fits :
      Fits false set_strings.method_name (ptr_or r.request_start 0) (ptr_or r.uri_start 0)
  unfolding set_uri_strings set_line_strings
  method_name-Fits = ground arith

  http_protocol-Fits :
      Fits false set_strings.http_protocol (ptr_or r.http_protocol 0) (ptr_or r.request_end 0)
  unfolding set_uri_strings set_line_strings
  http_protocol-Fits = ground arith

  uri-Fits :
      Fits
        (r.complex_uri || r.quoted_uri)
        set_strings.uri
        (ptr_or r.uri_start 0)
        (ptr_or r.uri_end 0)
  unfolding set_uri_strings set_line_strings
  uri-Fits = ground arith

  unparsed_uri-Fits :
      Fits false set_strings.unparsed_uri (ptr_or r.uri_start 0) (ptr_or r.uri_end 0)
  unfolding set_uri_strings set_line_strings
  unparsed_uri-Fits = ground arith

  exten-Fits : Fits false set_strings.exten (ptr_or r.uri_ext 0) (ptr_or r.uri_end 0)
  unfolding set_uri_strings set_line_strings
  exten-Fits = ground arith

  args-Fits : Fits false set_strings.args (ptr_or r.args_start 0) (ptr_or r.uri_end 0)
  unfolding set_uri_strings set_line_strings
  args-Fits = ground arith

  set_strings-FitsAll : FitsAll r end set_strings
  unfolding set_uri_strings set_line_strings
  set_strings-FitsAll = record {
    request_line = request_line-Fits;
    request_length = ground arith;
    method_name = method_name-Fits;
    http_protocol = http_protocol-Fits;
    uri = uri-Fits;
    unparsed_uri = unparsed_uri-Fits;
    exten = exten-Fits;
    args = args-Fits;
  }

-- For every request line that the parser has completed, and whatever `os_malloc` returns: either the
-- URI needs a block and there is none, or the strings are set. Each of them, the protocol included, stands
-- at the pointer of its part of the line, or is empty, or is the URI in a block of its own that it needs;
-- and none of their lengths is negative or reaches beyond that part.
pub request_strings-FitsAll :
    (allocated : Bool) (r : Request) (end : ℕ)
    → IsComplete r end
    → (((r.complex_uri || r.quoted_uri) ≡ true)
        × (allocated ≡ false)
        × (request_strings allocated (some (os_ok, sw_start, r, end)) ≡ none))
      ⊎ ((t : Strings) × (request_strings allocated (some (os_ok, sw_start, r, end)) ≡ some t)
          × FitsAll r end t)
unfolding request_strings
request_strings-FitsAll allocated r end v =
    elim (Bool-cases ((r.complex_uri || r.quoted_uri) && not allocated)) [
      | inl e ↦ inl (ground arith, ground arith, rw e)
      | inr e ↦ inr (set_strings r end v, rw e, set_strings-FitsAll r end v)
    ]
