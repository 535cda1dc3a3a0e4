-- ===== src/RequestLine/Bounds.antt =====
-- Where the pointers of a request stand, in every state of the parser.
use ostrichserver.Base.{
  ℕ, ◌≢◌, ◌+◌, ◌-◌, ◌<◌, ◌≤◌, true, List, [], ◌∷◌, some, none, ◌≡◌, refl, arith, length, drop,
  length-drop, is_some, ptr_or,
}
use ostrichserver.RequestLine.Types.{
  new_request, State, sw_start, sw_method, sw_spaces_before_uri, sw_schema, sw_schema_slash,
  sw_schema_slash_slash, sw_host_start, sw_host, sw_host_end, sw_host_ip_literal, sw_port,
  sw_after_slash_in_uri, sw_check_uri, sw_check_uri_http_09, sw_uri, Request, OsBuf, Rc, os_ok,
  os_again, Step, next, reread, goto_done, fail,
}
use ostrichserver.RequestLine.Parse.{step, Parsed, at_done, http_parse_request_line}
use ostrichserver.RequestLine.Run.{settle, run, http_parse_request_line-eq-run}

-- The request began before `p`.
pub record Begun (r : Request) (p : ℕ) : Type 0 where
  pub begun : is_some r.request_start ≡ true
  pub start_lt : ptr_or r.request_start 0 < p

-- A method was read; nothing of the URI yet.
pub record Before (r : Request) (p : ℕ) : Type 0 where
  pub begun : Begun r p
  pub method_set : is_some r.method_end ≡ true
  pub method_lt : ptr_or r.method_end 0 < p
  pub method_ge : ptr_or r.request_start 0 ≤ ptr_or r.method_end 0
  pub no_args : r.args_start ≡ none
  pub no_ext : r.uri_ext ≡ none

-- A schema ended `k` or more bytes before `p`.
pub record Schema (k : ℕ) (r : Request) (p : ℕ) : Type 0 where
  pub before : Before r p
  pub schema_set : is_some r.schema_end ≡ true
  pub schema_lt : ptr_or r.schema_end 0 + k ≤ p
  pub schema_gt : ptr_or r.method_end 0 < ptr_or r.schema_end 0

-- Inside the URI: it began after the method; the extension and the arguments lie between its
-- start and `p`, in this order.
pub record Inside (r : Request) (p : ℕ) : Type 0 where
  pub begun : Begun r p
  pub method_set : is_some r.method_end ≡ true
  pub method_ge : ptr_or r.request_start 0 ≤ ptr_or r.method_end 0
  pub method_lt : ptr_or r.method_end 0 < ptr_or r.uri_start 0
  pub uri_set : is_some r.uri_start ≡ true
  pub uri_lt : ptr_or r.uri_start 0 < p
  pub ext_ge : ptr_or r.uri_start 0 < ptr_or r.uri_ext (ptr_or r.uri_start 0 + 1)
  pub ext_le : ptr_or r.uri_ext (ptr_or r.uri_start 0 + 1) ≤ p
  pub args_gt : ptr_or r.uri_ext (ptr_or r.uri_start 0 + 1) < ptr_or r.args_start (p + 1)
  pub args_le : ptr_or r.args_start p ≤ p

-- Behind the URI: the same of `uri_end`, which stands before `p`.
pub record Behind (r : Request) (p : ℕ) : Type 0 where
  pub begun : Begun r p
  pub end_set : is_some r.uri_end ≡ true
  pub inside : Inside r (ptr_or r.uri_end 0)
  pub end_lt : ptr_or r.uri_end 0 < p

abbrev pub Where : State → Request → ℕ → Type 0
Where sw_start r p = (r.args_start ≡ none) × (r.uri_ext ≡ none)
Where sw_method r p = Begun r p × (r.args_start ≡ none) × (r.uri_ext ≡ none)
Where sw_spaces_before_uri r p = Before r p
Where sw_schema r p = Before r p
Where sw_schema_slash r p = Schema 1 r p
Where sw_schema_slash_slash r p = Schema 2 r p
Where sw_host_start r p = Schema 3 r p
Where sw_host r p = Schema 3 r p
Where sw_host_end r p = Schema 3 r p
Where sw_host_ip_literal r p = Schema 3 r p
Where sw_port r p = Schema 3 r p
Where sw_after_slash_in_uri r p = Inside r p × (r.args_start ≡ none) × (r.uri_ext ≡ none)
Where sw_check_uri r p = Inside r p × (r.args_start ≡ none)
Where sw_uri r p = Inside r p
Where sw_check_uri_http_09 r p = Behind r p × (r.args_start ≡ none)
Where _ r p = Behind r p

-- The request line is still open, and the pointers stand as the state asks; the protocol, where it is set,
-- begins before `p`.
pub record IsParsing (sw : State) (r : Request) (p : ℕ) : Type 0 where
  pub open_end : r.request_end ≡ none
  pub protocol_lt : ptr_or r.http_protocol 0 ≤ p - 1
  pub placed : Where sw r p

-- The pointers of a request line that ended before `p`, in their order.
pub record IsComplete (r : Request) (p : ℕ) : Type 0 where
  pub start_set : is_some r.request_start ≡ true
  pub method_set : is_some r.method_end ≡ true
  pub uri_set : is_some r.uri_start ≡ true
  pub uri_end_set : is_some r.uri_end ≡ true
  pub end_set : is_some r.request_end ≡ true
  pub start_le : ptr_or r.request_start 0 ≤ ptr_or r.method_end 0
  pub method_lt : ptr_or r.method_end 0 < ptr_or r.uri_start 0
  pub uri_lt : ptr_or r.uri_start 0 < ptr_or r.uri_end 0
  pub ext_gt : ptr_or r.uri_start 0 < ptr_or r.uri_ext (ptr_or r.uri_start 0 + 1)
  pub ext_le : ptr_or r.uri_ext (ptr_or r.uri_start 0 + 1) ≤ ptr_or r.uri_end 0
  pub ext_lt_args :
      ptr_or r.uri_ext (ptr_or r.uri_start 0 + 1) < ptr_or r.args_start (ptr_or r.uri_end 0 + 1)
  pub args_le : ptr_or r.args_start (ptr_or r.uri_end 0) ≤ ptr_or r.uri_end 0
  pub uri_end_le : ptr_or r.uri_end 0 ≤ ptr_or r.request_end 0
  pub protocol_le : ptr_or r.http_protocol 0 ≤ ptr_or r.request_end 0
  pub end_lt : ptr_or r.request_end 0 < p

-- At the label `done`, before `request_end` is set.
record AtDone (r : Request) (p : ℕ) : Type 0 where
  pub inside : Inside r (ptr_or r.uri_end 0)
  pub end_set : is_some r.uri_end ≡ true
  uri_end_le : ptr_or r.uri_end 0 ≤ ptr_or r.request_end p
  protocol_le : ptr_or r.http_protocol 0 ≤ ptr_or r.request_end p
  end_le : ptr_or r.request_end p ≤ p

abbrev Keeps : ℕ → Step → Type 0
Keeps p (next sw r) = IsParsing sw r (p + 1)
Keeps p (reread sw r) = IsParsing sw r p
Keeps p (goto_done r) = AtDone r p
Keeps p (fail rc r) = (rc ≢ os_ok) × (rc ≢ os_again)

step-Keeps :
    (buf : List ℕ) (sw : State) (r : Request) (p ch : ℕ)
    → IsParsing sw r p
    → Keeps p (step buf sw r p ch)
unfolding step
step-Keeps buf sw_start r p ch v = ground arith
step-Keeps buf _ r p ch v = ground arith

settle-Keeps :
    (buf : List ℕ) (sw : State) (r : Request) (p ch : ℕ)
    → IsParsing sw r p
    → Keeps p (settle buf sw r p ch)
unfolding settle
settle-Keeps buf sw r p ch v = go (step buf sw r p ch) refl (step-Keeps buf sw r p ch v)
  where
    go : (s : Step) → step buf sw r p ch ≡ s → Keeps p s → Keeps p (settle buf sw r p ch)
    go (reread sw' r') e w = rw (e, settle) (step-Keeps buf sw' r' p ch w)
    go (next sw' r') e w = rw (e, settle) w
    go (goto_done r') e w = rw (e, settle) w
    go (fail rc r') e w = rw (e, settle) w

-- What a call promises of its result, in a buffer of `n` bytes.
abbrev pub Promises : ℕ → Parsed → Type 0
Promises n (os_ok, sw, r, p) = IsComplete r p × (p ≤ n)
Promises n (os_again, sw, r, p) = IsParsing sw r p × (p ≡ n)
Promises n (_, sw, r, p) = Unit

at_done-Promises : (r : Request) (n p : ℕ) → AtDone r p → p < n → Promises n (at_done r p)
unfolding at_done
at_done-Promises r n p v h = ground arith

fail-Promises :
    (n : ℕ) (rc : Rc) (sw : State) (r : Request) (p : ℕ)
    → (rc ≢ os_ok) × (rc ≢ os_again)
    → Promises n (rc, sw, r, p)
fail-Promises n os_ok sw r p h = absurd (h.0 refl)
fail-Promises n os_again sw r p h = absurd (h.1 refl)
fail-Promises n _ sw r p h = tt

run-Promises :
    (buf : List ℕ) (a : State) (i : ℕ) (sw : State) (r : Request) (p : ℕ) (rest : List ℕ)
    → IsParsing sw r p
    → p + length rest ≡ length buf
    → Promises (length buf) (run buf a i sw r p rest)
unfolding run
run-Promises buf a i sw r p [] v h = (v, omega arith)
run-Promises buf a i sw r p (ch ∷ rest) v h =
    go (settle buf sw r p ch) refl (settle-Keeps buf sw r p ch v)
      (λ sw' r' w. run-Promises buf a i sw' r' (p + 1) rest w (omega arith))
  where
    go :
        (s : Step)
        → settle buf sw r p ch ≡ s
        → Keeps p s
        → ((sw' : State) (r' : Request)
            → IsParsing sw' r' (p + 1)
            → Promises (length buf) (run buf a i sw' r' (p + 1) rest))
        → Promises (length buf) (run buf a i sw r p (ch ∷ rest))
    go (next sw' r') e w ih = rw (e, run) (ih sw' r' w)
    go (reread sw' r') e w ih = rw (e, run) tt
    go (goto_done r') e w ih = rw (e, run) (at_done-Promises r' (length buf) p w (omega arith))
    go (fail rc r') e w ih = rw (e, run) (fail-Promises (length buf) rc a r' i w)

pub new_request-IsParsing : IsParsing sw_start new_request 0
new_request-IsParsing = ground arith

-- The parser always returns. Called with pointers that fit the state, it leaves them so when it
-- asks for more bytes, and it has then read the whole buffer; and on `OS_OK` all the pointers of
-- the request line are set, in order and inside the bytes read: method, URI with its extension
-- before its arguments, end of the line, `b->pos`; the protocol, where there is one, begins at the end of
-- the line or before.
pub parse-Promises :
    (sw : State) (r : Request) (b : OsBuf)
    → IsParsing sw r b.pos
    → b.pos ≤ length b.bytes
    → (result : Parsed) × (http_parse_request_line sw r b ≡ some result)
      × Promises (length b.bytes) result
parse-Promises sw r b v h = (
  _,
  http_parse_request_line-eq-run sw r b,
  run-Promises b.bytes sw b.pos sw r b.pos (drop b.pos b.bytes) v
      (omega (arith, length-drop b.pos b.bytes)),
)
