-- ===== src/RequestLine/RoundTrip.antt =====
-- A request line that is written out is read back.
use native.Mathlib.Nat.{zero-add}
use ostrichserver.Base.{
  ℕ, ◌+◌, ◌-◌, ◌*◌, ◌<◌, Bool, true, not, ◌&&◌, ◌||◌, List, [], ◌∷◌, ◌++◌, Option, some, none, ◌≡◌,
  refl, ◌∙◌, ap, arith, ◌⊎◌, inl, inr, length, get_or, get_or-append, ◌==◌,
}
use ostrichserver.RequestLine.Types.{
  new_request, State, sw_start, sw_method, sw_after_slash_in_uri, sw_check_uri,
  sw_check_uri_http_09, sw_uri, sw_http_09, Request, os_ok, cr, lf,
}
use ostrichserver.RequestLine.Method.{recognise, method_switch, not_method_byte}
use ostrichserver.RequestLine.Uri.{usual}
use ostrichserver.RequestLine.Chunks.{method_switch_congr}
use ostrichserver.RequestLine.Parse.{step, at_done, http_parse_request_line}
use ostrichserver.RequestLine.Run.{settle, run, http_parse_request_line-eq-run}

-- All elements pass a test.
abbrev pub all : (ℕ → Bool) → List ℕ → Bool
all q [] = true
all q (x ∷ xs) = q x && all q xs

abbrev pub method_byte : ℕ → Bool
method_byte c = not (not_method_byte c)

-- bytes that `sw_uri` passes over
abbrev pub args_byte : ℕ → Bool
args_byte c = usual c && not (c == b' ' || (c == cr || (c == lf || (c == b'#' || c == 0))))

-- "HTTP/", a digit, a dot, a digit, CR LF
abbrev pub version_bytes : ℕ → ℕ → List ℕ → List ℕ
version_bytes major minor rest =
    b'H' ∷ b'T' ∷ b'T' ∷ b'P' ∷ b'/' ∷ (b'0' + major) ∷ b'.' ∷ (b'0' + minor) ∷ cr ∷ lf ∷ rest

module _ (buf : List ℕ) (a : State) (i : ℕ) where
  run_method :
      (m : List ℕ) (r : Request) (p : ℕ) (rest : List ℕ)
      → all method_byte m ≡ true
      → run buf a i sw_method r p (m ++ rest) ≡ run buf a i sw_method r (p + length m) rest
  unfolding run settle step not_method_byte
  run_method [] r p rest h = ap (λ (q : ℕ). run buf a i sw_method r q rest) (omega arith)
  run_method (c ∷ m) r p rest h = ground (arith, run_method m r (p + 1) rest)

  run_path :
      (path : List ℕ) (r : Request) (p : ℕ) (rest : List ℕ)
      → all usual path ≡ true
      → run buf a i sw_check_uri r p (path ++ rest)
        ≡ run buf a i sw_check_uri r (p + length path) rest
  unfolding run settle step
  run_path [] r p rest h = ap (λ (q : ℕ). run buf a i sw_check_uri r q rest) (omega arith)
  run_path (c ∷ m) r p rest h = ground (arith, run_path m r (p + 1) rest)

  run_args :
      (args : List ℕ) (r : Request) (p : ℕ) (rest : List ℕ)
      → all args_byte args ≡ true
      → run buf a i sw_uri r p (args ++ rest) ≡ run buf a i sw_uri r (p + length args) rest
  unfolding run settle step
  run_args [] r p rest h = ap (λ (q : ℕ). run buf a i sw_uri r q rest) (omega arith)
  run_args (c ∷ m) r p rest h = ground (arith, run_args m r (p + 1) rest)

  path_space :
      (path : List ℕ) (r : Request) (p : ℕ) (rest : List ℕ)
      → all usual path ≡ true
      → run buf a i sw_after_slash_in_uri r p (path ++ b' ' ∷ rest)
        ≡ run buf a i sw_check_uri_http_09
            (record r { uri_end = some (p + length path) })
            (p + length path + 1)
            rest
  unfolding run settle step usual
  path_space [] r p rest h = ground arith
  path_space (c ∷ m) r p rest h = ground (arith, run_path m r (p + 1) (b' ' ∷ rest))

  path_question :
      (path : List ℕ) (r : Request) (p : ℕ) (rest : List ℕ)
      → all usual path ≡ true
      → run buf a i sw_after_slash_in_uri r p (path ++ b'?' ∷ rest)
        ≡ run buf a i sw_uri
            (record r { args_start = some (p + length path + 1) })
            (p + length path + 1)
            rest
  unfolding run settle step usual
  path_question [] r p rest h = ground arith
  path_question (c ∷ m) r p rest h = ground (arith, run_path m r (p + 1) (b'?' ∷ rest))

  run_version :
      (sw : State) (r : Request) (p major minor : ℕ) (rest : List ℕ)
      → (sw ≡ sw_check_uri_http_09) ⊎ (sw ≡ sw_http_09)
      → 0 < major
      → major < 10
      → minor < 10
      → run buf a i sw r p (version_bytes major minor rest) ≡ (
        os_ok,
        sw_start,
        record r {
          http_protocol = some p;
          http_major = major;
          http_minor = minor;
          request_end = some (p + 8);
          http_version = major * 1000 + minor;
        },
        p + 10,
      )
  unfolding run settle step at_done
  run_version sw r p major minor rest e h1 h2 h3 = ground arith

-- A request line: the method and the URI as bytes, and the digits of the version.
pub record Line : Type 0 where
  pub method : List ℕ
  pub path : List ℕ
  pub args : Option (List ℕ)
  pub major : ℕ
  pub minor : ℕ

pub record IsLine (l : Line) : Type 0 where
  pub method_ne_nil : 0 < length l.method
  pub method_ok : all method_byte l.method ≡ true
  pub path_ok : all usual l.path ≡ true
  pub args_ok : elim l.args [ none ↦ true | some q ↦ all args_byte q ] ≡ true
  pub major_pos : 0 < l.major
  pub major_lt : l.major < 10
  pub minor_lt : l.minor < 10

abbrev pub print_args : Option (List ℕ) → List ℕ → List ℕ
print_args none rest = b' ' ∷ rest
print_args (some q) rest = b'?' ∷ (q ++ (b' ' ∷ rest))

-- "METHOD /path?args HTTP/d.d" with CR LF, in front of `rest`
abbrev pub print_line : Line → List ℕ → List ℕ
print_line l rest =
    l.method ++ (b' ' ∷ b'/' ∷ (l.path ++ print_args l.args (version_bytes l.major l.minor rest)))

abbrev args_length : Option (List ℕ) → ℕ
args_length none = 0
args_length (some q) = length q + 1

abbrev pub path_start : Line → ℕ
path_start l = length l.method + 1

abbrev pub path_end : Line → ℕ
path_end l = length l.method + 2 + length l.path

abbrev pub target_end : Line → ℕ
target_end l = path_end l + args_length l.args

-- The method that `switch (p - m)` finds in a name.
abbrev pub method_of : List ℕ → ℕ
method_of m = method_switch (λ k. get_or m k 0) (length m) 0

-- What the parser is to find in the line, counted from its first byte.
abbrev pub read_line : Line → Request
read_line l = record new_request {
  request_start = some 0;
  method_end = some (length l.method - 1);
  method = method_of l.method;
  uri_start = some (path_start l);
  args_start = elim l.args [ none ↦ none | some q ↦ some (path_end l + 1) ];
  uri_end = some (target_end l);
  http_protocol = some (target_end l + 1);
  http_major = l.major;
  http_minor = l.minor;
  request_end = some (target_end l + 9);
  http_version = l.major * 1000 + l.minor;
}

-- The same with `sw_after_slash_in_uri` entered at `n`, on top of what `r` holds.
abbrev read_target : Request → ℕ → List ℕ → Option (List ℕ) → ℕ → ℕ → Request
read_target r n path args major minor = record r {
  args_start = elim args [ none ↦ none | some q ↦ some (n + length path + 1) ];
  uri_end = some (n + length path + args_length args);
  http_protocol = some (n + length path + args_length args + 1);
  http_major = major;
  http_minor = minor;
  request_end = some (n + length path + args_length args + 9);
  http_version = major * 1000 + minor;
}

module _ (buf : List ℕ) (a : State) (i : ℕ) where
  uri_space :
      (r : Request) (p : ℕ) (rest : List ℕ)
      → run buf a i sw_uri r p (b' ' ∷ rest)
        ≡ run buf a i sw_http_09 (record r { uri_end = some p }) (p + 1) rest
  unfolding run settle step usual
  uri_space r p rest = refl

  run_target :
      (r : Request) (n : ℕ) (path : List ℕ) (args : Option (List ℕ)) (major minor : ℕ)
      (rest : List ℕ)
      → all usual path ≡ true
      → elim args [ none ↦ true | some q ↦ all args_byte q ] ≡ true
      → 0 < major
      → major < 10
      → minor < 10
      → r.args_start ≡ none
      → run buf a i sw_after_slash_in_uri r n
          (path ++ print_args args (version_bytes major minor rest))
        ≡ (
          os_ok,
          sw_start,
          read_target r n path args major minor,
          n + length path + args_length args + 11,
        )
  run_target r n path none major minor rest hp ha h1 h2 h3 e =
      path_space buf a i path r n _ hp
      ∙ run_version buf a i sw_check_uri_http_09 _ _ major minor rest (inl refl) h1 h2 h3
      ∙ ground arith
  run_target r n path (some q) major minor rest hp ha h1 h2 h3 e =
      path_question buf a i path r n _ hp
      ∙ run_args buf a i q _ _ _ ha
      ∙ uri_space _ _ _
      ∙ run_version buf a i sw_http_09 _ _ major minor rest (inr refl) h1 h2 h3
      ∙ ground arith

  run_first :
      (m : List ℕ) (r : Request) (p : ℕ) (rest : List ℕ)
      → 0 < length m
      → all method_byte m ≡ true
      → run buf a i sw_start r p (m ++ (b' ' ∷ b'/' ∷ rest))
        ≡ run buf a i sw_after_slash_in_uri
            (record r {
              request_start = some p;
              method_end = some (p + length m - 1);
              method = recognise buf (some p) (p + length m) r.method;
              uri_start = some (p + length m + 1);
            })
            (p + length m + 2)
            rest
  unfolding run settle step not_method_byte
  run_first [] r p rest h hm = absurd (omega arith)
  run_first (c ∷ m) r p rest h hm = ground (
    arith,
    run_method buf a i m (record r { request_start = some p }) (p + 1) (b' ' ∷ b'/' ∷ rest),
  )

recognise-print : (m rest : List ℕ) → recognise (m ++ rest) (some 0) (0 + length m) 0 ≡ method_of m
unfolding recognise
recognise-print m rest =
    let n : 0 + length m - 0 ≡ length m = omega arith in
    rw n
      (method_switch_congr _ _ 0 (length m) (λ k q. rw (zero-add k) (get_or-append m rest k 0 q)))

pub parse-print_line :
    (l : Line) (rest : List ℕ)
    → IsLine l
    → http_parse_request_line sw_start new_request (record { bytes = print_line l rest; pos = 0 })
      ≡ some (os_ok, sw_start, read_line l, target_end l + 11)
parse-print_line l rest v =
    let buf = print_line l rest in
    let tail = l.path ++ print_args l.args (version_bytes l.major l.minor rest) in
    http_parse_request_line-eq-run sw_start new_request (record { bytes = buf; pos = 0 })
    ∙ ap some (
        run_first buf sw_start 0 l.method new_request 0 tail v.method_ne_nil v.method_ok
        ∙ run_target buf sw_start 0 _ _ l.path l.args l.major l.minor rest v.path_ok v.args_ok
            v.major_pos v.major_lt v.minor_lt refl
        ∙ ground (arith, recognise-print l.method (b' ' ∷ b'/' ∷ tail)))
