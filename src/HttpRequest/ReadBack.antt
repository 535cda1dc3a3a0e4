-- ===== src/HttpRequest/ReadBack.antt =====
-- From the bytes of a request line to the strings of the request.
use ostrichserver.Base.{
  ℕ, ltb, length-append, suc, ◌+◌, ◌<◌, Bool, true, List, [], ◌∷◌, ◌++◌, Option, none, some, ◌≡◌,
  refl, sym, ap, ◌∙◌, arith, length, take, drop, drop-append, take-append_length,
}
use mathlib.Core.List.{append_assoc}
use ostrichserver.Base.Int.{pos, sub_ℕ}
use ostrichserver.RequestLine.Types.{sw_start, new_request}
use ostrichserver.RequestLine.Parse.{http_parse_request_line}
use ostrichserver.RequestLine.RoundTrip.{
  Line, IsLine, print_line, print_args, read_line, target_end, path_start, path_end,
  parse-print_line,
}
use ostrichserver.HttpRequest.Strings.{
  Strings, at, new_strings, set_line_strings, set_uri_strings, request_strings, bytes_of, slice,
}

slice_from :
    (m w ys zs : List ℕ) (k p n : ℕ)
    → p ≡ length m + k
    → drop k w ≡ ys ++ zs
    → n ≡ length ys
    → take n (drop p (m ++ w)) ≡ ys
slice_from m w ys zs k p n hp hw hn = rw (hp, drop-append k m w, hw, hn) (take-append_length ys zs)

-- "?args", if the line has them
abbrev pub question : Option (List ℕ) → List ℕ
question none = []
question (some q) = b'?' ∷ q

-- the arguments as a string; an empty one is not set
abbrev pub args_string : Option (List ℕ) → Option (List ℕ)
args_string none = none
args_string (some []) = none
args_string (some (c ∷ q)) = some (c ∷ q)

module _ (m path : List ℕ) (tail : List ℕ) where
  abbrev line : List ℕ
  line = m ++ (b' ' ∷ b'/' ∷ (path ++ tail))

  method_slice : take (length m) (drop 0 line) ≡ m
  method_slice = take-append_length m (b' ' ∷ b'/' ∷ (path ++ tail))

  uri_slice :
      (p n : ℕ) → p ≡ length m + 1 → n ≡ length path + 1 → take n (drop p line) ≡ b'/' ∷ path
  uri_slice p n hp hn = slice_from m _ (b'/' ∷ path) tail 1 p n hp refl (omega arith)

args_slice :
    (m path q rest : List ℕ) (p n : ℕ)
    → p ≡ length m + length path + 3
    → n ≡ length q
    → take n (drop p (m ++ (b' ' ∷ b'/' ∷ (path ++ (b'?' ∷ (q ++ rest)))))) ≡ q
args_slice m path q rest p n hp hn =
    slice_from m _ q rest (suc (suc (length path + 1))) p n (omega arith)
      (drop-append 1 path (b'?' ∷ (q ++ rest))) hn

print_args-question :
    (args : Option (List ℕ)) (path rest : List ℕ)
    → path ++ print_args args rest ≡ (path ++ question args) ++ (b' ' ∷ rest)
print_args-question none path rest = sym (append_assoc path [] (b' ' ∷ rest))
print_args-question (some q) path rest = sym (append_assoc path (b'?' ∷ q) (b' ' ∷ rest))

-- What is proved of the strings `t` of a line in a buffer.
pub record ReadBack (l : Line) (buf : List ℕ) (t : Strings) : Type 0 where
  pub method_name : bytes_of buf t.method_name ≡ some l.method
  pub uri : bytes_of buf t.uri ≡ some (b'/' ∷ l.path)
  pub args : bytes_of buf t.args ≡ args_string l.args
  pub unparsed_uri : bytes_of buf t.unparsed_uri ≡ some (b'/' ∷ (l.path ++ question l.args))
  pub no_space : t.valid_unparsed_uri ≡ true

read_at :
    (buf : List ℕ) (p a b n : ℕ) {ys : List ℕ}
    → a ≡ b + n
    → take n (drop p buf) ≡ ys
    → bytes_of buf (record { place = at (some p); len = sub_ℕ a b }) ≡ some ys
read_at buf p a b n h e =
    let d : sub_ℕ a b ≡ pos n = ground arith in ap (slice buf (at (some p))) d ∙ ap some e

module _ (m path : List ℕ) (major minor : ℕ) (rest : List ℕ) (ne : 0 < length m) where
  abbrev line_of : Option (List ℕ) → Line
  line_of args = record { method = m; path = path; args = args; major = major; minor = minor }

  abbrev buf_of : Option (List ℕ) → List ℕ
  buf_of args = print_line (line_of args) rest

  abbrev strings_of : Option (List ℕ) → Strings
  strings_of args =
      set_uri_strings (read_line (line_of args))
        (set_line_strings (read_line (line_of args)) (target_end (line_of args) + 11) new_strings)

  method_name-read :
      (args : Option (List ℕ)) → bytes_of (buf_of args) (strings_of args).method_name ≡ some m
  unfolding set_uri_strings set_line_strings
  method_name-read args =
      read_at (buf_of args) 0 _ _ (length m) (omega arith) (method_slice m path _)

  uri-read :
      (args : Option (List ℕ)) → bytes_of (buf_of args) (strings_of args).uri ≡ some (b'/' ∷ path)
  unfolding set_uri_strings set_line_strings
  uri-read none =
      read_at (buf_of none) _ _ _ (length path + 1) (omega arith) (uri_slice m path _ _ _ refl refl)
  uri-read (some q) =
      read_at (buf_of (some q)) _ _ _ (length path + 1) (omega arith)
        (uri_slice m path _ _ _ refl refl)

  args-read :
      (args : Option (List ℕ)) → bytes_of (buf_of args) (strings_of args).args ≡ args_string args
  unfolding set_uri_strings set_line_strings
  args-read none = refl
  args-read (some []) = ground arith
  args-read (some (c ∷ q)) =
      let set : ltb (path_end (line_of (some (c ∷ q))) + 1) (target_end (line_of (some (c ∷ q))))
          ≡ true =
        ground arith in
      rw set (
        read_at (buf_of (some (c ∷ q))) _ _ _ (length (c ∷ q)) (omega arith)
          (args_slice m path (c ∷ q) _ _ _ (omega arith) refl))

  unparsed_uri-read :
      (args : Option (List ℕ))
      → bytes_of (buf_of args) (strings_of args).unparsed_uri
        ≡ some (b'/' ∷ (path ++ question args))
  unfolding set_uri_strings set_line_strings
  unparsed_uri-read args =
      read_at (buf_of args) _ _ _ (length (path ++ question args) + 1) (whole args) (
        slice_from m _ (b'/' ∷ (path ++ question args)) _ 1 _ _ refl
          (ap (◌∷◌ b'/') (print_args-question args path _)) (omega arith))
    where
      whole :
          (args : Option (List ℕ))
          → target_end (line_of args)
            ≡ path_start (line_of args) + (length (path ++ question args) + 1)
      whole none = omega (arith, length-append path [])
      whole (some q) = omega (arith, length-append path (b'?' ∷ q))

-- End to end. When the parser has read a printed request line, its method, its path, its arguments
-- and its URI as it was sent are slices of the buffer, byte for byte those that were printed;
-- arguments that are empty are not set.
pub parse-ReadBack :
    (allocated : Bool) (l : Line) (rest : List ℕ)
    → IsLine l
    → (t : Strings) × (request_strings allocated (
          http_parse_request_line sw_start new_request
            (record { bytes = print_line l rest; pos = 0 }))
        ≡ some t)
      × ReadBack l (print_line l rest) t
unfolding request_strings
parse-ReadBack allocated l rest v = (
  strings_of l.method l.path l.major l.minor rest v.method_ne_nil l.args,
  rw (parse-print_line l rest v),
  record {
    method_name = method_name-read l.method l.path l.major l.minor rest v.method_ne_nil l.args;
    uri = uri-read l.method l.path l.major l.minor rest v.method_ne_nil l.args;
    args = args-read l.method l.path l.major l.minor rest v.method_ne_nil l.args;
    unparsed_uri = unparsed_uri-read l.method l.path l.major l.minor rest v.method_ne_nil l.args;
    no_space = unfold set_uri_strings in refl;
  },
)
