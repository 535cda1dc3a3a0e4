-- ===== src/HttpRequest/HostSpec.antt =====
-- `os_http_validate_host` against a description of what a valid host is.
use ostrichserver.Base.{
  ℕ, ◌+◌, ◌-◌, ◌^◌, ◌<◌, ◌≤◌, Bool, true, false, not, ◌&&◌, ◌||◌, List, [], ◌∷◌, Option, none, some,
  ◌≡◌, refl, ◌⊎◌, inl, inr, arith, map, ◌==◌, if◌then◌else◌, length, take, Bool-cases,
}
use ostrichserver.OsString.Case.{is_upper, os_tolower, os_strlow-eq-map}
use ostrichserver.HttpRequest.Host.{
  HostState, usual, literal, rest, Scan, pred64, scan_byte, scan, HostRc, declined, err, ok, finish,
  os_http_validate_host,
}

-- No NUL, no '/', and no '.' behind a '.'; `after_dot` is whether one stands before the list.
abbrev pub clean : Bool → List ℕ → Bool
clean after_dot [] = true
clean after_dot (c ∷ h) =
    not (c == 0) && (not (c == b'/') && (not (c == b'.' && after_dot) && clean (c == b'.') h))

abbrev pub any_upper : List ℕ → Bool
any_upper [] = false
any_upper (c ∷ h) = is_upper c || any_upper h

-- In a list that begins at index `i`: the index of the first ':', or `len`.
abbrev pub colon_at : ℕ → List ℕ → ℕ → ℕ
colon_at i [] len = len
colon_at i (c ∷ h) len = if c == b':' then i else colon_at (i + 1) h len

-- The index behind the first ']', or `len`.
abbrev pub bracket_after : ℕ → List ℕ → ℕ → ℕ
bracket_after i [] len = len
bracket_after i (c ∷ h) len = if c == b']' then i + 1 else bracket_after (i + 1) h len

-- The index of the last '.', or `d`.
abbrev pub last_dot : ℕ → List ℕ → ℕ → ℕ
last_dot i [] d = d
last_dot i (c ∷ h) d = last_dot (i + 1) h (if c == b'.' then i else d)

-- The name or the address, without the port: up to the first ':', or, for a host that begins with
-- '[', up to the first ']'.
abbrev pub host_span : List ℕ → ℕ
host_span [] = 0
host_span (c ∷ h) =
    if c == b'[' then bracket_after 1 h (length (c ∷ h)) else colon_at 0 (c ∷ h) (length (c ∷ h))

-- The same without a last '.'.
abbrev pub host_length : List ℕ → ℕ
host_length h = if last_dot 0 h (length h) + 1 == host_span h then host_span h - 1 else host_span h

-- What the code is to return.
abbrev pub valid_host : List ℕ → Bool → Bool → HostRc
valid_host h alloc allocated =
    if not (clean false h) || host_length h == 0
    then declined
    else if alloc || any_upper h
    then if allocated then ok (map os_tolower (take (host_length h) h)) else err
    else ok (take (host_length h) h)

abbrev has : ℕ → List ℕ → Bool
has b [] = false
has b (c ∷ h) = c == b || has b h

abbrev state_in : HostState → List ℕ → HostState
state_in usual h = if has b':' h then rest else usual
state_in literal h = if has b']' h then rest else literal
state_in rest h = rest

abbrev len_in : HostState → ℕ → List ℕ → ℕ → ℕ
len_in usual i h len = colon_at i h len
len_in literal i h len = bracket_after i h len
len_in rest i h len = len

-- What the loop is to return when it has come to index `i` and `h` is left.
abbrev scanned : HostState → ℕ → ℕ → Bool → ℕ → List ℕ → Option Scan
scanned st d len al i h =
    if clean (d == pred64 i) h
    then some (record {
      state = state_in st h;
      dot_pos = last_dot i h d;
      host_len = len_in st i h len;
      alloc = al || any_upper h;
    })
    else none

-- `d` is no index that the scan has still to visit.
abbrev Passed : ℕ → ℕ → ℕ → Type 0
Passed d i n = (d < i) ⊎ (n ≤ d)

pred64-add_one : (i : ℕ) → i < 2 ^ 64 → pred64 (i + 1) ≡ i
unfolding pred64
pred64-add_one i h = omega arith

module _ (n : ℕ) (small : n < 2 ^ 64) where
  abbrev ScanEq : List ℕ → HostState → Type 0
  ScanEq h st =
      (i d len : ℕ) (al : Bool)
      → 0 < i
      → i + length h ≡ n
      → Passed d i n
      → scan i h (record { state = st; dot_pos = d; host_len = len; alloc = al })
        ≡ scanned st d len al i h

  module _ (c : ℕ) (h : List ℕ) where
    scan_rest : ScanEq h rest → ScanEq (c ∷ h) rest
    unfolding scan scan_byte
    scan_rest ih i d len al hi hn p =
        ground
          (arith, pred64-add_one i, ih (i + 1) d len al, ih (i + 1) i len al, ih (i + 1) d len true)

    scan_usual : ScanEq h usual → ScanEq h rest → ScanEq (c ∷ h) usual
    unfolding scan scan_byte
    scan_usual ih ih_rest i d len al hi hn p = ground (
      arith,
      pred64-add_one i,
      ih (i + 1) d len al,
      ih (i + 1) i len al,
      ih (i + 1) d len true,
      ih_rest (i + 1) d i al,
    )

    scan_literal : ScanEq h literal → ScanEq h rest → ScanEq (c ∷ h) literal
    unfolding scan scan_byte
    scan_literal ih ih_rest i d len al hi hn p = ground (
      arith,
      pred64-add_one i,
      ih (i + 1) d len al,
      ih (i + 1) i len al,
      ih (i + 1) d len true,
      ih_rest (i + 1) d (i + 1) al,
    )

  scan-eq : (h : List ℕ) (st : HostState) → ScanEq h st
  unfolding scan
  scan-eq [] usual i d len al hi hn p = ground arith
  scan-eq [] literal i d len al hi hn p = ground arith
  scan-eq [] rest i d len al hi hn p = ground arith
  scan-eq (c ∷ h) usual i d len al hi hn p =
      scan_usual c h (scan-eq h usual) (scan-eq h rest) i d len al hi hn p
  scan-eq (c ∷ h) literal i d len al hi hn p =
      scan_literal c h (scan-eq h literal) (scan-eq h rest) i d len al hi hn p
  scan-eq (c ∷ h) rest i d len al hi hn p = scan_rest c h (scan-eq h rest) i d len al hi hn p

pred64-zero : pred64 0 ≡ 2 ^ 64 - 1
unfolding pred64
pred64-zero = refl

abbrev start : List ℕ → Bool → Scan
start h alloc = record { state = usual; dot_pos = length h; host_len = length h; alloc = alloc }

-- the state behind the loop
abbrev last_state : List ℕ → HostState
last_state [] = usual
last_state (c ∷ h) = if c == b'[' then state_in literal h else state_in usual (c ∷ h)

scan_all :
    (h : List ℕ) (alloc : Bool)
    → length h < 2 ^ 64 - 1
    → scan 0 h (start h alloc) ≡ (
        if clean false h
        then some (record {
          state = last_state h;
          dot_pos = last_dot 0 h (length h);
          host_len = host_span h;
          alloc = alloc || any_upper h;
        })
        else none)
unfolding scan scan_byte
scan_all [] alloc small = ground arith
scan_all (c ∷ h) alloc small =
    let n = length (c ∷ h) in
    let fits : n < 2 ^ 64 = omega arith in
    ground (
      arith,
      pred64-zero,
      pred64-add_one 0,
      scan-eq n fits h usual 1 n n alloc,
      scan-eq n fits h usual 1 0 n alloc,
      scan-eq n fits h usual 1 n n true,
      scan-eq n fits h rest 1 n 0 alloc,
      scan-eq n fits h literal 1 n n alloc,
    )

eq-pred64 : (d len : ℕ) → d < 2 ^ 64 - 1 → len < 2 ^ 64 → (d == pred64 len) ≡ (d + 1 == len)
unfolding pred64
eq-pred64 d len hd hl = ground arith

last_dot-le : (h : List ℕ) (i d n : ℕ) → i + length h ≤ n → d ≤ n → last_dot i h d ≤ n
last_dot-le [] i d n hi hd = hd
last_dot-le (c ∷ h) i d n hi hd =
    ground (arith, last_dot-le h (i + 1) d n, last_dot-le h (i + 1) i n)

colon_at-le : (h : List ℕ) (i len n : ℕ) → i + length h ≤ n → len ≤ n → colon_at i h len ≤ n
colon_at-le [] i len n hi hl = hl
colon_at-le (c ∷ h) i len n hi hl = ground (arith, colon_at-le h (i + 1) len n)

bracket_after-le :
    (h : List ℕ) (i len n : ℕ) → i + length h ≤ n → len ≤ n → bracket_after i h len ≤ n
bracket_after-le [] i len n hi hl = hl
bracket_after-le (c ∷ h) i len n hi hl = ground (arith, bracket_after-le h (i + 1) len n)

pub host_span-le : (h : List ℕ) → host_span h ≤ length h
host_span-le [] = omega arith
host_span-le (c ∷ h) =
    let n = length (c ∷ h) in
    ground (
      arith,
      bracket_after-le h 1 n n (omega arith) (omega arith),
      colon_at-le h 1 n n (omega arith) (omega arith),
    )

finish-eq :
    (h : List ℕ) (st : HostState) (d len : ℕ) (al allocated : Bool)
    → d < 2 ^ 64 - 1
    → len < 2 ^ 64
    → finish allocated h (record { state = st; dot_pos = d; host_len = len; alloc = al }) ≡ (
        let n = if d + 1 == len then len - 1 else len in
        if n == 0
        then declined
        else if al
        then if allocated then ok (map os_tolower (take n h)) else err
        else ok (take n h))
unfolding finish
finish-eq h st d len al allocated hd hl = rw (eq-pred64 d len hd hl, os_strlow-eq-map)

-- The loop over the host, with its dot position and its three states, computes what a valid host is.
-- For any host whose length fits an `int` and any two flags: it is declined when it holds a NUL, a
-- '/' or two dots in a row, or when nothing is left before the port and a last dot; otherwise it
-- is cut there, and put into small letters in a new block if a capital stands anywhere or the
-- caller asks for it, with `OS_ERR` if there is no block.
pub os_http_validate_host-eq-valid_host :
    (h : List ℕ) (alloc allocated : Bool)
    → length h < 2 ^ 31
    → os_http_validate_host h alloc allocated ≡ valid_host h alloc allocated
unfolding os_http_validate_host
os_http_validate_host-eq-valid_host h alloc allocated small =
    rw (scan_all h alloc (omega arith), os_http_validate_host)
      (elim (Bool-cases (clean false h)) [
        | inl good ↦
            rw (good, os_http_validate_host)
              (finish-eq h (last_state h) (last_dot 0 h (length h)) (host_span h)
                (alloc || any_upper h) allocated
                (omega (arith, last_dot-le h 0 (length h) (length h) (omega arith) (omega arith)))
                (omega (arith, host_span-le h)))
        | inr bad ↦ rw (bad, os_http_validate_host)
      ])
