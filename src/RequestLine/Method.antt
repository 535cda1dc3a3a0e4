-- ===== src/RequestLine/Method.antt =====
-- The states `sw_start` and `sw_method`, and the switch that recognises a method name.
use ostrichserver.Base.{
  ℕ, ◌+◌, ◌-◌, Bool, true, not, ◌&&◌, ◌||◌, List, [], ◌∷◌, Option, none, some, ltb, ◌==◌,
  if◌then◌else◌, get_or,
}
use ostrichserver.RequestLine.Codes
use ostrichserver.RequestLine.Types.{
  Request, Step, next, fail, invalid_method, sw_start, sw_method, sw_spaces_before_uri, cr, lf,
}

-- `os_str3_cmp` up to `os_str9cmp`: the bytes of `m` from index `k` on are `cs`.
abbrev pub str_cmp : (ℕ → ℕ) → ℕ → List ℕ → Bool
str_cmp m k [] = true
str_cmp m k (c ∷ cs) = m k == c && str_cmp m (k + 1) cs

-- `os_str3Ocmp`, which leaves out `m[1]`
abbrev pub str3_o_cmp : (ℕ → ℕ) → ℕ → ℕ → ℕ → Bool
str3_o_cmp m c0 c2 c3 = m 0 == c0 && (m 2 == c2 && m 3 == c3)

-- The cases of `switch (p - m)`: the new value of `r->method`, which is `old` if no name fits.
unfoldable pub method_3 : (ℕ → ℕ) → ℕ → ℕ
method_3 m old =
    if str_cmp m 0 (b'G' ∷ b'E' ∷ b'T' ∷ [])
    then Codes.get
    else if str_cmp m 0 (b'P' ∷ b'U' ∷ b'T' ∷ [])
    then Codes.put
    else old

unfoldable pub method_4 : (ℕ → ℕ) → ℕ → ℕ
method_4 m old =
    if m 1 == b'O'
    then if str3_o_cmp m b'P' b'S' b'T'
      then Codes.post
      else if str3_o_cmp m b'C' b'P' b'Y'
      then Codes.copy
      else if str3_o_cmp m b'M' b'V' b'E'
      then Codes.move
      else if str3_o_cmp m b'L' b'C' b'K'
      then Codes.lock
      else old
    else if str_cmp m 0 (b'H' ∷ b'E' ∷ b'A' ∷ b'D' ∷ [])
    then Codes.head
    else old

unfoldable pub method_5 : (ℕ → ℕ) → ℕ → ℕ
method_5 m old =
    if str_cmp m 0 (b'M' ∷ b'K' ∷ b'C' ∷ b'O' ∷ b'L' ∷ [])
    then Codes.mkcol
    else if str_cmp m 0 (b'P' ∷ b'A' ∷ b'T' ∷ b'C' ∷ b'H' ∷ [])
    then Codes.patch
    else if str_cmp m 0 (b'T' ∷ b'R' ∷ b'A' ∷ b'C' ∷ b'E' ∷ [])
    then Codes.trace
    else old

unfoldable pub method_6 : (ℕ → ℕ) → ℕ → ℕ
method_6 m old =
    if str_cmp m 0 (b'D' ∷ b'E' ∷ b'L' ∷ b'E' ∷ b'T' ∷ b'E' ∷ [])
    then Codes.delete
    else if str_cmp m 0 (b'U' ∷ b'N' ∷ b'L' ∷ b'O' ∷ b'C' ∷ b'K' ∷ [])
    then Codes.unlock
    else old

unfoldable pub method_7 : (ℕ → ℕ) → ℕ → ℕ
method_7 m old =
    if str_cmp m 0 (b'O' ∷ b'P' ∷ b'T' ∷ b'I' ∷ b'O' ∷ b'N' ∷ b'S' ∷ []) then Codes.options else old

unfoldable pub method_8 : (ℕ → ℕ) → ℕ → ℕ
method_8 m old =
    if str_cmp m 0 (b'P' ∷ b'R' ∷ b'O' ∷ b'P' ∷ b'F' ∷ b'I' ∷ b'N' ∷ b'D' ∷ [])
    then Codes.propfind
    else old

unfoldable pub method_9 : (ℕ → ℕ) → ℕ → ℕ
method_9 m old =
    if str_cmp m 0 (b'P' ∷ b'R' ∷ b'O' ∷ b'P' ∷ b'P' ∷ b'A' ∷ b'T' ∷ b'C' ∷ b'H' ∷ [])
    then Codes.proppatch
    else old

-- `switch (p - m)`
unfoldable pub method_switch : (ℕ → ℕ) → ℕ → ℕ → ℕ
method_switch m n old =
    if n == 3
    then method_3 m old
    else if n == 4
    then method_4 m old
    else if n == 5
    then method_5 m old
    else if n == 6
    then method_6 m old
    else if n == 7
    then method_7 m old
    else if n == 8
    then method_8 m old
    else if n == 9
    then method_9 m old
    else old

-- The method that stands from `m = r->request_start` up to `p`. `request_start` is never NULL here.
unfoldable pub recognise : List ℕ → Option ℕ → ℕ → ℕ → ℕ
recognise buf none p old = old
recognise buf (some m) p old = method_switch (λ k. get_or buf (m + k) 0) (p - m) old

-- `(ch < 'A' || ch > 'Z') && ch != '_'`
unfoldable pub not_method_byte : ℕ → Bool
not_method_byte ch = (ltb ch b'A' || ltb b'Z' ch) && not (ch == b'_')

unfoldable pub on_start : Request → ℕ → ℕ → Step
on_start r p ch =
    let r' = record r { request_start = some p } in
    if ch == cr || ch == lf
    then next sw_start r'
    else if not_method_byte ch
    then fail invalid_method r'
    else next sw_method r'

unfoldable pub on_method : List ℕ → Request → ℕ → ℕ → Step
on_method buf r p ch =
    if ch == b' '
    then next sw_spaces_before_uri
        (record r { method_end = some (p - 1); method = recognise buf r.request_start p r.method })
    else if not_method_byte ch
    then fail invalid_method r
    else next sw_method r
