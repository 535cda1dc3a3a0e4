-- ===== src/HttpRequest/Host.antt =====
-- `os_http_validate_host`.
use ostrichserver.Base.{
  ℕ, ◌+◌, ◌-◌, ◌%◌, ◌^◌, Bool, true, List, [], ◌∷◌, Option, none, some, ◌==◌, if◌then◌else◌, length,
  take,
}
use ostrichserver.OsString.Case.{is_upper, os_strlow}

-- the states of the loop: `sw_usual`, `sw_literal`, `sw_rest`
pub data HostState : Type 0 where
  usual literal rest : HostState

-- The variables of the loop.
pub record Scan : Type 0 where
  pub state : HostState
  pub dot_pos : ℕ
  pub host_len : ℕ
  pub alloc : Bool

-- `i - 1` in a `size_t`
unfoldable pub pred64 : ℕ → ℕ
pred64 i = (i + 2 ^ 64 - 1) % 2 ^ 64

on_colon : HostState → ℕ → Scan → Scan
on_colon usual i v = record v { host_len = i; state = rest }
on_colon literal i v = v
on_colon rest i v = v

on_bracket : HostState → ℕ → Scan → Scan
on_bracket literal i v = record v { host_len = i + 1; state = rest }
on_bracket usual i v = v
on_bracket rest i v = v

-- the body of the loop; `none` is `return OS_DECLINED`
unfoldable pub scan_byte : ℕ → ℕ → Scan → Option Scan
unfolding on_colon on_bracket
scan_byte i ch v =
    if ch == b'.'
    then if v.dot_pos == pred64 i then none else some (record v { dot_pos = i })
    else if ch == b':'
    then some (on_colon v.state i v)
    else if ch == b'['
    then some (if i == 0 then record v { state = literal } else v)
    else if ch == b']'
    then some (on_bracket v.state i v)
    else if ch == 0
    then none
    else if ch == b'/'
    then none
    else some (if is_upper ch then record v { alloc = true } else v)

unfoldable pub scan : ℕ → List ℕ → Scan → Option Scan
scan i [] v = some v
scan i (ch ∷ h) v = elim (scan_byte i ch v) [ none ↦ none | some v' ↦ scan (i + 1) h v' ]

-- `OS_DECLINED`, `OS_ERR`, or `OS_OK` with the bytes of the new `host`
pub data HostRc : Type 0 where
  declined : HostRc
  err : HostRc
  ok : List ℕ → HostRc

-- behind the loop
unfoldable pub finish : Bool → List ℕ → Scan → HostRc
finish allocated h v =
    let host_len = if v.dot_pos == pred64 v.host_len then v.host_len - 1 else v.host_len in
    if host_len == 0
    then declined
    else if v.alloc
    then if allocated then ok (os_strlow h host_len) else err
    else ok (take host_len h)

-- `alloc` is the parameter, `allocated` whether `os_malloc` succeeds.
unfoldable pub os_http_validate_host : List ℕ → Bool → Bool → HostRc
unfolding scan
os_http_validate_host h alloc allocated =
    elim (scan 0 h
      (record { state = usual; dot_pos = length h; host_len = length h; alloc = alloc })) [
        | none ↦ declined
        | some v ↦ finish allocated h v
      ]
