-- ===== src/Headers/Browser.antt =====
-- The part of `http_process_user_agent` that recognises browsers.
use ostrichserver.Base.{
  bytes, ℕ, ◌+◌, ◌-◌, Bool, true, false, not, ◌&&◌, ◌||◌, Option, none, some, List, length, get_or,
  drop, ltb, ◌==◌, if◌then◌else◌, is_some,
}
use ostrichserver.OsString.Search.{os_strstrn}
use ostrichserver.Headers.Types.{HttpHeader, Browsers}

-- `os_strstrn(s, word, sizeof(word) - 2)`, whether it is not NULL
abbrev pub mentions : List ℕ → List ℕ → Bool
mentions s word = is_some (os_strstrn s word (length word - 1))

-- the test of `msie[6]`, `msie[5]` and what follows `msie[7]`, for `msie` at the distance `at`
unfoldable pub is_msie6 : List ℕ → ℕ → Bool
is_msie6 agent at =
    let version = get_or agent (at + 5) 0 in
    if get_or agent (at + 6) 0 == b'.'
    then (if version == b'4' || version == b'5'
        then true
        else version == b'6' && not (mentions (drop (at + 8) agent) (bytes "SV1")))
    else false

-- the block of the test `msie && msie + 7 < user_agent + h->headerkv.value.len`
unfoldable pub mark_msie : Browsers → HttpHeader → Option ℕ → Browsers
unfolding is_msie6
mark_msie f h none = f
mark_msie f h (some at) =
    if ltb (at + 7) h.value_len
    then record f { msie = true; msie6 = if is_msie6 h.value at then true else f.msie6 }
    else f

unfoldable pub mark_opera : Browsers → HttpHeader → Browsers
mark_opera f h =
    if mentions h.value (bytes "Opera")
    then record f { opera = true; msie = false; msie6 = false }
    else f

unfoldable pub mark_other : Browsers → HttpHeader → Browsers
mark_other f h =
    if not f.msie && not f.opera
    then (if mentions h.value (bytes "Gecko/")
        then record f { gecko = true }
        else if mentions h.value (bytes "Chrome/")
        then record f { chrome = true }
        else if mentions h.value (bytes "Safari/") && mentions h.value (bytes "Mac OS X")
        then record f { safari = true }
        else if mentions h.value (bytes "Konqueror")
        then record f { konqueror = true }
        else f)
    else f

-- all tests, in their order
unfoldable pub mark_browser : Browsers → HttpHeader → Browsers
unfolding mark_msie mark_opera mark_other
mark_browser f h =
    mark_other (mark_opera (mark_msie f h (os_strstrn h.value (bytes "MSIE ") 4)) h) h
