-- ===== src/Tests/Startup.antt =====
-- The options and the title of a process: runs, and the theorems at concrete inputs.
use ostrichserver.Base.{
  ℕ, ◌+◌, true, false, List, [], ◌∷◌, Option, none, some, ◌≡◌, refl, if◌then◌else◌, length, bytes,
  zero, suc, ◌++◌,
}
use ostrichserver.Startup.Options.{os_ok, os_err, default_options, os_parse_options}
use ostrichserver.Startup.Flags.{options_of, option_letters, all_options, os_parse_options-eq}
use ostrichserver.Startup.Title.{
  Memory, Text, os_init_proctitle, full_title, title_size, proctitle_setting,
}

abbrev words : List (List ℕ)
words = bytes "-vt" ∷ bytes "-x" ∷ bytes "file" ∷ bytes "-h" ∷ []

-- The help is not shown, since its option stands behind a word that is none.
parsed :
    os_parse_options words default_options
    ≡ (record { show_help = false; show_version = true; cf_daemon = false }, os_err)
unfolding os_parse_options
parsed = refl

os_parse_options-eq_example : os_parse_options words default_options ≡ (
  options_of (option_letters words) default_options,
  (if all_options words then os_ok else os_err),
)
os_parse_options-eq_example = os_parse_options-eq words default_options

abbrev os_word : Text
os_word = record { address = 100; content = bytes "./os" }

abbrev option_word : Text
option_word = record { address = 105; content = bytes "-t" }

-- A process that was started as `./os -t` with two strings in its environment.
abbrev argv : List Text
argv =
    record { address = 100; content = bytes "./os" }
    ∷ record { address = 105; content = bytes "-t" }
    ∷ []

abbrev vars : List Text
vars =
    record { address = 108; content = bytes "HOME=/" }
    ∷ record { address = 115; content = bytes "PATH=/usr/bin" }
    ∷ []

abbrev blank : Memory
blank a = 1

found : (os_init_proctitle 100 argv vars).0 ≡ 128
unfolding os_init_proctitle
found = refl

-- The environment is not behind the words: nothing of it is moved.
apart : (os_init_proctitle 100 argv (record { address = 200; content = bytes "A=1" } ∷ [])).0 ≡ 107
unfolding os_init_proctitle
apart = refl

-- `n` bytes of memory, from `p` on
abbrev read : ℕ → ℕ → Memory → List ℕ
read p zero mem = []
read p (suc n) mem = mem p ∷ read (p + 1) n mem

abbrev seen : ℕ → ℕ → Option Memory → List ℕ
seen p n none = []
seen p n (some mem) = read p n mem

-- The title is cut behind its eighth byte.
cut_off :
    seen 99 28 (proctitle_setting 100 126 (bytes "manager ./os -t") blank)
    ≡ 1 ∷ (bytes "ostrichserver: manager " ++ 0 ∷ 0 ∷ 0 ∷ 1 ∷ [])
unfolding proctitle_setting
cut_off = refl

-- A short command line with an empty environment: the end is written beyond the memory.
overrun : proctitle_setting 100 122 (bytes "worker") blank ≡ none
unfolding proctitle_setting
overrun = refl

-- The block of the title has no place for a NUL.
full : (length (full_title (bytes "./os" ∷ [])) ≡ 12) × (title_size (bytes "./os" ∷ []) ≡ 12)
unfolding full_title title_size
full = (refl, refl)
