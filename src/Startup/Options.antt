-- ===== src/Startup/Options.antt =====
-- `os_parse_options` (main.c). A word of the command line is the bytes before its NUL.
use ostrichserver.Base.{ℕ, Bool, true, false, ◌||◌, List, [], ◌∷◌, ◌==◌, if◌then◌else◌}

-- the variables that the options set
pub record Options : Type 0 where
  pub show_help : Bool
  pub show_version : Bool
  pub cf_daemon : Bool

-- their values at the start
abbrev pub default_options : Options
default_options = record { show_help = false; show_version = false; cf_daemon = true }

pub data OptionRc : Type 0 where
  os_ok : OptionRc
  os_err : OptionRc

-- the switch
unfoldable pub on_option : ℕ → Options → Options
on_option c o =
    if c == b'?' || c == b'h'
    then record o { show_help = true }
    else if c == b'v' || c == b'V'
    then record o { show_version = true }
    else if c == b't'
    then record o { cf_daemon = false }
    else o

-- `while (*p)`
unfoldable pub on_option_letters : List ℕ → Options → Options
unfolding on_option
on_option_letters [] o = o
on_option_letters (c ∷ cs) o = on_option_letters cs (on_option c o)

-- `os_parse_options` on the words behind the name of the program
unfoldable pub os_parse_options : List (List ℕ) → Options → Options × OptionRc
unfolding on_option_letters
os_parse_options [] o = (o, os_ok)
os_parse_options ([] ∷ args) o = (o, os_err)
os_parse_options ((c ∷ letters) ∷ args) o =
    let rest = os_parse_options args (on_option_letters letters o) in
    if c == b'-' then rest else (o, os_err)
