-- ===== src/Startup/Flags.antt =====
-- What the options of a command line come to.
use ostrichserver.Base.{
  ℕ, Bool, true, false, not, ◌&&◌, ◌||◌, List, [], ◌∷◌, ◌++◌, ◌≡◌, refl, ap, ◌∙◌, arith, ◌==◌,
  if◌then◌else◌, inl, inr, Bool-cases,
}
use ostrichserver.Startup.Options.{
  Options, os_ok, os_err, on_option, on_option_letters, os_parse_options,
}

-- the letters of the leading words that begin with '-'
unfoldable pub option_letters : List (List ℕ) → List ℕ
option_letters [] = []
option_letters ([] ∷ args) = []
option_letters ((c ∷ letters) ∷ args) =
    let rest = letters ++ option_letters args in if c == b'-' then rest else []

-- whether all words begin with '-'
unfoldable pub all_options : List (List ℕ) → Bool
all_options [] = true
all_options ([] ∷ args) = false
all_options ((c ∷ letters) ∷ args) = c == b'-' && all_options args

-- whether a letter stands in a list
abbrev pub has : ℕ → List ℕ → Bool
has c [] = false
has c (x ∷ xs) = x == c || has c xs

-- the options that some letters set
abbrev pub options_of : List ℕ → Options → Options
options_of cs o = record {
  show_help = o.show_help || (has b'?' cs || has b'h' cs);
  show_version = o.show_version || (has b'v' cs || has b'V' cs);
  cf_daemon = o.cf_daemon && not (has b't' cs);
}

on_option_letters-append :
    (xs ys : List ℕ) (o : Options)
    → on_option_letters (xs ++ ys) o ≡ on_option_letters ys (on_option_letters xs o)
unfolding on_option_letters
on_option_letters-append [] ys o = refl
on_option_letters-append (c ∷ xs) ys o = on_option_letters-append xs ys (on_option c o)

options_of-nil : (o : Options) → o ≡ options_of [] o
options_of-nil o = ground arith

options_of-cons :
    (c : ℕ) (cs : List ℕ) (o : Options) → options_of cs (on_option c o) ≡ options_of (c ∷ cs) o
unfolding on_option
options_of-cons c cs o = ground arith

on_option_letters-eq : (cs : List ℕ) (o : Options) → on_option_letters cs o ≡ options_of cs o
unfolding on_option_letters
on_option_letters-eq [] o = options_of-nil o
on_option_letters-eq (c ∷ cs) o = on_option_letters-eq cs (on_option c o) ∙ options_of-cons c cs o

parse-letters :
    (args : List (List ℕ)) (o : Options)
    → os_parse_options args o
      ≡ (on_option_letters (option_letters args) o, (if all_options args then os_ok else os_err))
unfolding os_parse_options option_letters all_options on_option_letters
parse-letters [] o = refl
parse-letters ([] ∷ args) o = refl
parse-letters ((c ∷ letters) ∷ args) o = elim (Bool-cases (c == b'-')) [
  | inl option ↦ rw option (
      rw (on_option_letters-append letters (option_letters args) o)
        (parse-letters args (on_option_letters letters o)))
  | inr other ↦ rw other refl
]

-- The options of a command line, in any order and grouping. Of the words before the first that does not begin
-- with '-', each letter '?' or 'h' asks for the help, 'v' or 'V' for the version, and 't' turns the daemon
-- off; any other letter does nothing. The result is `OS_OK` exactly when every word begins with '-'.
pub os_parse_options-eq :
    (args : List (List ℕ)) (o : Options)
    → os_parse_options args o
      ≡ (options_of (option_letters args) o, (if all_options args then os_ok else os_err))
os_parse_options-eq args o =
    parse-letters args o
    ∙ ap (λ (p : Options). (p, (if all_options args then os_ok else os_err)))
        (on_option_letters-eq (option_letters args) o)
