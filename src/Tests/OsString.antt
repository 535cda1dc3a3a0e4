-- ===== src/Tests/OsString.antt =====
-- Searches and numbers: runs, and the theorems at concrete inputs.
use ostrichserver.Base.{bytes, ◌≡◌, refl, none, some, arith}
use ostrichserver.OsString.Search.{os_strncasecmp, os_strstrn, os_strcasestrn, os_strlchr}
use ostrichserver.OsString.Finding.{FirstAt, os_strstrn-FirstAt}
use ostrichserver.OsString.Folding.{lower, os_strcasestrn-eq-lower}
use ostrichserver.OsString.Number.{os_natoi, os_atoi, decimal, digits_of}

-- Unfolded to run the functions.
string_run : Unit {0}
unfolding os_strncasecmp os_strstrn os_strcasestrn os_strlchr os_natoi os_atoi digits_of
string_run = tt

searches :
    (os_strstrn (bytes "Mozilla/4.0 MSIE 6.0") (bytes "MSIE ") 4 ≡ some 12)
    × (os_strstrn (bytes "MSI MSIE 6") (bytes "MSIE ") 4 ≡ some 4)
    × (os_strcasestrn (bytes "Keep-Alive") (bytes "keep-alive") 9 ≡ some 0)
    × (os_strcasestrn (bytes "upgrade") (bytes "close") 4 ≡ none)
    × (os_strncasecmp (bytes "aB") (bytes "Ac") 2 ≡ 4294967295)
    × (os_strlchr (bytes "a:b") 0 b':' ≡ some 1)
unfolding string_run
searches = (refl, refl, refl, refl, refl, refl)

numbers_read :
    (os_atoi (bytes "8000") ≡ some 8000)
    × (os_atoi (bytes "") ≡ none)
    × (os_atoi (bytes "-1") ≡ none)
    × (os_natoi (bytes "80x") 2 ≡ some 80)
    × (os_atoi (bytes "9223372036854775808") ≡ none)
    × (decimal 8000 ≡ bytes "8000")
unfolding string_run
numbers_read = (refl, refl, refl, refl, refl, refl)

os_strstrn-FirstAt_example :
    FirstAt (bytes "MSIE ") (bytes "MSI MSIE 6") (os_strstrn (bytes "MSI MSIE 6") (bytes "MSIE ") 4)
os_strstrn-FirstAt_example =
    os_strstrn-FirstAt (bytes "MSI MSIE 6") b'M' (bytes "SIE ") (omega arith) (omega arith)

os_strcasestrn-eq-lower_example :
    os_strcasestrn (bytes "Keep-Alive") (bytes "keep-ALIVE") 9
    ≡ os_strstrn (lower (bytes "Keep-Alive")) (lower (bytes "keep-ALIVE")) 9
os_strcasestrn-eq-lower_example =
    os_strcasestrn-eq-lower (bytes "Keep-Alive") (bytes "keep-ALIVE") 9 (omega arith) (omega arith)
      (omega arith)
