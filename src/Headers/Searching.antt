-- ===== src/Headers/Searching.antt =====
-- What the handlers find in a header line, by a description of its own.
use ostrichserver.Base.{
  bytes, ℕ, ◌+◌, ◌<◌, ◌≡◌, refl, ap, ◌∙◌, inl, inr, Bool, false, ◌||◌, List, [], ◌∷◌, arith, length,
  ◌==◌, if◌then◌else◌, Bool-cases, is_some,
}
use ostrichserver.OsString.Case.{os_tolower}
use ostrichserver.OsString.Search.{os_strstrn, os_strcasestrn, strstrn_loop}
use ostrichserver.OsString.Finding.{starts_with, IsText, test-eq}
use ostrichserver.OsString.Folding.{IsBytes, lower, os_strcasestrn-eq-lower, lower_byte}
use ostrichserver.Headers.Types.{HttpHeader, HeadersIn}
use ostrichserver.Headers.Handlers.{
  connection_line, connection_close, connection_keep_alive, header_parser,
}

-- The word stands somewhere in the string.
unfoldable pub occurs : List ℕ → List ℕ → Bool
unfolding starts_with
occurs w [] = starts_with w []
occurs w (x ∷ s) = starts_with w (x ∷ s) || occurs w s

strstrn_loop-occurs :
    (s : List ℕ) (at c : ℕ) (w : List ℕ)
    → IsText s
    → IsText w
    → is_some (strstrn_loop s at c w (length w)) ≡ occurs (c ∷ w) s
unfolding strstrn_loop occurs
strstrn_loop-occurs [] at c w ts tw = refl
strstrn_loop-occurs (x ∷ s) at c w ts tw =
    let not_end : (x == 0) ≡ false = ground arith in
    rw not_end (
      rw (test-eq x c s w tw) (elim (Bool-cases (starts_with (c ∷ w) (x ∷ s))) [
        | inl here ↦ rw here refl
        | inr away ↦ rw away (strstrn_loop-occurs s (at + 1) c w ts.1 tw)
      ]))

lower-IsText : (s : List ℕ) → IsBytes s → IsText s → IsText (lower s)
lower-IsText [] b t = t
lower-IsText (c ∷ s) b t = (ground (arith, lower_byte c b.0), lower-IsText s b.1 t.1)

-- `mentions` in lower case, for a word that is in lower case
case_search-occurs :
    (s : List ℕ) (c : ℕ) (w : List ℕ)
    → IsBytes s
    → IsText s
    → IsBytes (c ∷ w)
    → IsText w
    → c < 128
    → lower (c ∷ w) ≡ c ∷ w
    → is_some (os_strcasestrn s (c ∷ w) (length w)) ≡ occurs (c ∷ w) (lower s)
unfolding os_strstrn
case_search-occurs s c w bs ts bw tw ascii same =
    ap is_some (os_strcasestrn-eq-lower s (c ∷ w) (length w) bs bw ascii)
    ∙ (ap (λ v. is_some (os_strstrn (lower s) v (length w))) same
        ∙ strstrn_loop-occurs (lower s) 0 c w (lower-IsText s bs ts) tw)

close_is_lower : lower (bytes "close") ≡ bytes "close"
unfolding os_tolower
close_is_lower = refl

keep_is_lower : lower (bytes "keep-alive") ≡ bytes "keep-alive"
unfolding os_tolower
keep_is_lower = refl

-- A `Connection` line whose value has no NUL sets the type to "close" exactly when "close" stands in the
-- value in any case, else to "keep-alive" exactly when that does, and else leaves the type as it is. It changes
-- nothing else.
pub connection_line-occurs :
    (r : HeadersIn) (h : HttpHeader)
    → IsBytes h.value
    → IsText h.value
    → header_parser connection_line r h ≡ record r {
      connection_type =
          if occurs (bytes "close") (lower h.value)
          then connection_close
          else if occurs (bytes "keep-alive") (lower h.value)
          then connection_keep_alive
          else r.connection_type;
    }
unfolding header_parser
connection_line-occurs r h b t =
    let close =
      case_search-occurs h.value b'c' (bytes "lose") b t (omega arith) (omega arith) (omega arith)
        close_is_lower in
    let keep =
      case_search-occurs h.value b'k' (bytes "eep-alive") b t (omega arith) (omega arith)
        (omega arith) keep_is_lower in
    rw close (rw keep (ground arith))
