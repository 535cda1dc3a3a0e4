-- ===== src/Headers/Laws.antt =====
-- What the handlers keep and what they find.
use ostrichserver.Base.{
  bytes, ℕ, ◌+◌, ◌≤◌, ◌≡◌, inl, inr, Bool, true, false, Option, none, some, arith, ltb, ◌==◌,
  Bool-cases, Option-cases, is_some,
}
use ostrichserver.OsString.Search.{os_strstrn, os_strcasestrn}
use ostrichserver.Headers.Types.{HttpHeader, HeadersIn, Slot, slot_index, user_agent, Browsers}
use ostrichserver.Headers.Browser.{mentions, mark_msie, mark_opera, mark_other, mark_browser}
use ostrichserver.Headers.Handlers.{
  write_slot, Handler, unique_header_line, header_line, multi_header_lines, connection_line,
  user_agent_line, header_parser,
}

abbrev pub bit : Bool → ℕ
bit true = 1
bit false = 0

bit_le_one : (b : Bool) → bit b ≤ 1
bit_le_one true = omega arith
bit_le_one false = omega arith

abbrev pub late : Browsers → ℕ
late f = bit f.gecko + bit f.chrome + bit f.safari + bit f.konqueror

-- how many browsers are marked
abbrev pub marked : Browsers → ℕ
marked f = bit f.msie + bit f.opera + late f

-- At most one browser is marked, version 6 only with the browser, and none before a user agent is known.
pub record IsClassified (r : HeadersIn) : Type 0 where
  pub exclusive : marked r.browsers ≤ 1
  pub versioned : bit r.browsers.msie6 ≤ bit r.browsers.msie
  pub unknown : r.single user_agent ≡ none → marked r.browsers ≡ 0

-- what holds between the three tests
abbrev Early : Browsers → Type 0
Early f = (late f ≡ 0) × (bit f.msie + bit f.opera ≤ 1) × (bit f.msie6 ≤ bit f.msie)

mark_msie-Early :
    (f : Browsers) (h : HttpHeader) (o : Option ℕ)
    → marked f ≡ 0
    → bit f.msie6 ≤ bit f.msie
    → Early (mark_msie f h o)
unfolding mark_msie
mark_msie-Early f h none e v = (omega arith, omega arith, v)
mark_msie-Early f h (some at) e v = elim (Bool-cases (ltb (at + 7) h.value_len)) [
  | inl inside ↦ rw inside (omega arith, omega arith, bit_le_one _)
  | inr outside ↦ rw outside (omega arith, omega arith, v)
]

mark_opera-Early : (f : Browsers) (h : HttpHeader) → Early f → Early (mark_opera f h)
unfolding mark_opera
mark_opera-Early f h e = elim (Bool-cases (mentions h.value (bytes "Opera"))) [
  | inl found ↦ rw found (e.0, omega arith, omega arith)
  | inr missing ↦ rw missing e
]

mark_other-marked :
    (f : Browsers) (h : HttpHeader)
    → Early f
    → (marked (mark_other f h) ≤ 1) × (bit (mark_other f h).msie6 ≤ bit (mark_other f h).msie)
unfolding mark_other
mark_other-marked f h e = ground arith

mark_browser-marked :
    (f : Browsers) (h : HttpHeader)
    → marked f ≡ 0
    → bit f.msie6 ≤ bit f.msie
    → (marked (mark_browser f h) ≤ 1) × (bit (mark_browser f h).msie6 ≤ bit (mark_browser f h).msie)
unfolding mark_browser
mark_browser-marked f h e v =
    let after_msie = mark_msie f h (os_strstrn h.value (bytes "MSIE ") 4) in
    mark_other-marked (mark_opera after_msie h) h (
      mark_opera-Early after_msie h
        (mark_msie-Early f h (os_strstrn h.value (bytes "MSIE ") 4) e v))

write_slot-ne-none :
    (f : Slot → Option HttpHeader) (s s' : Slot) (h : HttpHeader)
    → write_slot f s h s' ≡ none
    → f s' ≡ none
write_slot-ne-none f s s' h e = elim (Bool-cases (slot_index s == slot_index s')) [
  | inl same ↦ absurd (ground (arith, rw same at e))
  | inr other ↦ rw other at e
]

write_slot-IsClassified :
    (r : HeadersIn) (s : Slot) (h : HttpHeader)
    → IsClassified r
    → IsClassified (record r { single = write_slot r.single s h })
write_slot-IsClassified r s h v = record {
  exclusive = v.exclusive;
  versioned = v.versioned;
  unknown = λ e. v.unknown (write_slot-ne-none r.single s user_agent h e);
}

-- Every handler of the table, on any header line, keeps the marks of the browsers consistent: at most one of
-- MSIE, Opera, Gecko, Chrome, Safari and Konqueror is marked, the mark for MSIE 6 stands only beside
-- that for MSIE, and nothing is marked before a user agent has been stored.
pub header_parser-IsClassified :
    (p : Handler) (r : HeadersIn) (h : HttpHeader)
    → IsClassified r
    → IsClassified (header_parser p r h)
unfolding header_parser
header_parser-IsClassified (unique_header_line s) r h v = write_slot-IsClassified r s h v
header_parser-IsClassified (header_line s) r h v = elim (Bool-cases (is_some (r.single s))) [
  | inl taken ↦ rw taken v
  | inr free ↦ rw free (write_slot-IsClassified r s h v)
]
header_parser-IsClassified multi_header_lines r h v = record {
  exclusive = v.exclusive;
  versioned = v.versioned;
  unknown = v.unknown;
}
header_parser-IsClassified connection_line r h v =
    elim (Bool-cases (is_some (os_strcasestrn h.value (bytes "close") 4))) [
      | inl close ↦
          rw close
            (record { exclusive = v.exclusive; versioned = v.versioned; unknown = v.unknown })
      | inr open_still ↦
          elim (Bool-cases (is_some (os_strcasestrn h.value (bytes "keep-alive") 9))) [
            | inl keep ↦ rw open_still (
                rw keep (record {
                  exclusive = v.exclusive;
                  versioned = v.versioned;
                  unknown = v.unknown;
                }))
            | inr neither ↦ rw open_still (rw neither v)
          ]
    ]
header_parser-IsClassified user_agent_line r h v = elim (Option-cases (r.single user_agent)) [
  | inr (old, e) ↦ rw e v
  | inl first_one ↦
      let marks = mark_browser-marked r.browsers h (v.unknown first_one) v.versioned in
      rw first_one (record {
        exclusive = marks.0;
        versioned = marks.1;
        unknown = λ e. absurd (ground (arith, e));
      })
]
