-- ===== src/Headers/Repeated.antt =====
-- Header lines that come more than once.
use ostrichserver.Base.{
  ◌≡◌, refl, sym, ap, ◌∙◌, inl, inr, false, Option, none, some, List, [], ◌∷◌, arith, ◌==◌,
  Bool-cases, Option-cases, is_some,
}
use ostrichserver.Headers.Types.{HttpHeader, HeadersIn, Slot, slot_index}
use ostrichserver.Headers.Handlers.{
  write_slot, Handler, unique_header_line, header_line, header_parser,
}

-- The slots after header lines that all go to the slot `s`.
pub each : (Slot → Handler) → Slot → HeadersIn → List HttpHeader → HeadersIn
each handler s r [] = r
each handler s r (h ∷ hs) = each handler s (header_parser (handler s) r h) hs

-- the last of the lines, or what was there before
abbrev pub last_of : Option HttpHeader → List HttpHeader → Option HttpHeader
last_of o [] = o
last_of o (h ∷ hs) = last_of (some h) hs

-- the first of the lines, unless one was there before
abbrev pub first_of : Option HttpHeader → List HttpHeader → Option HttpHeader
first_of (some old) hs = some old
first_of none [] = none
first_of none (h ∷ hs) = some h

first_of_nothing : (o : Option HttpHeader) → o ≡ first_of o []
first_of_nothing none = refl
first_of_nothing (some h) = refl

write_slot_self :
    (f : Slot → Option HttpHeader) (s : Slot) (h : HttpHeader) → write_slot f s h s ≡ some h
write_slot_self f s h = ground arith

unique_last :
    (s : Slot) (r : HeadersIn) (hs : List HttpHeader)
    → (each unique_header_line s r hs).single s ≡ last_of (r.single s) hs
unfolding each header_parser
unique_last s r [] = refl
unique_last s r (h ∷ hs) =
    unique_last s (header_parser (unique_header_line s) r h) hs
    ∙ ap (λ o. last_of o hs) (write_slot_self r.single s h)

line_first :
    (s : Slot) (r : HeadersIn) (hs : List HttpHeader)
    → (each header_line s r hs).single s ≡ first_of (r.single s) hs
unfolding each header_parser
line_first s r [] = first_of_nothing (r.single s)
line_first s r (h ∷ hs) = elim (Option-cases (r.single s)) [
  | inl free ↦
      let stored : header_parser (header_line s) r h
          ≡ record r { single = write_slot r.single s h } =
        rw (ap is_some free) refl in
      ap (λ (x : HeadersIn). (each header_line s x hs).single s) stored
      ∙ (line_first s (record r { single = write_slot r.single s h }) hs
          ∙ (ap (λ o. first_of o hs) (write_slot_self r.single s h) ∙ rw free refl))
  | inr (old, taken) ↦
      let ignored : header_parser (header_line s) r h ≡ r = rw (ap is_some taken) refl in
      ap (λ (x : HeadersIn). (each header_line s x hs).single s) ignored
      ∙ (line_first s r hs
          ∙ (ap (λ o. first_of o hs) taken ∙ ap (λ o. first_of o (h ∷ hs)) (sym taken)))
]

-- a handler that writes at most to its slot
abbrev Keeps : (Slot → Handler) → Slot → Slot → Type 0
Keeps handler s s' =
    (r : HeadersIn) (h : HttpHeader) → (header_parser (handler s) r h).single s' ≡ r.single s'

each-Keeps :
    (handler : Slot → Handler) (s s' : Slot) (r : HeadersIn) (hs : List HttpHeader)
    → Keeps handler s s'
    → (each handler s r hs).single s' ≡ r.single s'
unfolding each
each-Keeps handler s s' r [] k = refl
each-Keeps handler s s' r (h ∷ hs) k =
    each-Keeps handler s s' (header_parser (handler s) r h) hs k ∙ k r h

unique-Keeps :
    (s s' : Slot) → (slot_index s == slot_index s') ≡ false → Keeps unique_header_line s s'
unfolding header_parser
unique-Keeps s s' ne = λ r h. rw ne refl

line-Keeps : (s s' : Slot) → (slot_index s == slot_index s') ≡ false → Keeps header_line s s'
unfolding header_parser
line-Keeps s s' ne = λ r h. elim (Bool-cases (is_some (r.single s))) [
  | inl taken ↦ rw taken refl
  | inr free ↦ rw free (rw ne refl)
]

-- Repeated header lines. Of all lines that go to one slot, `http_process_unique_header_line` keeps the last and
-- `http_process_header_line` the first, an earlier content of the slot counting as a line before them;
-- neither changes another slot.
pub each-slot :
    (s s' : Slot) (r : HeadersIn) (hs : List HttpHeader)
    → (slot_index s == slot_index s') ≡ false
    → ((each unique_header_line s r hs).single s ≡ last_of (r.single s) hs)
      × ((each header_line s r hs).single s ≡ first_of (r.single s) hs)
      × ((each unique_header_line s r hs).single s' ≡ r.single s')
      × ((each header_line s r hs).single s' ≡ r.single s')
each-slot s s' r hs ne = (
  unique_last s r hs,
  line_first s r hs,
  each-Keeps unique_header_line s s' r hs (unique-Keeps s s' ne),
  each-Keeps header_line s s' r hs (line-Keeps s s' ne),
)
