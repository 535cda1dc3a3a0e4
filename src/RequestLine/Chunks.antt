-- ===== src/RequestLine/Chunks.antt =====
-- Reading a request line in pieces: what the parser returns when more bytes arrive.
use ostrichserver.Base.{
  ℕ, ◌+◌, ◌-◌, ◌<◌, ◌≤◌, List, [], ◌∷◌, ◌++◌, Option, some, none, ◌≡◌, refl, ◌∙◌, arith, length,
  drop, get_or-append, sym, ap, drop-append_length, drop-append_of_le, length-drop, ◌⊎◌,
}
use mathlib.Core.Option
use ostrichserver.RequestLine.Types.{
  Rc, os_ok, invalid_method, invalid_09_method, State, sw_method, Request, os_again,
  invalid_request, Step, next, reread, goto_done, fail,
}
use ostrichserver.RequestLine.Method.{
  method_3, method_4, method_5, method_6, method_7, method_8, method_9, method_switch, recognise,
}
use ostrichserver.RequestLine.Parse.{step, Parsed, at_done, http_parse_request_line}
use ostrichserver.RequestLine.Run.{settle, run, http_parse_request_line-eq-run}

module _ (f g : ℕ → ℕ) (old : ℕ) where
  abbrev pub Agree : ℕ → Type 0
  Agree n = (k : ℕ) → k < n → f k ≡ g k

  method_3_congr : (n : ℕ) → Agree n → n ≡ 3 → method_3 f old ≡ method_3 g old
  unfolding method_3
  method_3_congr n h e = rw (h 0 (omega arith), h 1 (omega arith), h 2 (omega arith))

  method_4_congr : (n : ℕ) → Agree n → n ≡ 4 → method_4 f old ≡ method_4 g old
  unfolding method_4
  method_4_congr n h e =
      rw (h 0 (omega arith), h 1 (omega arith), h 2 (omega arith), h 3 (omega arith))

  method_5_congr : (n : ℕ) → Agree n → n ≡ 5 → method_5 f old ≡ method_5 g old
  unfolding method_5
  method_5_congr n h e = rw (
    h 0 (omega arith),
    h 1 (omega arith),
    h 2 (omega arith),
    h 3 (omega arith),
    h 4 (omega arith),
  )

  method_6_congr : (n : ℕ) → Agree n → n ≡ 6 → method_6 f old ≡ method_6 g old
  unfolding method_6
  method_6_congr n h e = rw (
    h 0 (omega arith),
    h 1 (omega arith),
    h 2 (omega arith),
    h 3 (omega arith),
    h 4 (omega arith),
    h 5 (omega arith),
  )

  method_7_congr : (n : ℕ) → Agree n → n ≡ 7 → method_7 f old ≡ method_7 g old
  unfolding method_7
  method_7_congr n h e = rw (
    h 0 (omega arith),
    h 1 (omega arith),
    h 2 (omega arith),
    h 3 (omega arith),
    h 4 (omega arith),
    h 5 (omega arith),
    h 6 (omega arith),
  )

  method_8_congr : (n : ℕ) → Agree n → n ≡ 8 → method_8 f old ≡ method_8 g old
  unfolding method_8
  method_8_congr n h e = rw (
    h 0 (omega arith),
    h 1 (omega arith),
    h 2 (omega arith),
    h 3 (omega arith),
    h 4 (omega arith),
    h 5 (omega arith),
    h 6 (omega arith),
    h 7 (omega arith),
  )

  method_9_congr : (n : ℕ) → Agree n → n ≡ 9 → method_9 f old ≡ method_9 g old
  unfolding method_9
  method_9_congr n h e = rw (
    h 0 (omega arith),
    h 1 (omega arith),
    h 2 (omega arith),
    h 3 (omega arith),
    h 4 (omega arith),
    h 5 (omega arith),
    h 6 (omega arith),
    h 7 (omega arith),
    h 8 (omega arith),
  )

  -- The switch reads the bytes of the method only.
  pub method_switch_congr : (n : ℕ) → Agree n → method_switch f n old ≡ method_switch g n old
  unfolding method_switch
  method_switch_congr n h = ground (
    arith,
    method_3_congr n h,
    method_4_congr n h,
    method_5_congr n h,
    method_6_congr n h,
    method_7_congr n h,
    method_8_congr n h,
    method_9_congr n h,
  )

recognise-append :
    (xs ys : List ℕ) (m : Option ℕ) (p old : ℕ)
    → p ≤ length xs
    → recognise (xs ++ ys) m p old ≡ recognise xs m p old
unfolding recognise
recognise-append xs ys none p old h = refl
recognise-append xs ys (some m) p old h =
    method_switch_congr _ _ old (p - m) (λ k q. get_or-append xs ys (m + k) 0 (omega arith))

step-append :
    (xs ys : List ℕ) (sw : State) (r : Request) (p ch : ℕ)
    → p ≤ length xs
    → step (xs ++ ys) sw r p ch ≡ step xs sw r p ch
unfolding step
step-append xs ys sw_method r p ch h = rw (recognise-append xs ys r.request_start p r.method h)
step-append xs ys _ r p ch h = refl

settle-append :
    (xs ys : List ℕ) (sw : State) (r : Request) (p ch : ℕ)
    → p ≤ length xs
    → settle (xs ++ ys) sw r p ch ≡ settle xs sw r p ch
unfolding settle
settle-append xs ys sw r p ch h = go (step xs sw r p ch) refl
  where
    go : (s : Step) → step xs sw r p ch ≡ s → settle (xs ++ ys) sw r p ch ≡ settle xs sw r p ch
    go (reread sw' r') e =
        rw (step-append xs ys sw r p ch h, e, settle) (step-append xs ys sw' r' p ch h)
    go (next sw' r') e = rw (step-append xs ys sw r p ch h, e, settle)
    go (goto_done r') e = rw (step-append xs ys sw r p ch h, e, settle)
    go (fail rc r') e = rw (step-append xs ys sw r p ch h, e, settle)

drop_at_end : (p : ℕ) (xs ys : List ℕ) → p ≡ length xs → drop p (xs ++ ys) ≡ ys
drop_at_end p xs ys e = rw e (drop-append_length xs ys)

-- What a caller may rely on: an error of the loop leaves `r->state` and `b->pos` as they were at
-- the call, so only its code and the rest of the request count.
abbrev pub outcome : Parsed → Rc × Request × Option (State × ℕ)
outcome (os_ok, sw, r, p) = (os_ok, r, some (sw, p))
outcome (os_again, sw, r, p) = (os_again, r, some (sw, p))
outcome (invalid_method, sw, r, p) = (invalid_method, r, none)
outcome (invalid_request, sw, r, p) = (invalid_request, r, none)
outcome (invalid_09_method, sw, r, p) = (invalid_09_method, r, some (sw, p))

-- After a first call returned, the outcome when `ys` has arrived behind the first `xs`: a call
-- that asked for more is made again, any other result stands.
abbrev pub go_on : List ℕ → Parsed → Rc × Request × Option (State × ℕ)
go_on buf (os_again, sw, r, p) = outcome (run buf sw p sw r p (drop p buf))
go_on buf (os_ok, sw, r, p) = outcome (os_ok, sw, r, p)
go_on buf (invalid_method, sw, r, p) = outcome (invalid_method, sw, r, p)
go_on buf (invalid_request, sw, r, p) = outcome (invalid_request, sw, r, p)
go_on buf (invalid_09_method, sw, r, p) = outcome (invalid_09_method, sw, r, p)

-- The two codes with which the loop returns.
abbrev Refuses : Rc → Type 0
Refuses rc = (rc ≡ invalid_method) ⊎ (rc ≡ invalid_request)

abbrev FailsWell : Step → Type 0
FailsWell (fail rc r) = Refuses rc
FailsWell (next sw r) = Unit
FailsWell (reread sw r) = Unit
FailsWell (goto_done r) = Unit

step-FailsWell :
    (buf : List ℕ) (sw : State) (r : Request) (p ch : ℕ) → FailsWell (step buf sw r p ch)
unfolding step
step-FailsWell buf sw_method r p ch = ground arith
step-FailsWell buf _ r p ch = ground arith

settle-FailsWell :
    (buf : List ℕ) (sw : State) (r : Request) (p ch : ℕ) → FailsWell (settle buf sw r p ch)
unfolding settle
settle-FailsWell buf sw r p ch = go (step buf sw r p ch) refl (step-FailsWell buf sw r p ch)
  where
    go : (s : Step) → step buf sw r p ch ≡ s → FailsWell s → FailsWell (settle buf sw r p ch)
    go (reread sw' r') e w = rw (e, settle) (step-FailsWell buf sw' r' p ch)
    go (next sw' r') e w = rw (e, settle) tt
    go (goto_done r') e w = rw (e, settle) tt
    go (fail rc r') e w = rw (e, settle) w

outcome-Refuses :
    (rc : Rc) (r : Request) (a b : State) (p q : ℕ)
    → Refuses rc
    → outcome (rc, a, r, p) ≡ outcome (rc, b, r, q)
outcome-Refuses invalid_method r a b p q h = refl
outcome-Refuses rc r a b p q h = ground arith

-- The outcome does not depend on the state and the place at the call.
outcome-run :
    (buf : List ℕ) (a b : State) (i j : ℕ) (sw : State) (r : Request) (p : ℕ) (rest : List ℕ)
    → outcome (run buf a i sw r p rest) ≡ outcome (run buf b j sw r p rest)
unfolding run
outcome-run buf a b i j sw r p [] = refl
outcome-run buf a b i j sw r p (ch ∷ rest) =
    go (settle buf sw r p ch) refl (settle-FailsWell buf sw r p ch)
      (λ sw' r'. outcome-run buf a b i j sw' r' (p + 1) rest)
  where
    go :
        (s : Step)
        → settle buf sw r p ch ≡ s
        → FailsWell s
        → ((sw' : State) (r' : Request)
            → outcome (run buf a i sw' r' (p + 1) rest) ≡ outcome (run buf b j sw' r' (p + 1) rest))
        → outcome (run buf a i sw r p (ch ∷ rest)) ≡ outcome (run buf b j sw r p (ch ∷ rest))
    go (next sw' r') e w ih = rw (e, run) (ih sw' r')
    go (reread sw' r') e w ih = rw (e, run)
    go (goto_done r') e w ih = rw (e, run)
    go (fail rc r') e w ih = rw (e, run) (outcome-Refuses rc r' a b i j w)

at_done-go_on :
    (buf : List ℕ) (r : Request) (p : ℕ) → outcome (at_done r p) ≡ go_on buf (at_done r p)
unfolding at_done
at_done-go_on buf r p = ground arith

Refuses-go_on :
    (buf : List ℕ) (rc : Rc) (r : Request) (a : State) (p : ℕ)
    → Refuses rc
    → outcome (rc, a, r, p) ≡ go_on buf (rc, a, r, p)
Refuses-go_on buf invalid_method r a p h = refl
Refuses-go_on buf rc r a p h = ground arith

run-append :
    (xs ys : List ℕ) (a : State) (i : ℕ) (sw : State) (r : Request) (p : ℕ) (rest : List ℕ)
    → p + length rest ≡ length xs
    → outcome (run (xs ++ ys) a i sw r p (rest ++ ys)) ≡ go_on (xs ++ ys) (run xs a i sw r p rest)
unfolding run
run-append xs ys a i sw r p [] h =
    rw (drop_at_end p xs ys (omega arith)) (outcome-run (xs ++ ys) a sw i p sw r p ys)
run-append xs ys a i sw r p (ch ∷ rest) h =
    go (settle xs sw r p ch) refl (settle-FailsWell xs sw r p ch)
      (λ sw' r'. run-append xs ys a i sw' r' (p + 1) rest (omega arith))
  where
    same : settle (xs ++ ys) sw r p ch ≡ settle xs sw r p ch
    same = settle-append xs ys sw r p ch (omega arith)

    go :
        (s : Step)
        → settle xs sw r p ch ≡ s
        → FailsWell s
        → ((sw' : State) (r' : Request)
            → outcome (run (xs ++ ys) a i sw' r' (p + 1) (rest ++ ys))
              ≡ go_on (xs ++ ys) (run xs a i sw' r' (p + 1) rest))
        → outcome (run (xs ++ ys) a i sw r p (ch ∷ rest ++ ys))
          ≡ go_on (xs ++ ys) (run xs a i sw r p (ch ∷ rest))
    go (next sw' r') e w ih = rw (same, e, run) (ih sw' r')
    go (reread sw' r') e w ih = rw (same, e, run)
    go (goto_done r') e w ih = rw (same, e, run) (at_done-go_on (xs ++ ys) r' p)
    go (fail rc r') e w ih = rw (same, e, run) (Refuses-go_on (xs ++ ys) rc r' a i w)

-- A call that asked for more is made again on the longer buffer; any other result stands.
abbrev pub call_again : List ℕ → Parsed → Option (Rc × Request × Option (State × ℕ))
call_again buf (os_again, sw, r, p) =
    Option.map outcome (http_parse_request_line sw r (record { bytes = buf; pos = p }))
call_again buf (os_ok, sw, r, p) = some (outcome (os_ok, sw, r, p))
call_again buf (invalid_method, sw, r, p) = some (outcome (invalid_method, sw, r, p))
call_again buf (invalid_request, sw, r, p) = some (outcome (invalid_request, sw, r, p))
call_again buf (invalid_09_method, sw, r, p) = some (outcome (invalid_09_method, sw, r, p))

call_again-go_on : (buf : List ℕ) (x : Parsed) → call_again buf x ≡ some (go_on buf x)
call_again-go_on buf (os_again, sw, r, p) =
    rw (http_parse_request_line-eq-run sw r (record { bytes = buf; pos = p }))
call_again-go_on buf (os_ok, sw, r, p) = refl
call_again-go_on buf (invalid_method, sw, r, p) = refl
call_again-go_on buf (invalid_request, sw, r, p) = refl
call_again-go_on buf (invalid_09_method, sw, r, p) = refl

-- Parsing does not depend on how the bytes arrive. If a call on the buffer `xs` returned `first`,
-- then the call that finds `ys` behind `xs` has the outcome of `first`, or, if `first` asked for
-- more bytes, the outcome of the second call that goes on from `first` in the longer buffer.
pub parse-append :
    (xs ys : List ℕ) (sw : State) (r : Request) (pos : ℕ) {first : Parsed}
    → pos ≤ length xs
    → http_parse_request_line sw r (record { bytes = xs; pos = pos }) ≡ some first
    → Option.map outcome (http_parse_request_line sw r (record { bytes = xs ++ ys; pos = pos }))
      ≡ call_again (xs ++ ys) first
parse-append xs ys sw r pos {first} h e =
    let whole = http_parse_request_line-eq-run sw r (record { bytes = xs ++ ys; pos = pos }) in
    let part = http_parse_request_line-eq-run sw r (record { bytes = xs; pos = pos }) in
    let same : run xs sw pos sw r pos (drop pos xs) ≡ first = cc (part, e) in
    rw (whole, drop-append_of_le pos xs ys h)
      (ap some (
          run-append xs ys sw pos sw r pos (drop pos xs) (omega (arith, length-drop pos xs))
          ∙ ap (go_on (xs ++ ys)) same)
        ∙ sym (call_again-go_on (xs ++ ys) first))
