-- ===== src/Lifecycle/OneParse.antt =====
-- The loop of `http_process_request_line` against one call of the parser on all bytes received.
use mathlib.Core.Option
use mathlib.Core.List.{append_assoc}
use ostrichserver.Base.{
  ℕ, zero, suc, ◌+◌, ◌-◌, ◌<◌, ◌≤◌, Bool, false, List, [], ◌∷◌, ◌++◌, Option, none, some, ◌≡◌, ◌⊎◌,
  inl, inr, refl, sym, ap, subst, ◌∙◌, arith, ltb, if◌then◌else◌, length, take, drop, length-append,
}
use ostrichserver.RequestLine.Types.{
  State, sw_start, Request, new_request, os_ok, os_again, invalid_method, invalid_request,
  invalid_09_method,
}
use ostrichserver.RequestLine.Parse.{Parsed, http_parse_request_line}
use ostrichserver.RequestLine.Run.{http_parse_request_line-eq-run}
use ostrichserver.RequestLine.Chunks.{outcome, parse-append}
use ostrichserver.RequestLine.Bounds.{Promises, parse-Promises, new_request-IsParsing}
use ostrichserver.Lifecycle.Session.{Socket, Session, buffer}
use ostrichserver.Lifecycle.Handlers.{
  Done, refused, Env, ReadRc, ready, stops, http_read_request_header, with_parsed, on_line,
  on_parsed, on_read, on_event, line_loop, line_fuel, http_process_request_line,
}
use ostrichserver.Lifecycle.Reading.{
  contents, IsAlive, Balanced, WhyStops, ReadEnd, Moves, read-Moves,
}
use ostrichserver.Lifecycle.Closing.{on_line-Answers}

-- One call of the parser on a new request and a buffer with `bytes`.
abbrev pub one_parse : List ℕ → Option Parsed
one_parse bytes = http_parse_request_line sw_start new_request (record { bytes = bytes; pos = 0 })

-- A session whose request line is not complete: the bytes before `pos` are parsed, with what one call on
-- these bytes gives.
pub record IsLine (s : Session) : Type 0 where
  pub alive : IsAlive s
  pub before : s.pos ≤ length s.bytes
  pub fits : length s.bytes ≤ 1024
  pub parsed : one_parse (take s.pos s.bytes) ≡ some (os_again, s.state, s.request, s.pos)

take-append-drop : (n : ℕ) (xs : List ℕ) → take n xs ++ drop n xs ≡ xs
take-append-drop zero xs = refl
take-append-drop (suc n) [] = refl
take-append-drop (suc n) (x ∷ xs) = ap (◌∷◌ x) (take-append-drop n xs)

take_all : (n : ℕ) (xs : List ℕ) → n ≡ length xs → take n xs ≡ xs
take_all zero [] e = refl
take_all zero (x ∷ xs) e = absurd (omega arith)
take_all (suc n) [] e = refl
take_all (suc n) (x ∷ xs) e = ap (◌∷◌ x) (take_all n xs (omega arith))

length-take : (n : ℕ) (xs : List ℕ) → n ≤ length xs → length (take n xs) ≡ n
length-take zero xs h = refl
length-take (suc n) [] h = absurd (omega arith)
length-take (suc n) (x ∷ xs) h = ap suc (length-take n xs (omega arith))

take-append_of_le : (n : ℕ) (xs ys : List ℕ) → n ≤ length xs → take n (xs ++ ys) ≡ take n xs
take-append_of_le zero xs ys h = refl
take-append_of_le (suc n) [] ys h = absurd (omega arith)
take-append_of_le (suc n) (x ∷ xs) ys h = ap (◌∷◌ x) (take-append_of_le n xs ys (omega arith))

-- The call of the parser in the loop has the outcome of one call on all bytes.
parse_once :
    (s : Session)
    → IsLine s
    → (x : Parsed) × (http_parse_request_line s.state s.request (buffer s) ≡ some x)
      × (Option.map outcome (one_parse s.bytes) ≡ some (outcome x))
parse_once s v =
    let found = http_parse_request_line-eq-run s.state s.request (buffer s) in
    let whole =
      parse-append (take s.pos s.bytes) (drop s.pos s.bytes) sw_start new_request 0 (omega arith)
        v.parsed in
    (_, found, (rw (take-append-drop s.pos s.bytes) at whole) ∙ ap (Option.map outcome) found)

again_once :
    (o : Option Parsed) (sw : State) (r : Request) (p : ℕ)
    → Option.map outcome o ≡ some (outcome (os_again, sw, r, p))
    → o ≡ some (os_again, sw, r, p)
again_once none sw r p e = cc
again_once (some (os_again, sw', r', p')) sw r p e = cc
again_once (some (os_ok, sw', r', p')) sw r p e = cc
again_once (some (invalid_method, sw', r', p')) sw r p e = cc
again_once (some (invalid_request, sw', r', p')) sw r p e = cc
again_once (some (invalid_09_method, sw', r', p')) sw r p e = cc

-- When the parser asks for more bytes, it has read them all.
again_at_end :
    (bytes : List ℕ) (sw : State) (r : Request) (p : ℕ)
    → one_parse bytes ≡ some (os_again, sw, r, p)
    → p ≡ length bytes
again_at_end bytes sw r p e =
    let (x, found, promised) =
      parse-Promises sw_start new_request (record { bytes = bytes; pos = 0 }) new_request-IsParsing
        (omega arith) in
    let same : x ≡ (os_again, sw, r, p) = cc in (subst (Promises (length bytes)) same promised).1

again-IsLine :
    (s : Session) (sw : State) (r : Request) (p : ℕ)
    → IsLine s
    → one_parse s.bytes ≡ some (os_again, sw, r, p)
    → IsLine (with_parsed s sw r p) × (p ≡ length s.bytes)
again-IsLine s sw r p v e =
    let end = again_at_end s.bytes sw r p e in
    (
      record {
        alive = record { counted = v.alive.counted; live = v.alive.live; opened = v.alive.opened };
        before = omega arith;
        fits = v.fits;
        parsed = rw (take_all p s.bytes end) e;
      },
      end,
    )

-- How the answer to a line that is read follows from what the parser gave.
abbrev pub ActsOn : Env → Session → Done → Parsed → Type 0
ActsOn env s done (os_ok, sw, r, p) =
    (read : Session) × IsAlive read
    × (read.bytes ≡ s.bytes)
    × (read.request ≡ r)
    × (read.pos ≡ p)
    × (on_line env read ≡ (s, done))
ActsOn env s done (os_again, sw, r, p) = ⊥
ActsOn env s done (invalid_method, sw, r, p) = done ≡ refused
ActsOn env s done (invalid_request, sw, r, p) = done ≡ refused
ActsOn env s done (invalid_09_method, sw, r, p) = done ≡ refused

-- The line is complete or wrong: the answer is to what one call of the parser on all bytes gives.
abbrev pub Answered : Env → Session → Done → Type 0
Answered env s done =
    (x : Parsed) × (Option.map outcome (one_parse s.bytes) ≡ some (outcome x)) × ActsOn env s done x

-- The line is not complete: one call of the parser on all bytes asks for more, and reading ended the call.
abbrev pub Unfinished : Env → Session → Done → Type 0
Unfinished env s done =
    (one_parse s.bytes ≡ some (os_again, s.state, s.request, s.pos))
    × (s.pos ≡ length s.bytes)
    × WhyStops env s done

-- What holds when a call on `s` ends.
record Served (env : Env) (s : Session) (socket : Socket) (s' : Session) (done : Done)
    (socket' : Socket) : Type 0 where
  moves : Moves s s' socket socket'
  balanced : Balanced s' done
  ended : Unfinished env s' done ⊎ Answered env s' done

Moves-trans : {s t u : Session} {a b c : Socket} → Moves s t a b → Moves t u b c → Moves s u a c
Moves-trans {s} {t} {u} {a} {b} {c} v w = record {
  moved = v.moved ++ w.moved;
  appended =
      w.appended
      ∙ ap (λ (ys : List ℕ). ys ++ w.moved) v.appended
      ∙ append_assoc s.bytes v.moved w.moved;
  taken =
      v.taken
      ∙ ap (λ (ys : List ℕ). v.moved ++ ys) w.taken
      ∙ sym (append_assoc v.moved w.moved (contents c));
  fits = w.fits;
}

-- Rounds of the loop that a session may still take.
abbrev rounds_left : Session → ℕ
rounds_left s = 1024 - length s.bytes + (if ltb s.pos (length s.bytes) then 1 else 0)

-- Bytes that arrive behind those parsed leave the line as it is.
more-IsLine :
    (s s' : Session)
    → IsLine s
    → (ys : List ℕ) → s'.bytes ≡ s.bytes ++ ys
    → length s'.bytes ≤ 1024
    → IsAlive s'
    → (s'.state ≡ s.state) × (s'.request ≡ s.request) × (s'.pos ≡ s.pos)
    → IsLine s'
more-IsLine s s' v ys longer fits alive (e, f, g) = record {
  alive = alive;
  before = omega (arith, v.before, g, ap length longer, length-append s.bytes ys);
  fits = fits;
  parsed =
      let same : take s'.pos s'.bytes ≡ take s.pos s.bytes =
        rw (g, longer) (take-append_of_le s.pos s.bytes ys v.before) in
      let same_parse : one_parse (take s'.pos s'.bytes) ≡ one_parse (take s.pos s.bytes) =
        ap one_parse same in
      let same_state : some (os_again, s.state, s.request, s.pos)
          ≡ some (os_again, s'.state, s'.request, s'.pos) =
        cc in
      same_parse ∙ v.parsed ∙ same_state;
}

-- A call of the loop ends, and this holds of its end.
abbrev Serves : ℕ → Env → Session → Socket → Type 0
Serves fuel env s socket =
    (s' : Session) × (done : Done) × (socket' : Socket) × (line_loop fuel env s socket
      ≡ some (s', done, socket'))
    × Served env s socket s' done socket'

ok-Served :
    (env : Env) (s t : Session) (socket socket' : Socket) (sw : State) (r : Request) (p : ℕ)
    → IsLine t
    → Moves s t socket socket'
    → Option.map outcome (one_parse t.bytes) ≡ some (outcome (os_ok, sw, r, p))
    → Served env s socket
        (on_line env (with_parsed t sw r p)).0
        (on_line env (with_parsed t sw r p)).1
        socket'
ok-Served env s t socket socket' sw r p v moves parsed =
    let read = with_parsed t sw r p in
    let alive : IsAlive read = record {
      counted = v.alive.counted;
      live = v.alive.live;
      opened = v.alive.opened;
    } in
    let (kept, balanced) = on_line-Answers env read alive in
    record {
      moves = record {
        moved = moves.moved;
        appended = kept ∙ moves.appended;
        taken = moves.taken;
        fits = rw kept moves.fits;
      };
      balanced = balanced;
      ended = inr ((os_ok, sw, r, p), rw kept parsed, (read, alive, sym kept, refl, refl, refl));
    }

refused-Served :
    (env : Env) (s t : Session) (socket socket' : Socket) (x : Parsed) (sw : State) (r : Request)
    (p : ℕ)
    → IsLine t
    → Moves s t socket socket'
    → Option.map outcome (one_parse t.bytes) ≡ some (outcome x)
    → ActsOn env (with_parsed t sw r p) refused x
    → Served env s socket (with_parsed t sw r p) refused socket'
refused-Served env s t socket socket' x sw r p v moves parsed acts = record {
  moves = record {
    moved = moves.moved;
    appended = moves.appended;
    taken = moves.taken;
    fits = moves.fits;
  };
  balanced = record { counted = v.alive.counted; live = v.alive.live; opened = v.alive.opened };
  ended = inr (x, parsed, acts);
}

stops-Served :
    (env : Env) (s t : Session) (socket socket' : Socket) (done : Done)
    → IsLine s
    → Moves s t socket socket'
    → ReadEnd env s t (stops done)
    → Served env s socket t done socket'
stops-Served env s t socket socket' done v moves (same, end, balanced, why) = record {
  moves = moves;
  balanced = balanced;
  ended = inl (
    let whole : one_parse s.bytes ≡ some (os_again, s.state, s.request, s.pos) =
          rw (take_all s.pos s.bytes end) at v.parsed in
        let kept : one_parse t.bytes ≡ one_parse s.bytes = ap one_parse same.bytes in
        let same_state : some (os_again, s.state, s.request, s.pos)
            ≡ some (os_again, t.state, t.request, t.pos) =
          cc (same.state, same.request, same.pos) in
        kept ∙ whole ∙ same_state,
    omega (arith, same.pos, ap length same.bytes),
    why,
  );
}

-- a round in which the parser was called
parsed_Serves :
    (fuel : ℕ) (env : Env) (s t : Session) (socket socket' : Socket)
    → http_read_request_header env s socket ≡ (t, ready, socket')
    → IsLine t
    → Moves s t socket socket'
    → ((u : Session)
        → IsLine u
        → u.bytes ≡ t.bytes
        → u.pos ≡ length u.bytes
        → Serves fuel env u socket')
    → (x : Parsed) → http_parse_request_line t.state t.request (buffer t) ≡ some x
    → Option.map outcome (one_parse t.bytes) ≡ some (outcome x)
    → Serves (suc fuel) env s socket
unfolding line_loop
parsed_Serves fuel env s t socket socket' e v moves next (os_ok, sw, r, p) f parsed = (
  _,
  _,
  socket',
  ap (on_read (line_loop fuel env) env) e ∙ ap (on_parsed (line_loop fuel env) env t socket') f,
  ok-Served env s t socket socket' sw r p v moves parsed,
)
parsed_Serves fuel env s t socket socket' e v moves next (os_again, sw, r, p) f parsed =
    let (v', end) = again-IsLine t sw r p v (again_once (one_parse t.bytes) sw r p parsed) in
    let (s', done, last, g, served) = next (with_parsed t sw r p) v' refl end in
    (
      s',
      done,
      last,
      ap (on_read (line_loop fuel env) env) e
          ∙ ap (on_parsed (line_loop fuel env) env t socket') f
          ∙ g,
      record {
        moves = Moves-trans moves (record {
          moved = served.moves.moved;
          appended = served.moves.appended;
          taken = served.moves.taken;
          fits = served.moves.fits;
        });
        balanced = served.balanced;
        ended = served.ended;
      },
    )
parsed_Serves fuel env s t socket socket' e v moves next (invalid_method, sw, r, p) f parsed = (
  _,
  _,
  socket',
  ap (on_read (line_loop fuel env) env) e ∙ ap (on_parsed (line_loop fuel env) env t socket') f,
  refused-Served env s t socket socket' (invalid_method, sw, r, p) sw r p v moves parsed refl,
)
parsed_Serves fuel env s t socket socket' e v moves next (invalid_request, sw, r, p) f parsed = (
  _,
  _,
  socket',
  ap (on_read (line_loop fuel env) env) e ∙ ap (on_parsed (line_loop fuel env) env t socket') f,
  refused-Served env s t socket socket' (invalid_request, sw, r, p) sw r p v moves parsed refl,
)
parsed_Serves fuel env s t socket socket' e v moves next (invalid_09_method, sw, r, p) f parsed = (
  _,
  _,
  socket',
  ap (on_read (line_loop fuel env) env) e ∙ ap (on_parsed (line_loop fuel env) env t socket') f,
  refused-Served env s t socket socket' (invalid_09_method, sw, r, p) sw r p v moves parsed refl,
)

rounds_fall :
    (fuel : ℕ) (s t u : Session)
    → rounds_left s < suc fuel
    → length s.bytes ≤ length t.bytes
    → length t.bytes ≤ 1024
    → (s.pos < length s.bytes) ⊎ (length s.bytes < length t.bytes)
    → length u.bytes ≡ length t.bytes
    → u.pos ≡ length u.bytes
    → rounds_left u < fuel
rounds_fall fuel s t u room longer fits (inl here) same end = ground arith
rounds_fall fuel s t u room longer fits (inr grown) same end = ground arith

round_Serves :
    (fuel : ℕ) (env : Env) (s : Session) (socket : Socket)
    → IsLine s
    → rounds_left s < suc fuel
    → ((u : Session) (c : Socket) → IsLine u → rounds_left u < fuel → Serves fuel env u c)
    → (t : Session) (rc : ReadRc) (c : Socket) → http_read_request_header env s socket ≡ (t, rc, c)
    → Moves s t socket c
    → ReadEnd env s t rc
    → Serves (suc fuel) env s socket
unfolding line_loop
round_Serves fuel env s socket v room next t (stops done) c e moves end = (
  t,
  done,
  c,
  ap (on_read (line_loop fuel env) env) e,
  stops-Served env s t socket c done v moves end,
)
round_Serves fuel env s socket v room next t ready c e moves (alive, f, g, h, below, more) =
    let line = more-IsLine s t v moves.moved moves.appended moves.fits alive (f, g, h) in
    let longer : length s.bytes ≤ length t.bytes =
      omega (arith, ap length moves.appended, length-append s.bytes moves.moved) in
    let (x, found, once) = parse_once t line in
    parsed_Serves fuel env s t socket c e line moves
      (λ u w same end.
        next u c w (rounds_fall fuel s t u room longer moves.fits more (ap length same) end))
      x found once

line_loop-Serves :
    (fuel : ℕ) (env : Env) (s : Session) (socket : Socket)
    → IsLine s
    → rounds_left s < fuel
    → Serves fuel env s socket
line_loop-Serves zero env s socket v room = absurd (omega arith)
line_loop-Serves (suc fuel) env s socket v room =
    let (moves, end) = read-Moves env s socket v.alive v.before v.fits in
    round_Serves fuel env s socket v room (λ u c w less. line_loop-Serves fuel env u c w less) _ _ _
      refl moves end

-- What holds when a call of the handler ends: the bytes that it has moved from the socket stand behind
-- those of the buffer, within its bounds; the count, the request and the connection are in step; and the
-- line is unfinished or answered.
abbrev pub Ends : Env → Session → Socket → Session → Done → Socket → Type 0
Ends env s socket s' done socket' =
    Moves s s' socket socket' × Balanced s' done × (Unfinished env s' done ⊎ Answered env s' done)

-- `http_process_request_line`, called on an unfinished line without a time-out, always returns, however
-- the bytes arrive, are cut up or interrupted. It loses none, reads at most the 1024 bytes that the buffer
-- holds, and the parser, called as often as it may be, has come to what one call on all bytes received
-- comes to: either that asks for more, and the handler waits or ends because of the socket, or its result
-- is what the handler answers to. The request is freed and the connection closed together, exactly when
-- the request was to be closed.
pub process_line-Ends :
    (env : Env) (s : Session) (socket : Socket)
    → IsLine s
    → s.ev_timedout ≡ false
    → (s' : Session) × (done : Done) × (socket' : Socket) × (http_process_request_line env s socket
        ≡ some (s', done, socket'))
      × Ends env s socket s' done socket'
unfolding http_process_request_line
process_line-Ends env s socket v calm =
    let (s', done, socket', e, served) = line_loop-Serves line_fuel env s socket v (ground arith) in
    (
      s',
      done,
      socket',
      ap (λ (late : Bool). on_event late env s socket) calm ∙ e,
      (served.moves, served.balanced, served.ended),
    )
