-- ===== src/Lifecycle/Waiting.antt =====
-- The first event of a connection: `http_wait_request_handler`.
use mathlib.Core.List.{append_assoc}
use ostrichserver.Base.{
  ℕ, ◌≤◌, true, false, List, [], ◌∷◌, ◌++◌, some, ◌≡◌, ◌⊎◌, inl, inr, refl, sym, ◌∙◌, ap, arith,
  length, ◌+◌, Bool-cases,
}
use ostrichserver.RequestLine.Types.{sw_start, new_request, os_again}
use ostrichserver.RequestLine.Parse.{http_parse_request_line}
use ostrichserver.Lifecycle.Session.{
  Socket, Received, got, recv_again, recv_err, os_recv, Session, process_line, http_create_request,
}
use ostrichserver.Lifecycle.Handlers.{
  Done, waits, closed, refused, processed, to_headers, Env, Result, after_first_recv,
  http_wait_request_handler,
}
use ostrichserver.Lifecycle.Reading.{contents, given, os_recv_bytes, Balanced}
use ostrichserver.Lifecycle.OneParse.{IsLine, one_parse, Unfinished, Answered, process_line-Ends}

-- No request was made: nothing is there yet, or the connection is closed.
abbrev pub NoRequest : Env → Session → Session → Done → Type 0
NoRequest env s s' waits = (env.polled ≡ true) × (s'.is_open ≡ s.is_open) × (s'.live ≡ s.live)
NoRequest env s s' closed = (s'.is_open ≡ false) × (s'.live ≡ s.live)
NoRequest env s s' refused = ⊥
NoRequest env s s' processed = ⊥
NoRequest env s s' to_headers = ⊥

-- A request was made of the first bytes, and what is left on the socket is behind those received.
pub record Started (env : Env) (socket : Socket) (s' : Session) (done : Done) (socket' : Socket)
    : Type 0 where
  pub received : List ℕ
  pub in_buffer : s'.bytes ≡ received
  pub taken : contents socket ≡ received ++ contents socket'
  pub fits : length received ≤ 1024
  pub balanced : Balanced s' done
  pub ended : Unfinished env s' done ⊎ Answered env s' done

-- the session with which `http_process_request_line` is called
abbrev fresh_line : Session → ℕ → List ℕ → Session
fresh_line s x xs =
    let s' = record s { bytes = x ∷ xs; pos = 0; received = s.received + length (x ∷ xs) } in
    record (http_create_request s') { phase = process_line }

empty_parse : one_parse [] ≡ some (os_again, sw_start, new_request, 0)
unfolding http_parse_request_line
empty_parse = refl

fresh_line-IsLine :
    (s : Session) (x : ℕ) (xs : List ℕ)
    → s.is_open ≡ true
    → length (x ∷ xs) ≤ 1024
    → IsLine (fresh_line s x xs)
fresh_line-IsLine s x xs opened fits = record {
  alive = record { counted = refl; live = refl; opened = opened };
  before = omega arith;
  fits = fits;
  parsed = empty_parse;
}

-- How the handler ends: with no request, or with one.
abbrev pub Waited : Env → Session → Socket → Session → Done → Socket → Type 0
Waited env s socket s' done socket' = NoRequest env s s' done ⊎ Started env socket s' done socket'

abbrev WaitEnds : Env → Session → Socket → Result → Type 0
WaitEnds env s socket result =
    (s' : Session) × (done : Done) × (socket' : Socket) × (result ≡ some (s', done, socket'))
    × Waited env s socket s' done socket'

after_first_recv-WaitEnds :
    (env : Env) (s : Session) (socket : Socket) (r : Received) (c : Socket)
    → s.is_open ≡ true
    → s.ev_timedout ≡ false
    → contents socket ≡ given r ++ contents c
    → length (given r) ≤ 1024
    → WaitEnds env s socket (after_first_recv env (record s { bytes = []; pos = 0 }) r c)
unfolding after_first_recv
after_first_recv-WaitEnds env s socket recv_err c opened calm kept small =
    (_, closed, c, refl, inl (refl, refl))
after_first_recv-WaitEnds env s socket (got []) c opened calm kept small =
    (_, closed, c, refl, inl (refl, refl))
after_first_recv-WaitEnds env s socket recv_again c opened calm kept small =
    elim (Bool-cases env.polled) [
      | inl polled ↦
          (record s { bytes = []; pos = 0 }, waits, c, simp polled, inl (polled, refl, refl))
      | inr refuses ↦ (
        record s { bytes = []; pos = 0; is_open = false },
        closed,
        c,
        simp refuses,
        inl (refl, refl),
      )
    ]
after_first_recv-WaitEnds env s socket (got (x ∷ xs)) c opened calm kept small =
    let (s', done, last, e, (moves, balanced, ended)) =
      process_line-Ends env (fresh_line s x xs) c (fresh_line-IsLine s x xs opened small) calm in
    (
      s',
      done,
      last,
      e,
      inr (record {
        received = x ∷ xs ++ moves.moved;
        in_buffer = moves.appended;
        taken =
            kept
            ∙ ap (λ (ys : List ℕ). x ∷ xs ++ ys) moves.taken
            ∙ sym (append_assoc (x ∷ xs) moves.moved (contents last));
        fits = omega (arith, ap length moves.appended, moves.fits);
        balanced = balanced;
        ended = ended;
      }),
    )

-- `http_wait_request_handler` on an accepted connection always returns. Either no request was made, and
-- the connection waits or is closed; or the first bytes made a request, all bytes taken from the socket
-- stand in the buffer of 1024 bytes in their order, and the handler has come to what one call of the
-- parser on them comes to: the line is unfinished, or its result is what is answered to. Then the
-- request is freed and the connection closed together.
pub wait_request-Waited :
    (env : Env) (s : Session) (socket : Socket)
    → s.is_open ≡ true
    → s.ev_timedout ≡ false
    → (s' : Session) × (done : Done) × (socket' : Socket) × (http_wait_request_handler env s socket
        ≡ some (s', done, socket'))
      × Waited env s socket s' done socket'
unfolding http_wait_request_handler
wait_request-Waited env s socket opened calm = elim (Bool-cases env.start_allocated) [
  | inr refuses ↦ (record s { is_open = false }, closed, socket, simp refuses, inl (refl, refl))
  | inl there ↦
      let (kept, small) = os_recv_bytes 1024 socket in
      let (s', done, last, e, w) =
        after_first_recv-WaitEnds env s socket (os_recv 1024 socket).0 (os_recv 1024 socket).1
          opened calm kept small in
      (s', done, last, simp there e, w)
]
