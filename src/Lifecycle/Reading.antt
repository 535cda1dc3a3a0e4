-- ===== src/Lifecycle/Reading.antt =====
-- What `http_read_request_header` reads, and what it leaves on the socket.
use ostrichserver.Base.{
  ℕ, zero, suc, ◌+◌, ◌-◌, ◌<◌, ◌≤◌, true, false, List, [], ◌∷◌, ◌++◌, ◌≡◌, ◌⊎◌, inl, inr, refl, sym,
  ap, ◌∙◌, arith, leb, ltb, length, take, drop, Bool-cases, length-append,
}
use mathlib.Core.List.{append-nil, append_assoc}
use ostrichserver.Lifecycle.Session.{
  Socket, arrived, not_ready, interrupted, failed, Received, got, recv_again, recv_err, os_recv,
  Session, http_close_request,
}
use ostrichserver.Lifecycle.Handlers.{
  Done, waits, closed, refused, processed, to_headers, Env, ReadRc, ready, stops, after_recv,
  http_read_request_header,
}

-- the bytes that are still to be read from a socket
abbrev pub contents : Socket → List ℕ
contents [] = []
contents (arrived xs ∷ socket) = xs ++ contents socket
contents (not_ready ∷ socket) = contents socket
contents (interrupted ∷ socket) = contents socket
contents (failed ∷ socket) = contents socket

-- the bytes that `os_recv` gave
abbrev pub given : Received → List ℕ
given (got xs) = xs
given recv_again = []
given recv_err = []

take-append-drop : (n : ℕ) (xs : List ℕ) → take n xs ++ drop n xs ≡ xs
take-append-drop zero xs = refl
take-append-drop (suc n) [] = refl
take-append-drop (suc n) (x ∷ xs) = ap (◌∷◌ x) (take-append-drop n xs)

length-take : (n : ℕ) (xs : List ℕ) → length (take n xs) ≤ n
length-take zero xs = omega arith
length-take (suc n) [] = omega arith
length-take (suc n) (x ∷ xs) = omega (arith, length-take n xs)

-- `os_recv` gives no more bytes than it is asked for, and what it gives and what it leaves are the bytes
-- that were there.
pub os_recv_bytes :
    (size : ℕ) (socket : Socket)
    → (contents socket ≡ given (os_recv size socket).0 ++ contents (os_recv size socket).1)
      × (length (given (os_recv size socket).0) ≤ size)
unfolding os_recv
os_recv_bytes size [] = (refl, omega arith)
os_recv_bytes size (not_ready ∷ socket) = (refl, omega arith)
os_recv_bytes size (failed ∷ socket) = (refl, omega arith)
os_recv_bytes size (interrupted ∷ socket) = os_recv_bytes size socket
os_recv_bytes size (arrived xs ∷ socket) = elim (Bool-cases (leb (length xs) size)) [
  | inl all ↦ rw all (refl, ground (arith, all))
  | inr some_of ↦ rw some_of (
    ap (λ (ys : List ℕ). ys ++ contents socket) (sym (take-append-drop size xs))
        ∙ append_assoc (take size xs) (drop size xs) (contents socket),
    length-take size xs,
  )
]

-- The request lives, on an open connection.
pub record IsAlive (s : Session) : Type 0 where
  pub counted : s.count ≡ 1
  pub live : s.live ≡ true
  pub opened : s.is_open ≡ true

-- The request is freed and its connection closed.
pub record IsGone (s : Session) : Type 0 where
  pub counted : s.count ≡ 0
  pub freed : s.live ≡ false
  pub closed_too : s.is_open ≡ false

-- How the count, the request and the connection stand behind a call.
abbrev pub Balanced : Session → Done → Type 0
Balanced s closed = IsGone s
Balanced s waits = IsAlive s
Balanced s refused = IsAlive s
Balanced s processed = IsAlive s
Balanced s to_headers = IsAlive s

pub close-IsGone : (s : Session) → IsAlive s → IsGone (http_close_request s)
unfolding http_close_request
close-IsGone s v = rw v.counted (record { counted = refl; freed = refl; closed_too = refl })

-- Closing a request leaves what was read and parsed.
pub record Same (s s' : Session) : Type 0 where
  pub bytes : s'.bytes ≡ s.bytes
  pub pos : s'.pos ≡ s.pos
  pub state : s'.state ≡ s.state
  pub request : s'.request ≡ s.request

pub close-Same : (s : Session) → IsAlive s → Same s (http_close_request s)
unfolding http_close_request
close-Same s v = rw v.counted (record { bytes = refl; pos = refl; state = refl; request = refl })

-- Why reading ends a call: nothing is there yet; `epoll_event_add` fails; or the stream ended or failed,
-- which marks the connection.
abbrev pub WhyStops : Env → Session → Done → Type 0
WhyStops env s waits = env.polled ≡ true
WhyStops env s closed = env.polled ≡ false
WhyStops env s refused = s.error ≡ true
WhyStops env s processed = ⊥
WhyStops env s to_headers = ⊥

-- How `http_read_request_header` ends, called on `s` and leaving `s'`.
abbrev pub ReadEnd : Env → Session → Session → ReadRc → Type 0
ReadEnd env s s' ready =
    IsAlive s'
    × (s'.state ≡ s.state)
    × (s'.request ≡ s.request)
    × (s'.pos ≡ s.pos)
    × (s.pos < length s'.bytes)
    × ((s.pos < length s.bytes) ⊎ (length s.bytes < length s'.bytes))
ReadEnd env s s' (stops done) =
    Same s s' × (s.pos ≡ length s.bytes) × Balanced s' done × WhyStops env s' done

-- What it has moved from the socket to the buffer.
pub record Moves (s s' : Session) (socket socket' : Socket) : Type 0 where
  pub moved : List ℕ
  pub appended : s'.bytes ≡ s.bytes ++ moved
  pub taken : contents socket ≡ moved ++ contents socket'
  pub fits : length s'.bytes ≤ 1024

after_recv-ReadEnd :
    (env : Env) (s : Session) (r : Received)
    → IsAlive s
    → s.pos ≡ length s.bytes
    → ReadEnd env s (after_recv env s r).0 (after_recv env s r).1
      × ((after_recv env s r).0.bytes ≡ s.bytes ++ given r)
unfolding after_recv
after_recv-ReadEnd env s recv_err v e = (
  (
    record { bytes = refl; pos = refl; state = refl; request = refl },
    e,
    record { counted = v.counted; live = v.live; opened = v.opened },
    refl,
  ),
  sym (append-nil s.bytes),
)
after_recv-ReadEnd env s (got []) v e = (
  (
    record { bytes = refl; pos = refl; state = refl; request = refl },
    e,
    record { counted = v.counted; live = v.live; opened = v.opened },
    refl,
  ),
  sym (append-nil s.bytes),
)
after_recv-ReadEnd env s (got (x ∷ xs)) v e =
    let longer : length (s.bytes ++ x ∷ xs) ≡ length s.bytes + suc (length xs) =
      length-append s.bytes (x ∷ xs) in
    (
      (
        record { counted = v.counted; live = v.live; opened = v.opened },
        refl,
        refl,
        refl,
        omega arith,
        inr (omega arith),
      ),
      refl,
    )
after_recv-ReadEnd env s recv_again v e = elim (Bool-cases env.polled) [
  | inl polled ↦ rw polled (
    (record { bytes = refl; pos = refl; state = refl; request = refl }, e, v, refl),
    sym (append-nil s.bytes),
  )
  | inr refuses ↦ rw refuses (
    (close-Same s v, e, close-IsGone s v, refl),
    (close-Same s v).bytes ∙ sym (append-nil s.bytes),
  )
]

-- `http_read_request_header` reads no more than the buffer has room for, and loses no byte.
pub read-Moves :
    (env : Env) (s : Session) (socket : Socket)
    → IsAlive s
    → s.pos ≤ length s.bytes
    → length s.bytes ≤ 1024
    → let (s', rc, socket') = http_read_request_header env s socket in
      Moves s s' socket socket' × ReadEnd env s s' rc
unfolding http_read_request_header
read-Moves env s socket v le fits = elim (Bool-cases (ltb s.pos (length s.bytes))) [
  | inl there ↦ rw there (
    record { moved = []; appended = sym (append-nil s.bytes); taken = refl; fits = fits },
    (v, refl, refl, refl, ground (arith, there), inl (ground (arith, there))),
  )
  | inr used_up ↦
      let (kept, small) = os_recv_bytes (1024 - length s.bytes) socket in
      let (end, appended) =
        after_recv-ReadEnd env s (os_recv (1024 - length s.bytes) socket).0 v
          (ground (arith, used_up)) in
      rw used_up (
        record {
          moved = given (os_recv (1024 - length s.bytes) socket).0;
          appended = appended;
          taken = kept;
          fits = omega (
            arith,
            ap length appended,
            length-append s.bytes (given (os_recv (1024 - length s.bytes) socket).0),
          );
        },
        end,
      )
]
