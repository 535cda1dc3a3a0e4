-- ===== src/Polling/Watched.antt =====
-- What epoll watches for an event behind some calls of eventpoll.c.
use ostrichserver.Base.{
  ℕ, true, false, List, [], ◌∷◌, Option, none, some, ◌≡◌, inl, inr, refl, ap, ◌∙◌, arith, ◌==◌,
  if◌then◌else◌, bit_or, Bool-cases,
}
use ostrichserver.Polling.Interest.{
  epollet, Op, epoll_ctl_add, EpollEvent, changed, Epoll, Poller, control, epoll_event_start,
  epoll_event_add, add_all,
}

-- the flag of the first call for an event
abbrev pub first_flag : ℕ → List (ℕ × ℕ) → Option ℕ
first_flag e [] = none
first_flag e (c ∷ cs) = if c.0 == e then some c.1 else first_flag e cs

-- what `epoll_event_add` asks for with a flag
abbrev pub asked : ℕ → Option ℕ → Option EpollEvent
asked e none = none
asked e (some flag) = some (record { events = bit_or flag epollet; ptr = e })

pub same : (n : ℕ) → (n == n) ≡ true
same n = ground arith

module _ {K : Type 0} (epoll : Epoll K) where
  -- what is watched on the descriptor of an event
  abbrev pub watched : ℕ → Poller K → Option EpollEvent
  watched e s = epoll.interest s.set (s.at e).fd

  pub interest-control :
      (op : Op) (e events : ℕ) (s : Poller K)
      → epoll.interest (control epoll op e events s) (s.at e).fd
        ≡ changed op (record { events = events; ptr = e }) (watched e s)
  interest-control op e events s =
      epoll.interest-epoll_ctl s.set op (s.at e).fd (record { events = events; ptr = e })
        (s.at e).fd
      ∙ rw (same (s.at e).fd) refl

  add-active :
      (e flag : ℕ) (s : Poller K) → (s.at e).active ≡ true → epoll_event_add epoll e flag s ≡ s
  unfolding epoll_event_add
  add-active e flag s h = rw h refl

  abbrev pub added : ℕ → ℕ → Poller K → Poller K
  added e flag s = epoll_event_add epoll e flag s

  pub add-at :
      (e flag : ℕ) (s : Poller K)
      → (s.at e).active ≡ false
      → (added e flag s).at e ≡ record { active = true; flag = flag; fd = (s.at e).fd }
  unfolding epoll_event_add epoll_event_start
  add-at e flag s h = rw (h, same e) refl

  add-at_other :
      (e flag : ℕ) (s : Poller K) (f : ℕ) → (f == e) ≡ false → (added e flag s).at f ≡ s.at f
  unfolding epoll_event_add epoll_event_start
  add-at_other e flag s f other = elim (Bool-cases ((s.at e).active)) [
    | inl on ↦ rw on refl
    | inr off ↦ rw (off, other) refl
  ]

  add-fd : (e flag : ℕ) (s : Poller K) (f : ℕ) → ((added e flag s).at f).fd ≡ (s.at f).fd
  unfolding epoll_event_add epoll_event_start
  add-fd e flag s f = elim (Bool-cases ((s.at e).active)) [
    | inl on ↦ rw on refl
    | inr off ↦ elim (Bool-cases (f == e)) [
      | inl here ↦ let e_eq : f ≡ e = ground arith in rw (off, here, e_eq) refl
      | inr other ↦ rw (off, other) refl
    ]
  ]

  add-interest :
      (e flag : ℕ) (s : Poller K)
      → (s.at e).active ≡ false
      → epoll.interest (added e flag s).set (s.at e).fd
        ≡ changed epoll_ctl_add (record { events = bit_or flag epollet; ptr = e }) (watched e s)
  unfolding epoll_event_add epoll_event_start
  add-interest e flag s h = rw h (interest-control epoll_ctl_add e (bit_or flag epollet) s)

  pub add-watched :
      (e flag : ℕ) (s : Poller K)
      → (s.at e).active ≡ false
      → watched e (added e flag s)
        ≡ changed epoll_ctl_add (record { events = bit_or flag epollet; ptr = e }) (watched e s)
  add-watched e flag s h =
      ap (epoll.interest (added e flag s).set) (add-fd e flag s e) ∙ add-interest e flag s h

  add-interest_other :
      (e flag : ℕ) (s : Poller K) (fd : ℕ)
      → (fd == (s.at e).fd) ≡ false
      → epoll.interest (added e flag s).set fd ≡ epoll.interest s.set fd
  unfolding epoll_event_add epoll_event_start
  add-interest_other e flag s fd apart = elim (Bool-cases ((s.at e).active)) [
    | inl on ↦ rw on refl
    | inr off ↦ rw off (
        epoll.interest-epoll_ctl s.set epoll_ctl_add (s.at e).fd
          (record { events = bit_or flag epollet; ptr = e }) fd
        ∙ rw apart refl)
  ]

  add-watched_other :
      (e flag : ℕ) (s : Poller K) (f : ℕ)
      → ((s.at f).fd == (s.at e).fd) ≡ false
      → watched f (added e flag s) ≡ watched f s
  add-watched_other e flag s f apart =
      ap (epoll.interest (added e flag s).set) (add-fd e flag s f)
      ∙ add-interest_other e flag s (s.at f).fd apart

  -- No other event has the descriptor of `e`.
  abbrev pub OwnFd : ℕ → Poller K → Type 0
  OwnFd e s = (f : ℕ) → (e == f) ≡ false → ((s.at e).fd == (s.at f).fd) ≡ false

  add-OwnFd : (e flag : ℕ) (s : Poller K) (f : ℕ) → OwnFd f s → OwnFd f (added e flag s)
  add-OwnFd e flag s f own g other = rw (add-fd e flag s f, add-fd e flag s g) (own g other)

  active-stays :
      (e : ℕ) (cs : List (ℕ × ℕ)) (s : Poller K)
      → OwnFd e s
      → (s.at e).active ≡ true
      → watched e (add_all epoll cs s) ≡ watched e s
  unfolding add_all
  active-stays e [] s own h = refl
  active-stays e (c ∷ cs) s own h = elim (Bool-cases (e == c.0)) [
    | inl here ↦
        let e_eq : e ≡ c.0 = ground arith in
        let on : (s.at c.0).active ≡ true = rw (← e_eq) h in
        rw (add-active c.0 c.1 s on) (active-stays e cs s own h)
    | inr other ↦
        active-stays e cs (added c.0 c.1 s) (add-OwnFd c.0 c.1 s e own)
          (rw (add-at_other c.0 c.1 s e other) h)
        ∙ add-watched_other c.0 c.1 s e (own c.0 other)
  ]

  -- Any calls of `epoll_event_add`, for any events, from a state in which `e` is not active, nothing is watched on
  -- its descriptor, and no other event has that descriptor: epoll then watches for `e` the flag of the first
  -- call for `e`, edge-triggered, whatever the flags of the later ones, and nothing where there was no such
  -- call.
  pub add_all-first_flag :
      (e : ℕ) (cs : List (ℕ × ℕ)) (s : Poller K)
      → OwnFd e s
      → (s.at e).active ≡ false
      → watched e s ≡ none
      → watched e (add_all epoll cs s) ≡ asked e (first_flag e cs)
  unfolding add_all
  add_all-first_flag e [] s own h free = free
  add_all-first_flag e (c ∷ cs) s own h free = elim (Bool-cases (c.0 == e)) [
    | inl here ↦
        let e_eq : c.0 ≡ e = ground arith in
        rw (here, e_eq)
          (active-stays e cs (added e c.1 s) (add-OwnFd e c.1 s e own) (rw (add-at e c.1 s h) refl)
            ∙ add-watched e c.1 s h
            ∙ ap (changed epoll_ctl_add _) free)
    | inr other ↦
        let away : (e == c.0) ≡ false = ground arith in
        rw other (
          add_all-first_flag e cs (added c.0 c.1 s) (add-OwnFd c.0 c.1 s e own)
            (rw (add-at_other c.0 c.1 s e away) h)
            (add-watched_other c.0 c.1 s e (own c.0 away) ∙ free))
  ]
