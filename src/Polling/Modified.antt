-- ===== src/Polling/Modified.antt =====
-- What epoll watches for an event behind `epoll_event_modify`.
use ostrichserver.Base.{
  ℕ, true, false, none, some, ◌≡◌, inl, inr, refl, ap, ◌∙◌, Bool-cases, bit_or,
}
use ostrichserver.Polling.Interest.{
  epedge, epoll_ctl_add, epoll_ctl_mod, EpollEvent, changed, Epoll, Poller, epoll_event_modify,
}
use ostrichserver.Polling.Watched.{watched, interest-control, added, add-at, add-watched}

module _ {K : Type 0} (epoll : Epoll K) where
  abbrev pub modified : ℕ → ℕ → Poller K → Poller K
  modified e flag s = epoll_event_modify epoll e flag s

  modify-at : (e flag : ℕ) (s : Poller K) → (modified e flag s).at e ≡ s.at e
  unfolding epoll_event_modify
  modify-at e flag s = elim (Bool-cases ((s.at e).active)) [
    | inl on ↦ simp on refl
    | inr off ↦ simp off refl
  ]

  modify-off :
      (e flag : ℕ) (s : Poller K)
      → (s.at e).active ≡ false
      → watched epoll e (modified e flag s)
        ≡ changed epoll_ctl_add
            (record { events = bit_or flag epedge; ptr = e })
            (watched epoll e s)
  unfolding epoll_event_modify
  modify-off e flag s off = rw off (interest-control epoll epoll_ctl_add e (bit_or flag epedge) s)

  modify-on :
      (e flag : ℕ) (s : Poller K)
      → (s.at e).active ≡ true
      → watched epoll e (modified e flag s)
        ≡ changed epoll_ctl_mod
            (record { events = bit_or (s.at e).flag flag; ptr = e })
            (watched epoll e s)
  unfolding epoll_event_modify
  modify-on e flag s on =
      rw on (interest-control epoll epoll_ctl_mod e (bit_or (s.at e).flag flag) s)

  -- a change of an active event of which something is watched
  modify-some :
      (e flag : ℕ) (s : Poller K) (old : EpollEvent)
      → (s.at e).active ≡ true
      → watched epoll e s ≡ some old
      → watched epoll e (modified e flag s)
        ≡ some (record { events = bit_or (s.at e).flag flag; ptr = e })
  modify-some e flag s old on w = modify-on e flag s on ∙ ap (changed epoll_ctl_mod _) w

  -- a change of an event that is not active and of which nothing is watched
  modify-none :
      (e flag : ℕ) (s : Poller K)
      → (s.at e).active ≡ false
      → watched epoll e s ≡ none
      → watched epoll e (modified e flag s) ≡ some (record { events = bit_or flag epedge; ptr = e })
  modify-none e flag s off free = modify-off e flag s off ∙ ap (changed epoll_ctl_add _) free

  changed_twice :
      (e f g : ℕ) (s : Poller K)
      → (s.at e).active ≡ false
      → watched epoll e s ≡ none
      → watched epoll e (modified e g (modified e f s))
        ≡ some (record { events = bit_or f epedge; ptr = e })
  changed_twice e f g s off free =
      modify-off e g (modified e f s) (rw (modify-at e f s) off)
      ∙ ap (changed epoll_ctl_add _) (modify-none e f s off free)

  changed_first :
      (e f h : ℕ) (s : Poller K)
      → (s.at e).active ≡ false
      → watched epoll e s ≡ none
      → (((added epoll e h (modified e f s)).at e).active ≡ true)
        × (watched epoll e (added epoll e h (modified e f s))
            ≡ some (record { events = bit_or f epedge; ptr = e }))
  changed_first e f h s off free =
      let off' : ((modified e f s).at e).active ≡ false = rw (modify-at e f s) off in
      (
        rw (add-at epoll e h (modified e f s) off') refl,
        add-watched epoll e h (modified e f s) off'
            ∙ ap (changed epoll_ctl_add _) (modify-none e f s off free),
      )

  added_first :
      (e f g h : ℕ) (s : Poller K)
      → (s.at e).active ≡ false
      → watched epoll e s ≡ none
      → watched epoll e (modified e h (modified e g (added epoll e f s)))
        ≡ some (record { events = bit_or f h; ptr = e })
  added_first e f g h s off free =
      let a = add-at epoll e f s off in
      let b = modify-at e g (added epoll e f s) in
      let once =
        modify-some e g (added epoll e f s) _ (rw a refl)
          (add-watched epoll e f s off ∙ ap (changed epoll_ctl_add _) free) in
      modify-some e h (modified e g (added epoll e f s)) _ (rw (b, a) refl) once ∙ rw (b, a) refl

  -- `epoll_event_modify` of an event that is not active, and of which nothing is watched, has its flag watched
  -- with the bit of `EPEDGE`, but leaves the event inactive: the flags of a later `epoll_event_modify` and of a
  -- later `epoll_event_add` are not watched, though the latter makes the event active. Of an event that
  -- `epoll_event_add` has made active, each call watches the flag of that call and its own, without the bit of `EPOLLET`,
  -- and drops those of the calls between.
  pub modify-forgets :
      (e f g h : ℕ) (s : Poller K)
      → (s.at e).active ≡ false
      → watched epoll e s ≡ none
      → (watched epoll e (modified e g (modified e f s))
          ≡ some (record { events = bit_or f epedge; ptr = e }))
        × ((((added epoll e h (modified e f s)).at e).active ≡ true)
            × (watched epoll e (added epoll e h (modified e f s))
                ≡ some (record { events = bit_or f epedge; ptr = e })))
        × (watched epoll e (modified e h (modified e g (added epoll e f s)))
            ≡ some (record { events = bit_or f h; ptr = e }))
  modify-forgets e f g h s off free = (
    changed_twice e f g s off free,
    changed_first e f h s off free,
    added_first e f g h s off free,
  )
