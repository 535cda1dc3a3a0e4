-- ===== src/Tests/Polling.antt =====
-- What epoll watches: runs with a set of epoll kept as a function, and the theorems at concrete inputs.
use ostrichserver.Base.{
  ℕ, true, false, [], ◌∷◌, Option, none, some, ◌≡◌, refl, ◌==◌, if◌then◌else◌, bit_or, bit_and,
}
use ostrichserver.Polling.Interest.{
  epollin, epollout, epollet, epedge, Op, EpollEvent, changed, Epoll, Poller, epoll_event_start,
  epoll_event_add, add_all,
}
use ostrichserver.Polling.Watched.{watched, added, asked, first_flag, OwnFd, add_all-first_flag}
use ostrichserver.Polling.Modified.{modified, modify-forgets}

abbrev Watches : Type 0
Watches = ℕ → Option EpollEvent

abbrev kept : Watches → Op → ℕ → EpollEvent → Watches
kept k op fd ev other = if other == fd then changed op ev (k other) else k other

abbrev linux : Epoll Watches
linux = record {
  epoll_ctl = kept;
  interest = λ k fd. k fd;
  interest-epoll_ctl = λ k op fd ev other. refl;
}

-- Event `e` has the descriptor `e`.
abbrev quiet : Poller Watches
quiet = record { at = λ e. record { active = false; flag = 0; fd = e }; set = λ fd. none }

quiet-OwnFd : (e : ℕ) → OwnFd linux e quiet
quiet-OwnFd e f other = other

add_all-first_flag_example :
    watched linux 7 (add_all linux ((7, 1) ∷ (3, 4) ∷ (7, 4) ∷ []) quiet)
    ≡ asked 7 (first_flag 7 ((7, 1) ∷ (3, 4) ∷ (7, 4) ∷ []))
add_all-first_flag_example =
    add_all-first_flag linux 7 ((7, 1) ∷ (3, 4) ∷ (7, 4) ∷ []) quiet (quiet-OwnFd 7) refl refl

-- The flag 0, with which the handlers of a request call it, has neither input nor output watched.
nothing_to_read :
    (watched linux 7 (epoll_event_add linux 7 0 quiet)
      ≡ some (record { events = epollet; ptr = 7 }))
    × (bit_and epollet epollin ≡ 0)
    × (bit_and epollet epollout ≡ 0)
unfolding epoll_event_add epoll_event_start
nothing_to_read = (refl, refl, refl)

modify-forgets_example :
    (watched linux 7 (modified linux 7 4 (modified linux 7 1 quiet))
      ≡ some (record { events = bit_or 1 epedge; ptr = 7 }))
    × ((((added linux 7 8 (modified linux 7 1 quiet)).at 7).active ≡ true)
        × (watched linux 7 (added linux 7 8 (modified linux 7 1 quiet))
            ≡ some (record { events = bit_or 1 epedge; ptr = 7 })))
    × (watched linux 7 (modified linux 7 8 (modified linux 7 4 (added linux 7 1 quiet)))
        ≡ some (record { events = bit_or 1 8; ptr = 7 }))
modify-forgets_example = modify-forgets linux 7 1 4 8 quiet refl refl
