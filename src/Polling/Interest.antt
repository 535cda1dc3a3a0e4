-- ===== src/Polling/Interest.antt =====
-- The calls of eventpoll.c. `epoll_ctl` and the set that it keeps are those of the system, and parameters.
use ostrichserver.Base.{
  ℕ, ◌^◌, Bool, true, List, [], ◌∷◌, Option, none, some, ◌≡◌, ◌==◌, if◌then◌else◌, bit_or,
}

-- `EPOLLIN`, `EPOLLOUT` and `EPOLLET` of the system, and `EPEDGE`
abbrev pub epollin : ℕ
epollin = 1

abbrev pub epollout : ℕ
epollout = 4

abbrev pub epollet : ℕ
epollet = 2 ^ 31

abbrev pub epedge : ℕ
epedge = 2

pub data Op : Type 0 where
  epoll_ctl_add : Op
  epoll_ctl_mod : Op

-- `struct epoll_event`
pub record EpollEvent : Type 0 where
  pub events : ℕ
  pub ptr : ℕ

-- the fields of an event that the calls use, with the descriptor of its connection
pub record PollEvent : Type 0 where
  pub active : Bool
  pub flag : ℕ
  pub fd : ℕ

-- what `epoll_ctl` does to what is watched on its descriptor: it adds no descriptor that is there, and changes
-- none that is not
abbrev pub changed : Op → EpollEvent → Option EpollEvent → Option EpollEvent
changed epoll_ctl_add ev none = some ev
changed epoll_ctl_add ev (some old) = some old
changed epoll_ctl_mod ev none = none
changed epoll_ctl_mod ev (some old) = some ev

-- The set of epoll, `K`, with what is watched on each descriptor.
pub record Epoll (K : Type 0) : Type 0 where
  pub epoll_ctl : K → Op → ℕ → EpollEvent → K
  pub interest : K → ℕ → Option EpollEvent
  pub interest-epoll_ctl :
      (k : K) (op : Op) (fd : ℕ) (ev : EpollEvent) (other : ℕ)
      → interest (epoll_ctl k op fd ev) other
        ≡ (if other == fd then changed op ev (interest k other) else interest k other)

-- the events of a thread by their addresses, and its set of epoll
pub record Poller (K : Type 0) : Type 0 where
  pub at : ℕ → PollEvent
  pub set : K

module _ {K : Type 0} (epoll : Epoll K) where
  -- `epoll_ctl` for an event
  abbrev pub control : Op → ℕ → ℕ → Poller K → K
  control op e events s = epoll.epoll_ctl s.set op (s.at e).fd (record { events = events; ptr = e })

  -- `epoll_event_start`
  unfoldable pub epoll_event_start : ℕ → ℕ → Poller K → Poller K
  epoll_event_start e flag s = if (s.at e).active then s else record {
    at = λ f. if f == e then record { active = true; flag = flag; fd = (s.at e).fd } else s.at f;
    set = control epoll_ctl_add e (bit_or flag epollet) s;
  }

  -- `epoll_event_add`
  unfoldable pub epoll_event_add : ℕ → ℕ → Poller K → Poller K
  unfolding epoll_event_start
  epoll_event_add e flag s = if (s.at e).active then s else epoll_event_start e flag s

  -- `epoll_event_modify`
  unfoldable pub epoll_event_modify : ℕ → ℕ → Poller K → Poller K
  epoll_event_modify e flag s =
      if (s.at e).active
      then record s { set = control epoll_ctl_mod e (bit_or (s.at e).flag flag) s }
      else record s { set = control epoll_ctl_add e (bit_or flag epedge) s }

  -- `epoll_event_add` for some events in a row, each with its flag
  unfoldable pub add_all : List (ℕ × ℕ) → Poller K → Poller K
  unfolding epoll_event_add
  add_all [] s = s
  add_all (c ∷ cs) s = add_all cs (epoll_event_add c.0 c.1 s)
