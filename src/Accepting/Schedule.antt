-- ===== src/Accepting/Schedule.antt =====
-- The loop over `accept` (acceptor.c) and `event_schedule` (processor.c). What `init_connection` makes of a
-- descriptor is not part of the repository: a connection stands for itself by the event that is made for
-- it, whose allocation is taken to succeed.
use ostrichserver.Base.{ℕ, List, [], ◌∷◌, Option, none, some, ltb, ◌==◌, if◌then◌else◌}
use ostrichserver.Base.Int.{ℤ, pos, negsuc}
use ostrichserver.Processor.{EventProcessor, eventprocessor_init, event_assign_thread}

-- The processor and the external queues of its threads, each with the event pushed last first.
pub record Server : Type 0 where
  pub processor : EventProcessor
  pub externals : ℕ → List ℕ

-- `eventprocessor_init`, with the queues of the threads that `make_threads_pool` gives
abbrev pub server_init : ℕ → Server
server_init n = record { processor = eventprocessor_init n; externals = λ t. [] }

-- `ev->t->externalqueue.enqueue(ev)`
abbrev pub enqueue_to : ℕ → ℕ → Server → Server
enqueue_to t e s = record s { externals = λ u. if u == t then e ∷ s.externals u else s.externals u }

-- the push on the queue of the thread that was assigned; `none` where its index lies outside of the array
abbrev pub scheduled : ℕ → ℤ → Server → Option Server
scheduled e (pos t) s = if ltb t s.processor.n_threads then some (enqueue_to t e s) else none
scheduled e (negsuc t) s = none

-- `event_schedule` of the event `e`
unfoldable pub event_schedule : ℕ → Server → Option Server
unfolding event_assign_thread
event_schedule e s =
    let (t, p) = event_assign_thread s.processor in scheduled e t (record s { processor = p })

infixl 5 ◌>>=◌
abbrev pub ◌>>=◌ : Option Server → (Server → Option Server) → Option Server
none >>= f = none
some s >>= f = f s

-- `accept_block_loop` for the connections that `accept` has given, by their events
unfoldable pub accept_block_loop : List ℕ → Server → Option Server
unfolding event_schedule
accept_block_loop [] s = some s
accept_block_loop (e ∷ es) s = event_schedule e s >>= accept_block_loop es
