-- ===== src/Lifecycle/Closing.antt =====
-- A request line that was read: what answering it does to the count, the request and the connection.
use ostrichserver.Base.{Option, none, some, ◌≡◌, refl, ltb, Bool-cases, inl, inr}
use ostrichserver.HttpRequest.Strings.{Strings, set_line_strings, http_process_request_uri}
use ostrichserver.HttpRequest.Host.{HostRc, declined, err, ok}
use ostrichserver.Lifecycle.Session.{Session}
use ostrichserver.Lifecycle.Handlers.{Done, Env, after_host, checked_host, after_uri, on_line}
use ostrichserver.Lifecycle.Reading.{IsAlive, Balanced, close-IsGone, close-Same}

-- What holds of the session and the end of a call: the buffer is as it was.
abbrev Answers : Session → Session × Done → Type 0
Answers s (s', done) = (s'.bytes ≡ s.bytes) × Balanced s' done

after_host-Answers : (s : Session) (host : HostRc) → IsAlive s → Answers s (after_host s host)
unfolding after_host
after_host-Answers s declined v = (refl, v)
after_host-Answers s err v = ((close-Same s v).bytes, close-IsGone s v)
after_host-Answers s (ok host) v = elim (Bool-cases (ltb s.request.http_version 1000)) [
  | inl old ↦ rw old (refl, v)
  | inr new ↦ rw new (refl, record { counted = v.counted; live = v.live; opened = v.opened })
]

after_uri-Answers :
    (env : Env) (s : Session) (o : Option Strings) → IsAlive s → Answers s (after_uri env s o)
unfolding after_uri
after_uri-Answers env s none v = ((close-Same s v).bytes, close-IsGone s v)
after_uri-Answers env s (some strings) v =
    let s' = record s { strings = strings } in
    after_host-Answers s' (checked_host env s')
      (record { counted = v.counted; live = v.live; opened = v.opened })

pub on_line-Answers :
    (env : Env) (s : Session)
    → IsAlive s
    → ((on_line env s).0.bytes ≡ s.bytes) × Balanced (on_line env s).0 (on_line env s).1
unfolding on_line
on_line-Answers env s v =
    after_uri-Answers env s
      (http_process_request_uri env.uri_allocated s.request
        (set_line_strings s.request s.pos s.strings))
      v
