-- ===== src/Public/ListenerHandle.antt =====
-- listener.rs: `MdswpListener` and `Incoming`. Both hold the listener itself.
use mdswp.Prelude.{ℕ, Bool, Option, none, some, List}
use mdswp.Util.{IoResult, ok, err, Run, done, ◌>>=◌}
use mdswp.Stream.{SocketAddr}
use mdswp.Listener.{ListenerInner}
use mdswp.Listener
use mdswp.Listener.Accept.{Accepted}
use mdswp.Listener.Accept
use mdswp.Listener.Bind
use mdswp.Public.{MdswpStream}

-- The result of `accept`, with a handle of the stream.
abbrev pub Connection : Type 0
Connection = MdswpStream × SocketAddr

abbrev with_handle : ℕ × SocketAddr → Connection
with_handle (i, a) = (record { inner = i }, a)

unfoldable pub bind : IoResult (Unit {0}) → IoResult (Unit {0}) → IoResult ListenerInner
bind bound blocking = Bind.bind bound blocking

unfoldable pub is_err : ListenerInner → Bool
is_err l = Listener.listener_is_err l

unfoldable pub listener_state : ListenerInner → IoResult (Unit {0})
listener_state l = Listener.listener_state l

unfoldable pub accept_nonblocking : ListenerInner → IoResult (Option Connection) × ListenerInner
accept_nonblocking l =
    let (r, l') = Listener.accept_nonblocking l in
    (
      elim r [
        | err e ↦ err e
        | ok found ↦ ok (elim found [ none ↦ none | some x ↦ some (with_handle x) ])
      ],
      l',
    )

unfoldable pub accept :
    List (ListenerInner → ListenerInner) → ListenerInner → Run (IoResult Connection × ListenerInner)
accept looks l = Accept.accept looks l >>= λ p.
    done (elim p.0 [ err e ↦ err e | ok x ↦ ok (with_handle x) ], p.1)

unfoldable pub try_clone : ListenerInner → IoResult ListenerInner
unfolding listener_state
try_clone l = elim (listener_state l) [ err e ↦ err e | ok _ ↦ ok l ]

-- `Incoming`
pub record Incoming : Type 0 where
  pub listener : ListenerInner

unfoldable pub incoming : ListenerInner → Incoming
incoming l = record { listener = l }

unfoldable pub into_listener : Incoming → ListenerInner
into_listener i = i.listener

-- The next connection: the iterator never ends.
unfoldable pub next :
    List (ListenerInner → ListenerInner) → Incoming → Run (Option (IoResult Connection) × Incoming)
unfolding accept
next looks i = accept looks i.listener >>= λ p. done (some p.0, record { listener = p.1 })
