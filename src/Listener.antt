-- ===== src/Listener.antt =====
-- listener/inner.rs: the listener of a socket, which hands each datagram to the stream of its sender.
-- Streams are shared, so they stand in a store under an index; a `Weak` is an index, and it upgrades
-- as long as the store has a stream there. The handle of the thread is left out.
pub mod Bind
pub mod Socket
pub mod Connect
pub mod Served
pub mod Sound
pub mod Datagram
pub mod Rounds
pub mod Connected
pub mod Resets
pub mod Accept
pub mod Waiting
pub mod Looks
pub mod Leaves
pub mod Arrivals
pub mod Accepting
mod Tests
use mdswp.Prelude.{
  ℕ, zero, suc, ◌+◌, Bool, true, false, Option, none, some, List, [], ◌∷◌, ◌++◌, ◌==◌,
  if◌then◌else◌,
}
use mdswp.Util.{
  ErrorKind, interrupted, would_block, IoError, IoResult, ok, err, Run, done, panic, ◌>>=◌,
  clone_io_err,
}
use mdswp.Segment.{Segment, establish, reset, acknowledge, sequential, try_from}
use mdswp.Stream.{
  SocketAddr, StreamInner, Effect, remove_connection, send_to, error, new_by_peer, peer_addr_of,
}
use mdswp.Stream.Incoming.{Outcome, recv_segment}

-- `sent` is what has been given to the socket, in order.
pub record ListenerInner : Type 0 where
  pub connections : SocketAddr → Option ℕ
  pub streams : ℕ → Option StreamInner
  pub next_stream : ℕ
  pub to_accept : List ℕ
  pub state : IoResult (Unit {0})
  pub sent : List (SocketAddr × Segment)

-- `insert` with `some`, `remove` with `none`
abbrev pub set {ℓ} : {A : Type ℓ} → (ℕ → Option A) → ℕ → Option A → ℕ → Option A
set m k v j = if j == k then v else m j

unfoldable pub new_listener : ListenerInner
new_listener = record {
  connections = λ a. none;
  streams = λ i. none;
  next_stream = 0;
  to_accept = [];
  state = ok tt;
  sent = [];
}

-- `_remove_connection`, and `_send_to` where its result is ignored
unfoldable pub apply_effect : ListenerInner → Effect → ListenerInner
apply_effect l (remove_connection a) = record l { connections = set l.connections a none }
apply_effect l (send_to a segment) = record l { sent = l.sent ++ (a, segment) ∷ [] }

abbrev pub apply_effects : ListenerInner → List Effect → ListenerInner
apply_effects l [] = l
apply_effects l (e ∷ es) = apply_effects (apply_effect l e) es

unfoldable pub add_connection : ListenerInner → SocketAddr → ℕ → ListenerInner
add_connection l a i = record l { connections = set l.connections a (some i) }

-- The connection of a sender, if its stream is still there.
unfoldable pub stream_of : ListenerInner → SocketAddr → Option (ℕ × StreamInner)
stream_of l a = elim (l.connections a) [
  | none ↦ none
  | some i ↦ elim (l.streams i) [ none ↦ none | some s ↦ some (i, s) ]
]

abbrev pub hand_over : ListenerInner → ℕ → Outcome → ListenerInner
hand_over l i (s', effects) =
    apply_effects (record l { streams = set l.streams i (some s') }) effects

-- A known sender: its stream takes the segment, or fails on bytes that are none.
unfoldable pub recv_known : ListenerInner → ℕ → StreamInner → IoResult Segment → Run ListenerInner
recv_known l i s (err e) = done (hand_over l i (error s e true))
recv_known l i s (ok segment) = recv_segment s segment >>= λ p. done (hand_over l i p)

unfoldable pub open_connection : ListenerInner → SocketAddr → ℕ → ℕ → ListenerInner
unfolding add_connection
open_connection l a establish_seq_num accept_seq_num =
    let i = l.next_stream in
    let l' = add_connection l a i in
    record l' {
      streams = set l.streams i (some (new_by_peer a establish_seq_num accept_seq_num));
      next_stream = i + 1;
      to_accept = l.to_accept ++ i ∷ [];
    }

-- An unknown sender: ESTABLISH opens a connection, all else is answered by RESET.
unfoldable pub recv_unknown : ListenerInner → SocketAddr → ℕ → IoResult Segment → ListenerInner
recv_unknown l a accept_seq_num (ok (establish n)) = open_connection l a n accept_seq_num
recv_unknown l a accept_seq_num (ok reset) = apply_effect l (send_to a Segment.reset)
recv_unknown l a accept_seq_num (ok (acknowledge n)) = apply_effect l (send_to a Segment.reset)
recv_unknown l a accept_seq_num (ok (sequential n v)) = apply_effect l (send_to a Segment.reset)
recv_unknown l a accept_seq_num (err e) = apply_effect l (send_to a Segment.reset)

-- `__recv`; the random number for an ACCEPT is an argument.
unfoldable pub recv_datagram : ListenerInner → List ℕ → SocketAddr → ℕ → Run ListenerInner
recv_datagram l bytes a accept_seq_num = elim (stream_of l a) [
  | some (i, s) ↦ recv_known l i s (try_from bytes)
  | none ↦ done (recv_unknown l a accept_seq_num (try_from bytes))
]

unfoldable pub listener_is_err : ListenerInner → Bool
listener_is_err l = elim l.state [ ok _ ↦ false | err e ↦ true ]

unfoldable pub listener_state : ListenerInner → IoResult (Unit {0})
unfolding clone_io_err
listener_state l = elim l.state [ ok _ ↦ ok tt | err e ↦ err (clone_io_err e) ]

-- What `recv_from` of the socket gives.
abbrev pub Datagram : Type 0
Datagram = IoResult (List ℕ × SocketAddr)

-- A failed `recv_from`: an interruption is passed over, any other error ends the listener.
unfoldable pub recv_failed : ListenerInner → ErrorKind → IoError → Run ListenerInner
recv_failed l interrupted e = done l
recv_failed l would_block e = panic
recv_failed l _ e = done (record l { state = err e })

-- One round of `__listen_thread`: whether it goes on, and the listener.
unfoldable pub listen_round : ListenerInner → Datagram → ℕ → Run (Bool × ListenerInner)
listen_round l datagram accept_seq_num =
    if listener_is_err l
    then done (false, l)
    else (elim datagram [
      | err e ↦ recv_failed l e.kind e
      | ok (bytes, a) ↦ recv_datagram l bytes a accept_seq_num
    ]
        >>= λ l'. done (true, l'))

-- `accept_nonblocking`: the index of the stream, with its address. The queue keeps its streams alive,
-- so the store has them.
unfoldable pub accept_nonblocking :
    ListenerInner → IoResult (Option (ℕ × SocketAddr)) × ListenerInner
accept_nonblocking l = elim l.state [
  | err e ↦ (err (record { kind = e.kind; message = e.message }), l)
  | ok _ ↦ elim l.to_accept [
    | [] ↦ (ok none, l)
    | i ∷ rest ↦
        let l' = record l { to_accept = rest } in
        elim (l.streams i) [
          | none ↦ (ok none, l')
          | some s ↦ elim (peer_addr_of s) [ err e ↦ (err e, l') | ok a ↦ (ok (some (i, a)), l') ]
        ]
  ]
]
