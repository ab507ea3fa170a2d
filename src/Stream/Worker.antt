-- ===== src/Stream/Worker.antt =====
-- stream/inner.rs: `__thread`, the worker of a stream that sends its segments.
use mdswp.Prelude.{
  ℕ, zero, suc, Bool, true, false, Option, none, some, List, [], ◌∷◌, ◌++◌, if◌then◌else◌,
}
use mdswp.Util.{IoResult, ok, err, Run, done, panic, hang, ◌>>=◌}
use mdswp.Segment.{Segment, acknowledge, sequential}
use mdswp.Send.{SendStorage}
use mdswp.Send
use mdswp.Recv.{pop_acknowledge}
use mdswp.Stream.{StreamInner, Effect, send_to, error, is_err, is_write_finished}

-- Whether the thread goes on, the new state, and what was asked of the listener.
abbrev pub Round : Type 0
Round = Bool × StreamInner × List Effect

-- What the socket answers to a datagram that is sent to the peer.
module _ (socket : Segment → IoResult (Unit {0})) where
  -- The inner loop: segments are sent until the storage gives none.
  unfoldable pub send_loop : ℕ → ℕ → StreamInner → List Effect → Run Round
  send_loop zero now s effects = hang
  send_loop (suc f) now s effects = Send.pop s.send_storage now >>= λ p. elim p.0 [
    | none ↦ done (true, record s { send_storage = p.1 }, effects)
    | some (n, v) ↦ elim (socket (sequential n v)) [
      | ok _ ↦
          send_loop f now (record s { send_storage = p.1 })
            (effects ++ send_to s.peer_addr (sequential n v) ∷ [])
      | err e ↦
          let (s', more) = error (record s { send_storage = p.1 }) e true in
          done (false, s', (effects ++ send_to s.peer_addr (sequential n v) ∷ []) ++ more)
    ]
  ]

  -- At most twenty segments are sent in a round, so the fuel of the loop is twenty-one.
  unfoldable pub after_acknowledge : ℕ → ℕ → StreamInner → IoResult (Unit {0}) → Run Round
  after_acknowledge n now s (ok _) = send_loop 21 now s (send_to s.peer_addr (acknowledge n) ∷ [])
  after_acknowledge n now s (err e) =
      let (s', more) = error s e true in
      done (false, s', send_to s.peer_addr (acknowledge n) ∷ more)

  unfoldable pub send_acknowledge : ℕ → StreamInner → Option ℕ → Run Round
  send_acknowledge now s none = send_loop 21 now s []
  send_acknowledge now s (some n) = after_acknowledge n now s (socket (acknowledge n))

  -- Behind the tests: the next acknowledgement, then the loop.
  unfoldable pub worker_sends : ℕ → StreamInner → Run Round
  worker_sends now s =
      let (next_ack, recv_storage') = pop_acknowledge s.recv_storage now in
      send_acknowledge now (record s { recv_storage = recv_storage' }) next_ack

  -- One round of the thread on a stream that is still there. `unwrap` panics on an error.
  unfoldable pub worker_round : ℕ → StreamInner → Run Round
  worker_round now s = if is_err s then done (false, s, []) else elim (is_write_finished s) [
    | err e ↦ panic
    | ok true ↦ done (false, s, [])
    | ok false ↦ worker_sends now s
  ]

  -- `__send_segment`: an error of the socket becomes the error of the stream.
  unfoldable pub send_segment : StreamInner → Segment → StreamInner × List Effect
  send_segment s segment = elim (socket segment) [
    | ok _ ↦ (s, send_to s.peer_addr segment ∷ [])
    | err e ↦ let (s', more) = error s e true in (s', send_to s.peer_addr segment ∷ more)
  ]
