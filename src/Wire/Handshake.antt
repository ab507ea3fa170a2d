-- ===== src/Wire/Handshake.antt =====
-- listener/inner.rs and stream/inner.rs: how two streams come to be connected.
use mdswp.Prelude.{
  ℕ, ◌+◌, ◌<◌, ◌≡◌, refl, ◌∙◌, ap, true, none, some, List, [], ◌∷◌, ◌++◌, All, arith, ==_true,
  le→ltb,
}
use mdswp.Util.{wrapping_add, wrapping_sub, conn_timeout, IoResult, ok, done}
use mdswp.Segment.{accept, Segment, establish, sequential, into_bytes}
use mdswp.Segment.RoundTrip.{try_from-into_bytes, into_bytes_bounds}
use mdswp.Send.{SendStorage, SentSegment}
use mdswp.Send
use mdswp.Send.Track.{sent_none, sent_early}
use mdswp.Send.Window.{unsent_next, unsent_none, pop_next}
use mdswp.Recv.{RecvStorage, pop_acknowledge}
use mdswp.Recv
use mdswp.Stream.{StreamInner, send_to, is_err, is_write_finished, new_by_peer, new_by_local}
use mdswp.Stream.Worker.{send_acknowledge, worker_sends, worker_round}
use mdswp.Stream.Finish.{loop_sends, loop_stops}
use mdswp.Listener.{
  ListenerInner, stream_of, open_connection, recv_unknown, recv_datagram, add_connection,
}
use mdswp.Listener.Datagram.{recv_datagram_unknown}
use mdswp.Listener.Connect.{Attempt, try_single_connect_to}
use mdswp.Listener.Connected.{IsIdle, connects}
use mdswp.Link.{with_queued}
use mdswp.Wire.{joined_streams}
use mdswp.Wire.Whole.{answered, Begun, forth, back}

-- The sending half when the ACCEPT was popped.
abbrev accept_sent : ℕ → ℕ → SendStorage
accept_sent m now = record {
  queue_sent = record { seq_num = m; segment = accept; last_pop = now } ∷ [];
  queue_unsent = [];
  next_unsent = wrapping_add m 1;
}

pops_accept :
    (m now : ℕ) → Send.pop (Send.new_by_peer m) now ≡ done (some (m, accept), accept_sent m now)
unfolding Send.new_by_peer
pops_accept m now =
    let s = Send.new_by_peer m in
    pop_next s s now (sent_none s now refl) ∙ unsent_next s now accept [] (omega arith) refl

pops_queued :
    (m now : ℕ)
    → Send.pop (with_queued (Send.new_by_peer m) []) now
      ≡ done (some (m, accept), accept_sent m now)
unfolding Send.new_by_peer
pops_queued m now = pops_accept m now

pops_no_more : (m now : ℕ) → Send.pop (accept_sent m now) now ≡ done (none, accept_sent m now)
pops_no_more m now =
    let s = accept_sent m now in
    pop_next s s now (
      sent_early s now (record { seq_num = m; segment = accept; last_pop = now }) [] refl
        (le→ltb _ _ (omega arith)))
    ∙ unsent_none s now (omega arith) refl

-- The receiving half once it was asked for an acknowledgement, of which there is none yet.
abbrev asked : ℕ → ℕ → RecvStorage
asked n now = record (Recv.new_by_peer n) {
  last_ack = some (wrapping_sub (Recv.new_by_peer n).window 1, now);
}

asks_none : (n now : ℕ) → pop_acknowledge (Recv.new_by_peer n) now ≡ (none, asked n now)
unfolding pop_acknowledge Recv.new_by_peer
asks_none n now = rw (==_true (wrapping_add n 1) (wrapping_add n 1) refl) refl

module _ (socket : Segment → IoResult (Unit {0})) (c n m now : ℕ) where
  -- The stream of an accepted connection after the first round of its worker.
  abbrev pub answering : StreamInner
  answering = record (new_by_peer c n m) {
    send_storage = accept_sent m now;
    recv_storage = asked n now;
  }

  round_sends :
      worker_round socket now (new_by_peer c n m)
      ≡ send_acknowledge socket now (record (new_by_peer c n m) { recv_storage = asked n now }) none
  unfolding worker_round is_err is_write_finished worker_sends new_by_peer
  round_sends = rw (asks_none n now, worker_sends) refl

  -- The first round of the worker sends the ACCEPT and nothing else.
  first_round :
      socket (sequential m accept) ≡ ok tt
      → worker_round socket now (new_by_peer c n m)
        ≡ done (true, answering, send_to c (sequential m accept) ∷ [])
  unfolding send_acknowledge new_by_peer
  first_round fine =
      let s : StreamInner = record (new_by_peer c n m) { recv_storage = asked n now } in
      let t : StreamInner = record s { send_storage = accept_sent m now } in
      round_sends
      ∙ loop_sends socket 20 now s [] (accept_sent m now) m accept (pops_accept m now) tt fine
      ∙ loop_stops socket 19 now t (send_to c (sequential m accept) ∷ []) (accept_sent m now)
          (pops_no_more m now)

-- The ESTABLISH of a sender that is not known opens a connection with it.
opens :
    (l : ListenerInner) (c n m : ℕ)
    → stream_of l c ≡ none
    → recv_datagram l (into_bytes (establish n)) c m ≡ done (open_connection l c n m)
unfolding recv_unknown
opens l c n m unknown =
    recv_datagram_unknown l (into_bytes (establish n)) c m unknown
    ∙ ap (λ r. done (recv_unknown l c m r)) (try_from-into_bytes (establish n) tt)

opened_stream :
    (l : ListenerInner) (c n m : ℕ)
    → (open_connection l c n m).streams l.next_stream ≡ some (new_by_peer c n m)
unfolding open_connection add_connection
opened_stream l c n m = rw (==_true l.next_stream l.next_stream refl) refl

-- What the handshake comes to: the ESTABLISH opens a stream at the listener, whose worker sends an ACCEPT
-- and nothing else; with that the attempt to connect gives a stream; and both directions begin.
abbrev pub Connects :
    (Segment → IoResult (Unit {0})) → ListenerInner → ℕ → ℕ → ℕ → ℕ → ℕ → Attempt → Type 0
Connects socket l a c n m now t =
    (recv_datagram l (into_bytes (establish n)) c m ≡ done (open_connection l c n m))
    × ((open_connection l c n m).streams l.next_stream ≡ some (new_by_peer c n m))
    × (worker_round socket now (new_by_peer c n m)
        ≡ done (true, answering socket c n m now, send_to c (sequential m accept) ∷ []))
    × (try_single_connect_to a n t ≡ done (ok (new_by_local a n m), []))
    × Begun (n + 1) (joined_streams (new_by_local a n m) (new_by_peer c n m))
    × Begun (m + 1) (answered (answering socket c n m now) a n m [])

-- A listener that does not know the sender `c`, and an attempt of `c` to connect to it at which first
-- nothing comes, and then, in time, the ACCEPT of number `m`: the ESTABLISH opens a connection at the
-- listener, of which the worker first sends that ACCEPT and nothing else; the attempt gives a stream;
-- and the two streams, in either direction, are a beginning from which the results on two streams go
-- out.
pub handshake :
    (socket : Segment → IoResult (Unit {0})) (l : ListenerInner) (a c n m now : ℕ) (t : Attempt)
    (idle looks : List (ℕ × IoResult (List ℕ))) (passed : ℕ)
    → stream_of l c ≡ none
    → m < 256
    → socket (sequential m accept) ≡ ok tt
    → t.bound ≡ ok tt
    → t.told ≡ ok tt
    → t.started ≡ ok tt
    → t.looks ≡ idle ++ (passed, ok (into_bytes (sequential m accept))) ∷ looks
    → All IsIdle idle
    → passed < conn_timeout
    → Connects socket l a c n m now t
handshake socket l a c n m now t idle looks passed unknown small fine bound told started e h early =
    let bytes = into_bytes (sequential m accept) in
    let (least, most, u8) = into_bytes_bounds (sequential m accept) tt (small, tt) in
    let (connected, served) =
      connects a n m t idle passed bytes looks bound told started e h early u8
        (try_from-into_bytes (sequential m accept) tt) in
    (
      opens l c n m unknown,
      opened_stream l c n m,
      first_round socket c n m now fine,
      connected,
      forth a c n m,
      back (answering socket c n m now) a n m now [] small (pops_queued m now),
    )
