-- ===== src/Listener/Served.antt =====
-- listener/inner.rs and stream/inner.rs: a stream that its listener hands segments to stays in order,
-- or fails and asks to be forgotten.
use mdswp.Prelude.{
  ℕ, ◌+◌, ◌<◌, ◌≡◌, refl, ◌∙◌, ap, inl, inr, Bool, true, false, List, [], ◌∷◌, arith, if◌then◌else◌,
  Bool-cases, leb,
}
use mdswp.Util.{
  IoError, IoResult, ok, err, Run, done, window_size, wrapping_sub, conn_reset_by_peer,
  conn_unexp_establish, conn_unexp_seg, invalid_ack,
}
use mdswp.Segment.{SequentialSegment, Segment, establish, reset, acknowledge, sequential}
use mdswp.Segment.RoundTrip.{IsU8}
use mdswp.Send.{SentSegment, SendStorage, acknowledged}
use mdswp.Send
use mdswp.Send.Loop.{length-unacknowledged, unacknowledged, acknowledge_lem}
use mdswp.Recv.{RecvStorage, recv}
use mdswp.Recv.Start.{new_by_peer-Tracks}
use mdswp.Recv.Bound.{IsValid, Any, recv-IsValid}
use mdswp.Stream.{SocketAddr, StreamInner, Effect, remove_connection, send_to, error, new_by_peer}
use mdswp.Stream.Due.{IsBounded}
use mdswp.Stream.Incoming.{Outcome, recv_acknowledge, recv_sequential, recv_segment}

-- A stream without error that its listener knows as the peer `a`.
pub record IsServed (a : SocketAddr) (s : StreamInner) : Type 0 where
  pub peer : s.peer_addr ≡ a
  pub fine : s.conn_state ≡ ok tt
  pub valid : IsValid s.recv_storage
  pub bounded : IsBounded s.send_storage

-- What a failing stream asks of its listener.
abbrev pub farewell : SocketAddr → Bool → List Effect
farewell a told = remove_connection a ∷ (if told then send_to a reset ∷ [] else [])

-- A call of the listener on the stream of the peer `a`.
pub data Serves (a : SocketAddr) (out : Run Outcome) : Type 0 where
  kept : (s' : StreamInner) → out ≡ done (s', []) → IsServed a s' → Serves a out
  failed : (s' : StreamInner) (told : Bool) → out ≡ done (s', farewell a told) → Serves a out

error_fine :
    (s : StreamInner) (e : IoError) (told : Bool)
    → s.conn_state ≡ ok tt
    → error s e told ≡ ((error s e told).0, farewell s.peer_addr told)
unfolding error
error_fine s e told fine = ground arith

pub error-Serves :
    (a : SocketAddr) (s : StreamInner) (e : IoError) (told : Bool)
    → IsServed a s
    → Serves a (done (error s e told))
error-Serves a s e told v = failed (error s e told).0 told (
    ap done (error_fine s e told v.fine)
    ∙ ap (λ b. done ((error s e told).0, farewell b told)) v.peer)

Serves-same :
    {a : SocketAddr} {inner out : Run Outcome} → out ≡ inner → Serves a inner → Serves a out
Serves-same e (kept s' h v) = kept s' (e ∙ h) v
Serves-same e (failed s' told h) = failed s' told (e ∙ h)

recv_acknowledge-Serves :
    (a : SocketAddr) (s : StreamInner) (n : ℕ) → IsServed a s → Serves a (recv_acknowledge s n)
unfolding recv_acknowledge
recv_acknowledge-Serves a s n v =
    elim (Bool-cases (leb window_size (wrapping_sub s.send_storage.next_unsent n))) [
      | inl out ↦
          Serves-same (rw (acknowledge_lem s.send_storage n, out))
            (error-Serves a s (conn_unexp_seg (invalid_ack n)) true v)
      | inr good ↦
          kept
            (record s {
              send_storage = record s.send_storage {
                queue_sent = unacknowledged n s.send_storage.queue_sent;
              };
            })
            (rw (acknowledge_lem s.send_storage n, good))
            (record {
              peer = v.peer;
              fine = v.fine;
              valid = v.valid;
              bounded = omega (arith, v.bounded, length-unacknowledged n s.send_storage.queue_sent);
            })
    ]

recv_sequential-Serves :
    (a : SocketAddr) (s : StreamInner) (n : ℕ) (u : SequentialSegment)
    → n < 256
    → IsServed a s
    → Serves a (recv_sequential s n u)
unfolding recv_sequential
recv_sequential-Serves a s n u small v =
    let (r, st, ran, valid) = recv-IsValid n u v.valid small in
    let t : StreamInner = record s { recv_storage = st } in
    let served : IsServed a t = record {
      peer = v.peer;
      fine = v.fine;
      valid = valid;
      bounded = v.bounded;
    } in
    by_result r st ran served
  where
    by_result :
        (r : IoResult (Unit {0})) (st : RecvStorage)
        → recv s.recv_storage n u ≡ done (r, st)
        → IsServed a (record s { recv_storage = st })
        → Serves a (recv_sequential s n u)
    by_result (ok u') st ran served = kept (record s { recv_storage = st }) (rw ran) served
    by_result (err e) st ran served =
        Serves-same (rw ran) (error-Serves a (record s { recv_storage = st }) e true served)

-- A number of 256 or more does not come out of bytes.
pub recv_segment-Serves :
    (a : SocketAddr) (s : StreamInner) (v : Segment)
    → IsU8 v
    → IsServed a s
    → Serves a (recv_segment s v)
unfolding recv_segment
recv_segment-Serves a s reset small v = error-Serves a s conn_reset_by_peer false v
recv_segment-Serves a s (establish n) small v = error-Serves a s conn_unexp_establish true v
recv_segment-Serves a s (acknowledge n) small v = recv_acknowledge-Serves a s n v
recv_segment-Serves a s (sequential n u) small v = recv_sequential-Serves a s n u small.0 v

pub new_by_peer-IsServed : (a n m : ℕ) → IsServed a (new_by_peer a n m)
unfolding new_by_peer Send.new_by_peer
new_by_peer-IsServed a n m = record {
  peer = refl;
  fine = refl;
  valid = record { lo = n + 1; w = n + 1; tracks = new_by_peer-Tracks Any n };
  bounded = omega arith;
}
