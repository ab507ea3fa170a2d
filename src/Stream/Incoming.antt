-- ===== src/Stream/Incoming.antt =====
-- stream/inner.rs: what the listener hands to a stream, and `read`.
use mdswp.Prelude.{
  ℕ, zero, suc, true, false, none, some, List, [], ◌∷◌, ◌++◌, length, take, drop, min,
}
use mdswp.Util.{
  IoResult, ok, err, Run, done, hang, ◌>>=◌, conn_reset_by_peer, conn_unexp_establish,
  conn_read_finished,
}
use mdswp.Segment.{
  SequentialSegment, accept, finish, payload, Segment, establish, reset, acknowledge, sequential,
}
use mdswp.Send.{SendStorage}
use mdswp.Send
use mdswp.Recv.{recv, pop}
use mdswp.Stream.{StreamInner, Effect, error, is_read_finished}

-- A state with what has been asked of the listener.
abbrev pub Outcome : Type 0
Outcome = StreamInner × List Effect

-- An error of a storage becomes the error of the stream, and the peer is told.
abbrev pub after_storage : IoResult (Unit {0}) → StreamInner → Outcome
after_storage (ok _) s = (s, [])
after_storage (err e) s = error s e true

unfoldable pub recv_acknowledge : StreamInner → ℕ → Run Outcome
recv_acknowledge s seq_num = Send.acknowledge s.send_storage seq_num >>= λ p.
    done (after_storage p.0 (record s { send_storage = p.1 }))

unfoldable pub recv_sequential : StreamInner → ℕ → SequentialSegment → Run Outcome
recv_sequential s seq_num variant = recv s.recv_storage seq_num variant >>= λ p.
    done (after_storage p.0 (record s { recv_storage = p.1 }))

unfoldable pub recv_segment : StreamInner → Segment → Run Outcome
recv_segment s reset = done (error s conn_reset_by_peer false)
recv_segment s (establish n) = done (error s conn_unexp_establish true)
recv_segment s (acknowledge n) = recv_acknowledge s n
recv_segment s (sequential n v) = recv_sequential s n v

-- One segment that is popped by `read`; a FINISH ends the reading, an ACCEPT is skipped.
unfoldable pub take_segment : StreamInner → SequentialSegment → StreamInner
take_segment s finish = record s { recv_finished = true }
take_segment s (payload d) = record s { recv_buffer = s.recv_buffer ++ d.bytes }
take_segment s accept = s

-- The loop of `read`: `hang` means that it waits, with nothing to pop.
unfoldable pub read_loop : ℕ → StreamInner → Run (IoResult (Unit {0}) × StreamInner)
read_loop zero s = hang
read_loop (suc f) s = elim s.recv_buffer [
  | b ∷ bs ↦ done (ok tt, s)
  | [] ↦ elim (is_read_finished s) [
    | err e ↦ done (err e, s)
    | ok true ↦ done (ok tt, s)
    | ok false ↦ elim (pop s.recv_storage).0 [
      | none ↦ hang
      | some v ↦ read_loop f (take_segment (record s { recv_storage = (pop s.recv_storage).1 }) v)
    ]
  ]
]

-- `read` into a buffer of `size` bytes, with what is queued already: one round of the loop for each
-- queued segment, and one to stop. The bytes that are copied are the result.
unfoldable pub read : StreamInner → ℕ → Run (IoResult (List ℕ) × StreamInner)
read s size = elim (is_read_finished s) [
  | err e ↦ done (err e, s)
  | ok true ↦ done (err conn_read_finished, s)
  | ok false ↦ read_loop (suc (suc (length s.recv_storage.pop_queue))) s >>= λ p. elim p.0 [
    | err e ↦ done (err e, p.1)
    | ok _ ↦
        let len = min (length p.1.recv_buffer) size in
        done
          (ok (take len p.1.recv_buffer), record (p.1) { recv_buffer = drop len p.1.recv_buffer })
  ]
]
