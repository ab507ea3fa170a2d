-- ===== src/Stream/Closed.antt =====
-- stream/inner.rs: what `finish_write` sends and when its wait ends; what the drop of a stream does.
use mdswp.Prelude.{
  ℕ, ◌≡◌, refl, ◌||◌, sym, subst, ◌≢◌, ◌&&◌, Bool, true, false, none, some, List, [], ◌∷◌, ◌++◌,
  append-nil, arith, All, if◌then◌else◌,
}
use mdswp.Util.{IoError, IoResult, ok, err, done, conn_write_finished, conn_reset_local}
use mdswp.Segment.{DataSegment, SequentialSegment, finish, payload, reset, Segment, accept, seg_eq}
use mdswp.Send.{
  SentSegment, SendStorage, null, is_empty, push, push_checked, finished_unchecked, clear,
}
use mdswp.Stream.{
  StreamInner, remove_connection, send_to, error, is_err, flush, flush_loop, is_write_finished,
  is_read_finished, reset_stream, stream_state,
}
use mdswp.Stream.Buffer.{Unfinished, queue_data, bytes_of, cut-cons, last-append, piece-Unfinished}
use mdswp.Stream.Conserve.{queued, IsPiece, flush_conserves}
use mdswp.Stream.Worker.{worker_round}
use mdswp.Stream.Finish.{round_of_finished}
use mdswp.Stream.Closing.{push_finish, finish_write, finish_wait, drop_stream}

-- FINISH behind what is queued.
abbrev pub queue_finish : StreamInner → StreamInner
queue_finish s = record s {
  send_storage = record s.send_storage {
    queue_unsent = s.send_storage.queue_unsent ++ finish ∷ [];
  };
}

push_finish_lem :
    (s : StreamInner) → Unfinished s.send_storage → push_finish s ≡ done (ok tt, queue_finish s, [])
unfolding push_finish push push_checked
push_finish_lem s h = rw h

finish_write_runs :
    (s t : StreamInner)
    → flush s ≡ done (ok tt, t)
    → Unfinished t.send_storage
    → finish_write s ≡ done (ok tt, queue_finish t, [])
unfolding finish_write
finish_write_runs s t e h = rw e (push_finish_lem t h)

queue_data-Unfinished :
    (ds : List DataSegment) (st : SendStorage) → Unfinished st → Unfinished (queue_data st ds)
queue_data-Unfinished [] st h =
    subst (λ us. Unfinished (record st { queue_unsent = us })) (sym (append-nil st.queue_unsent)) h
queue_data-Unfinished (d ∷ ds) st h =
    subst Unfinished (cut-cons st d ds)
      (queue_data-Unfinished ds (queue_data st (d ∷ [])) (piece-Unfinished st d))

finish_last :
    (sent : List SentSegment) (us : List SequentialSegment) (n : ℕ)
    → finished_unchecked
        (record { queue_sent = sent; queue_unsent = us ++ finish ∷ []; next_unsent = n })
      ≡ done true
unfolding finished_unchecked is_empty seg_eq
finish_last sent [] n = ground arith
finish_last sent (u ∷ us) n = ground (arith, last-append u us finish)

module _ (s : StreamInner) where
  queue_finish-finished : finished_unchecked (queue_finish s).send_storage ≡ done true
  queue_finish-finished =
      finish_last s.send_storage.queue_sent s.send_storage.queue_unsent s.send_storage.next_unsent

  push_refused :
      (v : SequentialSegment)
      → v ≢ accept
      → push (queue_finish s).send_storage v
        ≡ done (err conn_write_finished, (queue_finish s).send_storage)
  unfolding push push_checked
  push_refused accept ne = absurd (ne refl)
  push_refused finish ne = rw (queue_finish-finished)
  push_refused (payload d) ne = rw (queue_finish-finished)

-- On a connection without error and with no FINISH pushed last, `finish_write` gets as far as its
-- wait with no error: the whole buffer is queued as DATA, in order, with a FINISH behind it. After
-- that FINISH and DATA are refused as long as the FINISH is the last in the queue.
pub finish_write_lem :
    (s : StreamInner)
    → s.conn_state ≡ ok tt
    → Unfinished s.send_storage
    → (ds : List DataSegment) × (finish_write s ≡ done (ok tt, queue_finish (queued s ds []), []))
      × (bytes_of ds ≡ s.send_buffer)
      × All IsPiece ds
      × ((v : SequentialSegment)
          → v ≢ accept
          → push (queue_finish (queued s ds [])).send_storage v
            ≡ done (err conn_write_finished, (queue_finish (queued s ds [])).send_storage))
finish_write_lem s fine open_end =
    let (ds, ran, kept, sizes) = flush_conserves s fine open_end in
    (
      ds,
      finish_write_runs s (queued s ds []) ran (queue_data-Unfinished ds s.send_storage open_end),
      kept,
      sizes,
      push_refused (queued s ds []),
    )

-- A defect: while `finish_write` waits, any error of the stream clears what was not acknowledged,
-- and the wait ends as if all had arrived: the call returns `ok`.
pub finish_wait_lost :
    (s : StreamInner) (e : IoError) (told : Bool)
    → s.conn_state ≡ ok tt
    → let failed = (error s e told).0 in
      (finish_wait failed ≡ some (record failed { send_finished = true }))
      × (failed.conn_state ≡ err e)
unfolding error finish_wait is_empty clear
finish_wait_lost s e told fine = (ground arith, ground arith)

flush_nothing :
    (s : StreamInner) → s.conn_state ≡ ok tt → s.send_buffer ≡ [] → flush s ≡ done (ok tt, s)
unfolding flush flush_loop stream_state
flush_nothing s fine e = ground arith

not_null : (us : List SequentialSegment) (v : SequentialSegment) → null (us ++ v ∷ []) ≡ false
not_null [] v = refl
not_null (u ∷ us) v = refl

waits_on : (s : StreamInner) → finish_wait (queue_finish s) ≡ none
unfolding finish_wait is_empty
waits_on s = ground (arith, not_null s.send_storage.queue_unsent finish)

-- A defect: once the writing is finished and all was acknowledged, a second `finish_write` with an
-- empty buffer is not refused. It queues another FINISH and waits, and no round of the worker sends
-- it, so that the wait goes on.
pub finish_again_waits :
    (socket : Segment → IoResult (Unit {0})) (s : StreamInner)
    → s.conn_state ≡ ok tt
    → s.send_finished ≡ true
    → s.send_buffer ≡ []
    → is_empty s.send_storage ≡ true
    → (finish_write s ≡ done (ok tt, queue_finish s, []))
      × (finish_wait (queue_finish s) ≡ none)
      × ((now : ℕ) → worker_round socket now (queue_finish s) ≡ done (false, queue_finish s, []))
unfolding finished_unchecked
finish_again_waits socket s fine over no_bytes empty =
    let unfinished : Unfinished s.send_storage = rw empty in
    (
      finish_write_runs s s (flush_nothing s fine no_bytes) unfinished,
      waits_on s,
      λ now. round_of_finished socket now (queue_finish s) tt fine over,
    )

-- A dropped stream: nothing happens to one with an error, or finished on both sides; any other
-- is reset, the listener forgets the peer, and the peer is told. Nothing panics.
pub drop_stream_lem :
    (s : StreamInner)
    → drop_stream s
      ≡ done (
          if is_err s || (s.send_finished && s.recv_finished) then (s, []) else (
            (error s conn_reset_local true).0,
            remove_connection s.peer_addr ∷ send_to s.peer_addr reset ∷ [],
          ))
unfolding drop_stream is_err is_write_finished is_read_finished reset_stream stream_state error
drop_stream_lem s = ground arith
