-- ===== src/Stream/Tests.antt =====
-- stream/inner.rs: a stream that writes, flushes, runs its worker, finishes and fails.
use mdswp.Prelude.{ℕ, zero, suc, ◌<◌, ◌≡◌, refl, true, false, List, [], ◌∷◌, ◌++◌, length, All}
use mdswp.Util.{IoResult, ok, err, done, conn_timed_out}
use mdswp.Segment.{max_data_len, DataSegment, accept, Segment, seg_eq}
use mdswp.Send.{is_empty, finished_unchecked}
use mdswp.Recv
use mdswp.Stream.{StreamInner, write, flush, error}
use mdswp.Stream.Buffer.{bytes_of, IsFull}
use mdswp.Stream.Split.{write-append}
use mdswp.Stream.Conserve.{queued, IsPiece, write_conserves, flush_conserves}
use mdswp.Stream.Incoming.{read}
use mdswp.Stream.Worker.{worker_round}
use mdswp.Stream.Finish.{write_after_finish}
use mdswp.Recv.{RecvStorage}
use mdswp.Segment.{SequentialSegment, finish, payload}
use mdswp.Stream.Copying.{Reads, read_lem}
use mdswp.Stream.Closing.{finish_write, finish_wait}
use mdswp.Stream.Closed.{queue_finish, finish_write_lem, finish_wait_lost, finish_again_waits}
use mdswp.Send.{push}
use mdswp.Util.{conn_write_finished}
use mdswp.Prelude.{some, none, ◌≢◌}

abbrev zeros : ℕ → List ℕ
zeros zero = []
zeros (suc n) = 0 ∷ zeros n

-- A stream at the peer 7 that the peer has opened, with an ACCEPT to send and a short buffer.
abbrev opened : StreamInner
opened = record {
  peer_addr = 7;
  conn_state = ok tt;
  send_buffer = 1 ∷ 2 ∷ [];
  send_storage = record { queue_sent = []; queue_unsent = accept ∷ []; next_unsent = 5 };
  send_finished = false;
  recv_buffer = [];
  recv_storage = Recv.new_by_peer 3;
  recv_finished = false;
}

write_conserves_example :
    (ds : List DataSegment) × (rest : List ℕ) × (write opened (zeros 600)
      ≡ done (ok (length (zeros 600)), queued opened ds rest))
    × (bytes_of ds ++ rest ≡ opened.send_buffer ++ zeros 600)
    × All IsFull ds
    × (length rest < max_data_len)
unfolding finished_unchecked is_empty seg_eq
write_conserves_example = write_conserves opened refl refl (zeros 600)

write-append_example :
    (t u : StreamInner) × (write opened (zeros 600) ≡ done (ok (length (zeros 600)), t))
    × (write t (zeros 500) ≡ done (ok (length (zeros 500)), u))
    × (write opened (zeros 600 ++ zeros 500) ≡ done (ok (length (zeros 600 ++ zeros 500)), u))
unfolding finished_unchecked is_empty seg_eq
write-append_example = write-append opened (zeros 600) (zeros 500) refl refl

flush_conserves_example :
    (ds : List DataSegment) × (flush opened ≡ done (ok tt, queued opened ds []))
    × (bytes_of ds ≡ opened.send_buffer)
    × All IsPiece ds
unfolding finished_unchecked is_empty seg_eq
flush_conserves_example = flush_conserves opened refl refl

abbrev refuses : Segment → IoResult (Unit {0})
refuses v = err conn_timed_out

-- The peer has sent a segment that waits for its acknowledgement, and all was sent here.
abbrev finished : StreamInner
finished = record opened {
  send_buffer = [];
  send_storage = record { queue_sent = []; queue_unsent = []; next_unsent = 9 };
  send_finished = true;
}

abbrev works : Segment → IoResult (Unit {0})
works v = ok tt

write_after_finish_example :
    (s' : StreamInner) × (write finished (zeros 600) ≡ done (ok (length (zeros 600)), s'))
    × (worker_round works 1000 finished ≡ done (false, finished, []))
    × (worker_round works 1000 s' ≡ done (false, s', []))
unfolding is_empty
write_after_finish_example = write_after_finish works 1000 finished (zeros 600) refl refl refl

-- Two segments are queued, and a FINISH behind them.
abbrev reading : StreamInner
reading = record opened {
  recv_storage = record (Recv.new_by_peer 3) {
    pop_queue =
        payload (record { bytes = 1 ∷ 2 ∷ [] }) ∷ payload (record { bytes = 3 ∷ [] }) ∷ finish ∷ [];
  };
}

read_lem_example : Reads reading 1 (read reading 1)
read_lem_example = read_lem reading 1 (refl, refl)

finish_write_lem_example :
    (ds : List DataSegment) × (finish_write opened
      ≡ done (ok tt, queue_finish (queued opened ds []), []))
    × (bytes_of ds ≡ opened.send_buffer)
    × All IsPiece ds
    × ((v : SequentialSegment)
        → v ≢ accept
        → push (queue_finish (queued opened ds [])).send_storage v
          ≡ done (err conn_write_finished, (queue_finish (queued opened ds [])).send_storage))
unfolding finished_unchecked is_empty seg_eq
finish_write_lem_example = finish_write_lem opened refl refl

finish_wait_lost_example :
    let failed = (error (queue_finish opened) conn_timed_out true).0 in
    (finish_wait failed ≡ some (record failed { send_finished = true }))
    × (failed.conn_state ≡ err conn_timed_out)
finish_wait_lost_example = finish_wait_lost (queue_finish opened) conn_timed_out true refl

finish_again_waits_example :
    (finish_write finished ≡ done (ok tt, queue_finish finished, []))
    × (finish_wait (queue_finish finished) ≡ none)
    × ((now : ℕ)
        → worker_round works now (queue_finish finished) ≡ done (false, queue_finish finished, []))
unfolding is_empty
finish_again_waits_example = finish_again_waits works finished refl refl refl refl

-- A segment of number 5 was sent 2 seconds ago, and another waits.
abbrev busy : StreamInner
busy = record opened {
  send_storage = record {
    queue_sent = record { seq_num = 5; segment = accept; last_pop = 1000 } ∷ [];
    queue_unsent = payload (record { bytes = 1 ∷ [] }) ∷ [];
    next_unsent = 6;
  };
}
