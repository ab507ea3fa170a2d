-- ===== src/Wire/Tests.antt =====
-- stream/inner.rs: runs of two streams, and the results on them at concrete runs.
use mdswp.Prelude.{ℕ, ◌≡◌, refl, true, List, [], ◌∷◌, ◌++◌, arith}
use mdswp.Send.{
  SentSegment, SendStorage, is_empty, push, push_checked, finished_unchecked, try_pop_sent,
  try_pop_unsent, remove_acknowledged, acknowledge, find_sent,
}
use mdswp.Send
use mdswp.Recv.{
  RecvStorage, recv, check_valid_seq_num, check_presence_of, store, try_slide_window, find_window,
  queue_passed, raise_lower_bound, remove_old, raise_highest, pop_acknowledge,
}
use mdswp.Recv
use mdswp.Stream.{StreamInner}
use mdswp.Stream.Reading.{bytes_before_finish}
use mdswp.Segment.{accept}
use mdswp.Wire.Whole.{answered, back, Begun, reads_written, reads_to_end, settled_received}
use mdswp.Wire.Scenario.{
  byte, near_with, queue_of, both_taken, heard_wire, beginning, until_taken, until_heard,
}

reads_written_example : (rest : List ℕ) × (both_taken.written ≡ both_taken.bytes_read ++ rest)
reads_written_example = reads_written beginning until_taken

reads_to_end_example : both_taken.bytes_read ≡ bytes_before_finish both_taken.pushed
reads_to_end_example = reads_to_end beginning until_taken refl refl

nothing_left : is_empty heard_wire.near.send_storage ≡ true
unfolding is_empty
nothing_left = refl

settled_received_example :
    heard_wire.pushed ≡ heard_wire.output ++ heard_wire.far.recv_storage.pop_queue
settled_received_example = settled_received beginning until_heard refl refl nothing_left

-- The other direction, with a byte that was flushed before the ACCEPT was popped.
abbrev accepting_near : StreamInner
accepting_near =
    near_with []
      (queue_of (record { seq_num = 3; segment = accept; last_pop = 1000 } ∷ []) (byte ∷ []) 4)

accepting : Begun 4 (answered accepting_near 1 50 3 (byte ∷ []))
unfolding Send.pop try_pop_sent try_pop_unsent Send.new_by_peer
accepting = back accepting_near 1 50 3 1000 (byte ∷ []) (omega arith) refl
