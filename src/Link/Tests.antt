-- ===== src/Link/Tests.antt =====
-- stream/send.rs and stream/recv.rs together: a byte on its way, and its acknowledgement.
use mdswp.Prelude.{◌≡◌, ◌≢◌, refl, inl, List, [], ◌∷◌, ◌++◌, arith}
use mdswp.Util.{Run, done, IoResult, ok}
use mdswp.Segment.{SequentialSegment, accept, payload}
use mdswp.Send.{
  SentSegment, SendStorage, is_empty, push, push_checked, finished_unchecked, try_pop_sent,
  try_pop_unsent, remove_acknowledged, acknowledge,
}
use mdswp.Send
use mdswp.Recv.{
  RecvStorage, recv, check_valid_seq_num, check_presence_of, store, try_slide_window, find_window,
  queue_passed, raise_lower_bound, remove_old, raise_highest, pop_acknowledge,
}
use mdswp.Recv
use mdswp.Link.{
  Sides, Move, pushes, sends, arrives, delivers, answers, acknowledges, here, next, fresh_sides,
}
use mdswp.Link.Reliable.{delivers_pushed, delivers_back}
use mdswp.Link.{answering_sides, with_queued}
use mdswp.Send.{find_sent}
use mdswp.Segment.{seg_eq}
use mdswp.Prelude.{some}

abbrev byte : SequentialSegment
byte = payload (record { bytes = 7 ∷ [] })

abbrev waiting : SendStorage
waiting = record { queue_sent = []; queue_unsent = byte ∷ []; next_unsent = 4 }

abbrev on_the_way : SendStorage
on_the_way = record {
  queue_sent = record { seq_num = 4; segment = byte; last_pop = 1000 } ∷ [];
  queue_unsent = [];
  next_unsent = 5;
}

abbrev done_with : SendStorage
done_with = record { queue_sent = []; queue_unsent = []; next_unsent = 5 }

abbrev storage_of : Run (IoResult (Unit {0}) × RecvStorage) → RecvStorage
storage_of (done (r, s)) = s
storage_of _ = Recv.new_by_peer 0

abbrev got : RecvStorage
got = storage_of (recv (Recv.new_by_peer 3) 4 byte)

abbrev read : RecvStorage
read = (Recv.pop got).1

abbrev asked : RecvStorage
asked = (pop_acknowledge read 2000).1

abbrev pushed_side : Sides
pushed_side = record (fresh_sides 3) { sender = waiting; pushed = byte ∷ [] }

abbrev sent_side : Sides
sent_side = record pushed_side { sender = on_the_way; packets = (4, byte) ∷ [] }

abbrev got_side : Sides
got_side = record sent_side { receiver = record { storage = got; output = [] } }

abbrev read_side : Sides
read_side = record sent_side { receiver = record { storage = read; output = byte ∷ [] } }

abbrev asked_side : Sides
asked_side = record sent_side {
  receiver = record { storage = asked; output = byte ∷ [] };
  acks = (4, 4) ∷ [];
}

abbrev last_side : Sides
last_side = record asked_side { sender = done_with }

not_accept : byte ≢ accept
not_accept e = cc

pushing : Move 4 (fresh_sides 3) pushed_side
unfolding Send.new_by_local push push_checked finished_unchecked is_empty
pushing = pushes byte waiting not_accept refl

sending : Move 4 pushed_side sent_side
unfolding Send.pop try_pop_sent try_pop_unsent
sending = sends 1000 4 4 byte on_the_way refl refl (omega arith) (omega arith)

arriving : Move 4 sent_side got_side
unfolding recv check_valid_seq_num check_presence_of store try_slide_window find_window queue_passed
    raise_lower_bound remove_old Recv.new_by_peer raise_highest
arriving = arrives 4 byte (ok tt) got (inl refl) (omega arith) (omega arith) refl

reading : Move 4 got_side read_side
unfolding recv check_valid_seq_num check_presence_of store try_slide_window find_window queue_passed
    raise_lower_bound remove_old Recv.new_by_peer raise_highest Recv.pop
reading = delivers byte read refl

asking : Move 4 read_side asked_side
unfolding recv check_valid_seq_num check_presence_of store try_slide_window find_window queue_passed
    raise_lower_bound remove_old Recv.new_by_peer raise_highest Recv.pop pop_acknowledge
asking = answers 2000 4 4 asked refl refl

acknowledging : Move 4 asked_side last_side
unfolding acknowledge remove_acknowledged
acknowledging = acknowledges 4 4 (ok tt) done_with (inl refl) (omega arith) refl

delivers_pushed_example :
    (rest : List SequentialSegment) × (last_side.pushed
      ≡ (last_side.receiver.output ++ last_side.receiver.storage.pop_queue) ++ rest)
delivers_pushed_example = delivers_pushed 3 last_side (
    next (next (next (next (next (next here pushing) sending) arriving) reading) asking)
      acknowledging)

-- The other direction: an ACCEPT of number 3, and a byte behind it.
abbrev accepted : SentSegment
accepted = record { seq_num = 3; segment = accept; last_pop = 1000 }

abbrev accept_sent : SendStorage
accept_sent = record { queue_sent = accepted ∷ []; queue_unsent = []; next_unsent = 4 }

abbrev accept_waiting : SendStorage
accept_waiting = record accept_sent { queue_unsent = byte ∷ [] }

abbrev accept_and_byte : SendStorage
accept_and_byte = record {
  queue_sent = accepted ∷ record { seq_num = 4; segment = byte; last_pop = 1000 } ∷ [];
  queue_unsent = [];
  next_unsent = 5;
}

accept_runs :
    Send.pop (with_queued (Send.new_by_peer 3) []) 1000 ≡ done (some (3, accept), accept_sent)
unfolding Send.pop try_pop_sent try_pop_unsent Send.new_by_peer
accept_runs = refl

abbrev back_pushed : Sides
back_pushed = record (answering_sides 3 [] accept_sent) {
  sender = accept_waiting;
  pushed = byte ∷ [];
}

abbrev back_sent : Sides
back_sent = record back_pushed { sender = accept_and_byte; packets = (4, byte) ∷ (3, accept) ∷ [] }

abbrev back_storage : RecvStorage
back_storage = storage_of (recv (Recv.new_by_local 3) 4 byte)

abbrev back_got : Sides
back_got = record back_sent { receiver = record { storage = back_storage; output = [] } }

back_pushing : Move 4 (answering_sides 3 [] accept_sent) back_pushed
unfolding push push_checked finished_unchecked is_empty find_sent seg_eq
back_pushing = pushes byte accept_waiting not_accept refl

back_sending : Move 4 back_pushed back_sent
unfolding Send.pop try_pop_sent try_pop_unsent
back_sending = sends 1000 4 4 byte accept_and_byte refl refl (omega arith) (omega arith)

back_arriving : Move 4 back_sent back_got
unfolding recv check_valid_seq_num check_presence_of store try_slide_window find_window queue_passed
    raise_lower_bound remove_old Recv.new_by_local raise_highest
back_arriving = arrives 4 byte (ok tt) back_storage (inl refl) (omega arith) (omega arith) refl

delivers_back_example :
    (rest : List SequentialSegment) × (back_got.pushed
      ≡ (back_got.receiver.output ++ back_got.receiver.storage.pop_queue) ++ rest)
delivers_back_example =
    delivers_back 3 1000 [] accept_sent back_got (omega arith) accept_runs
      (next (next (next here back_pushing) back_sending) back_arriving)
