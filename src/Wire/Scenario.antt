-- ===== src/Wire/Scenario.antt =====
-- stream/inner.rs: one byte and a FINISH go from one stream to the other, atom by atom.
use mdswp.Prelude.{ℕ, refl, inl, inr, Bool, true, false, List, [], ◌∷◌, arith}
use mdswp.Util.{Run, done, IoResult, ok}
use mdswp.Segment.{SequentialSegment, finish, payload, data_try_from, seg_eq}
use mdswp.Send.{
  SentSegment, SendStorage, is_empty, push, push_checked, finished_unchecked, try_pop_sent,
  try_pop_unsent, remove_acknowledged, acknowledge, find_sent,
}
use mdswp.Send
use mdswp.Recv.{
  RecvStorage, recv, check_valid_seq_num, check_presence_of, store, try_slide_window, find_window,
  queue_passed, raise_lower_bound, remove_old, raise_highest, pop_acknowledge,
}
use mdswp.Recv
use mdswp.Stream.{StreamInner, new_by_local, new_by_peer, push_bytes}
use mdswp.Stream.Incoming.{take_segment}
use mdswp.Wire.{
  Wire, Act, near_sends, far_receives, Acts, here, next, appends, cuts, finishes, draws, hears,
  arrives, takes, copies, answers, joined_streams,
}
use mdswp.Wire.Whole.{Begun, forth}

abbrev pub byte : SequentialSegment
byte = payload (record { bytes = 7 ∷ [] })

abbrev pub storage_of : Run (IoResult (Unit {0}) × RecvStorage) → RecvStorage
storage_of (done (r, s)) = s
storage_of _ = Recv.new_by_peer 0

abbrev pub near_with : List ℕ → SendStorage → StreamInner
near_with buf st = record {
  peer_addr = 1;
  conn_state = ok tt;
  send_buffer = buf;
  send_storage = st;
  send_finished = false;
  recv_buffer = [];
  recv_storage = Recv.new_by_local 100;
  recv_finished = false;
}

abbrev pub far_with : List ℕ → RecvStorage → Bool → StreamInner
far_with buf st over = record {
  peer_addr = 2;
  conn_state = ok tt;
  send_buffer = [];
  send_storage = Send.new_by_peer 100;
  send_finished = false;
  recv_buffer = buf;
  recv_storage = st;
  recv_finished = over;
}

abbrev pub queue_of : List SentSegment → List SequentialSegment → ℕ → SendStorage
queue_of sent unsent n = record { queue_sent = sent; queue_unsent = unsent; next_unsent = n }

abbrev pub sent_byte : SentSegment
sent_byte = record { seq_num = 4; segment = byte; last_pop = 1000 }

abbrev pub sent_finish : SentSegment
sent_finish = record { seq_num = 5; segment = finish; last_pop = 1000 }

abbrev pub got_byte : RecvStorage
got_byte = storage_of (recv (Recv.new_by_peer 3) 4 byte)

abbrev pub got_both : RecvStorage
got_both = storage_of (recv got_byte 5 finish)

abbrev pub took_byte : RecvStorage
took_byte = (Recv.pop got_both).1

abbrev pub took_both : RecvStorage
took_both = (Recv.pop took_byte).1

abbrev pub told : RecvStorage
told = (pop_acknowledge took_both 2000).1

abbrev pub fresh : Wire
fresh = joined_streams (near_with [] (Send.new_by_local 3)) (far_with [] (Recv.new_by_peer 3) false)

abbrev pub written_wire : Wire
written_wire = record fresh { near = near_with (7 ∷ []) (Send.new_by_local 3); written = 7 ∷ [] }

abbrev pub cut_wire : Wire
cut_wire = record written_wire {
  near = near_with [] (queue_of [] (byte ∷ []) 4);
  pushed = byte ∷ [];
}

abbrev pub finished_wire : Wire
finished_wire = record cut_wire {
  near = near_with [] (queue_of [] (byte ∷ finish ∷ []) 4);
  pushed = byte ∷ finish ∷ [];
}

abbrev pub one_sent : Wire
one_sent = record finished_wire {
  near = near_with [] (queue_of (sent_byte ∷ []) (finish ∷ []) 5);
  packets = (4, byte) ∷ [];
}

abbrev pub both_sent : Wire
both_sent = record finished_wire {
  near = near_with [] (queue_of (sent_byte ∷ sent_finish ∷ []) [] 6);
  packets = (5, finish) ∷ (4, byte) ∷ [];
}

abbrev pub one_got : Wire
one_got = record both_sent { far = far_with [] got_byte false }

abbrev pub both_got : Wire
both_got = record both_sent { far = far_with [] got_both false }

abbrev pub one_taken : Wire
one_taken = record both_sent { far = far_with (7 ∷ []) took_byte false; output = byte ∷ [] }

abbrev pub one_read : Wire
one_read = record both_sent {
  far = far_with [] took_byte false;
  output = byte ∷ [];
  bytes_read = 7 ∷ [];
}

abbrev pub both_taken : Wire
both_taken = record one_read { far = far_with [] took_both true; output = byte ∷ finish ∷ [] }

abbrev pub both_told : Wire
both_told = record both_taken { far = far_with [] told true; acks = (5, 5) ∷ [] }

abbrev pub heard_wire : Wire
heard_wire = record both_told { near = near_with [] (queue_of [] [] 6) }

pub writing : Act 4 fresh written_wire
writing = near_sends refl (appends (7 ∷ [])) tt

pub cutting : Act 4 written_wire cut_wire
unfolding Send.new_by_local push_bytes data_try_from push push_checked finished_unchecked is_empty
cutting = near_sends refl (cuts 1 (queue_of [] (byte ∷ []) 4) refl) tt

pub finishing : Act 4 cut_wire finished_wire
unfolding push push_checked finished_unchecked is_empty seg_eq
finishing = near_sends refl (finishes (queue_of [] (byte ∷ finish ∷ []) 4) refl) tt

pub sending_byte : Act 4 finished_wire one_sent
unfolding Send.pop try_pop_sent try_pop_unsent
sending_byte =
    near_sends refl (draws 1000 4 4 byte (queue_of (sent_byte ∷ []) (finish ∷ []) 5) refl)
      (refl, omega (arith), omega (arith))

pub sending_finish : Act 4 one_sent both_sent
unfolding Send.pop try_pop_sent try_pop_unsent
sending_finish =
    near_sends refl (draws 1000 5 5 finish (queue_of (sent_byte ∷ sent_finish ∷ []) [] 6) refl)
      (refl, omega (arith), omega (arith))

pub byte_arrives : Act 4 both_sent one_got
unfolding recv check_valid_seq_num check_presence_of store try_slide_window find_window queue_passed
    raise_lower_bound remove_old Recv.new_by_peer raise_highest
byte_arrives =
    far_receives refl (arrives 4 4 byte (ok tt) got_byte refl)
      (refl, inr (inl refl), omega (arith), omega (arith))

pub finish_arrives : Act 4 one_got both_got
unfolding recv check_valid_seq_num check_presence_of store try_slide_window find_window queue_passed
    raise_lower_bound remove_old Recv.new_by_peer raise_highest
finish_arrives =
    far_receives refl (arrives 5 5 finish (ok tt) got_both refl)
      (refl, inl refl, omega (arith), omega (arith))

pub taking_byte : Act 4 both_got one_taken
unfolding recv check_valid_seq_num check_presence_of store try_slide_window find_window queue_passed
    raise_lower_bound remove_old Recv.new_by_peer raise_highest Recv.pop take_segment
taking_byte = far_receives refl (takes byte took_byte refl refl refl) tt

pub copying : Act 4 one_taken one_read
copying = far_receives refl (copies 1) tt

pub taking_finish : Act 4 one_read both_taken
unfolding recv check_valid_seq_num check_presence_of store try_slide_window find_window queue_passed
    raise_lower_bound remove_old Recv.new_by_peer raise_highest Recv.pop take_segment
taking_finish = far_receives refl (takes finish took_both refl refl refl) tt

pub telling : Act 4 both_taken both_told
unfolding recv check_valid_seq_num check_presence_of store try_slide_window find_window queue_passed
    raise_lower_bound remove_old Recv.new_by_peer raise_highest Recv.pop pop_acknowledge
telling = far_receives refl (answers 2000 5 5 told refl) refl

pub hearing : Act 4 both_told heard_wire
unfolding acknowledge remove_acknowledged
hearing = near_sends refl (hears 5 5 (ok tt) (queue_of [] [] 6) refl) (inl refl, omega (arith))

pub beginning : Begun 4 fresh
unfolding new_by_local new_by_peer
beginning = forth 1 2 3 100

pub until_taken : Acts 4 fresh both_taken
until_taken =
    next
      (next
        (next
          (next
            (next
              (next (next (next (next (next here writing) cutting) finishing) sending_byte)
                sending_finish)
              byte_arrives)
            finish_arrives)
          taking_byte)
        copying)
      taking_finish

pub until_heard : Acts 4 fresh heard_wire
until_heard = next (next until_taken telling) hearing
