-- ===== src/Wire.antt =====
-- stream/inner.rs: two streams joined by a network, and the threads of both interleaved. An atom is
-- what one thread does while it holds a lock; between two atoms any other thread may come in.
pub mod Carried
pub mod Refused
pub mod Bytes
pub mod Delivered
pub mod Whole
pub mod Unroll
pub mod Methods
pub mod Reads
pub mod Mover
pub mod Works
pub mod Rounds
pub mod Calls
pub mod Handlers
pub mod Finishing
pub mod Refines
pub mod Lifted
pub mod Drains
pub mod Settles
pub mod Hosted
pub mod Datagrams
pub mod Handshake
mod Scenario
mod Opened
mod Tests
use mdswp.Prelude.{
  ℕ, suc, ◌+◌, ◌%◌, ◌≤◌, ◌<◌, ◌≡◌, Bool, true, false, Option, none, some, List, [], ◌∷◌, ◌++◌, take,
  drop, length,
}
use mdswp.Util.{IoError, IoResult, ok, err, Run, done}
use mdswp.Segment.{DataSegment, SequentialSegment, finish, payload}
use mdswp.Send.{SendStorage, is_empty, push, acknowledge}
use mdswp.Send
use mdswp.Recv.{RecvStorage, recv, pop_acknowledge}
use mdswp.Recv
use mdswp.Recv.Order.{Receiver, window_position, lower_position}
use mdswp.Stream.{StreamInner, error, push_bytes}
use mdswp.Stream.Incoming.{take_segment}
use mdswp.Link.{In, next_position}

-- What an atom of the sending half tells: bytes that were given to `write`, a segment that was
-- queued, one that was sent from a position, and an acknowledgement of a position that came in.
pub data SendNote : Type 0 where
  nothing : SendNote
  wrote : List ℕ → SendNote
  queued : SequentialSegment → SendNote
  sent : ℕ → ℕ → SequentialSegment → SendNote
  heard : ℕ → ℕ → SendNote

-- What an atom of the receiving half tells: a segment of a position that came in, one that `read`
-- took, bytes that it gave, and an acknowledgement that was sent for a position.
pub data RecvNote : Type 0 where
  nothing : RecvNote
  got : ℕ → ℕ → SequentialSegment → RecvNote
  took : SequentialSegment → RecvNote
  gave : List ℕ → RecvNote
  answered : ℕ → ℕ → RecvNote

abbrev pub piece : ℕ → List ℕ → DataSegment
piece n buf = record { bytes = take n buf }

-- The atoms of `write`, `flush`, `finish_write`, of the worker, and of an acknowledgement.
pub data SendAtom (s : StreamInner) : StreamInner → SendNote → Type 0 where
  appends :
      (bytes : List ℕ)
      → SendAtom s (record s { send_buffer = s.send_buffer ++ bytes }) (wrote bytes)
  cuts :
      (n : ℕ) (st : SendStorage)
      → push_bytes s.send_storage (take n s.send_buffer) ≡ done (ok tt, st)
      → SendAtom s
          (record s { send_buffer = drop n s.send_buffer; send_storage = st })
          (queued (payload (piece n s.send_buffer)))
  cut_refused :
      (n : ℕ) (e : IoError) (st : SendStorage)
      → push_bytes s.send_storage (take n s.send_buffer) ≡ done (err e, st)
      → SendAtom s (record s { send_buffer = drop n s.send_buffer; send_storage = st }) nothing
  finishes :
      (st : SendStorage)
      → push s.send_storage finish ≡ done (ok tt, st)
      → SendAtom s (record s { send_storage = st }) (queued finish)
  finish_refused :
      (e : IoError) (st : SendStorage)
      → push s.send_storage finish ≡ done (err e, st)
      → SendAtom s (record s { send_storage = st }) nothing
  settles : is_empty s.send_storage ≡ true → SendAtom s (record s { send_finished = true }) nothing
  draws :
      (now i n : ℕ) (v : SequentialSegment) (st : SendStorage)
      → Send.pop s.send_storage now ≡ done (some (n, v), st)
      → SendAtom s (record s { send_storage = st }) (sent i n v)
  draws_none :
      (now : ℕ) (st : SendStorage)
      → Send.pop s.send_storage now ≡ done (none, st)
      → SendAtom s (record s { send_storage = st }) nothing
  hears :
      (i n : ℕ) (r : IoResult (Unit {0})) (st : SendStorage)
      → acknowledge s.send_storage n ≡ done (r, st)
      → SendAtom s (record s { send_storage = st }) (heard i n)

-- The atoms of `read`, of the worker, and of a numbered segment that comes in.
pub data RecvAtom (s : StreamInner) : StreamInner → RecvNote → Type 0 where
  arrives :
      (i n : ℕ) (v : SequentialSegment) (r : IoResult (Unit {0})) (st : RecvStorage)
      → recv s.recv_storage n v ≡ done (r, st)
      → RecvAtom s (record s { recv_storage = st }) (got i n v)
  takes :
      (v : SequentialSegment) (st : RecvStorage)
      → s.recv_buffer ≡ []
      → s.recv_finished ≡ false
      → Recv.pop s.recv_storage ≡ (some v, st)
      → RecvAtom s (take_segment (record s { recv_storage = st }) v) (took v)
  copies :
      (n : ℕ)
      → RecvAtom s (record s { recv_buffer = drop n s.recv_buffer }) (gave (take n s.recv_buffer))
  answers :
      (now i n : ℕ) (st : RecvStorage)
      → pop_acknowledge s.recv_storage now ≡ (some n, st)
      → RecvAtom s (record s { recv_storage = st }) (answered i n)
  is_quiet :
      (now : ℕ) (st : RecvStorage)
      → pop_acknowledge s.recv_storage now ≡ (none, st)
      → RecvAtom s (record s { recv_storage = st }) nothing

-- The near stream writes to the far one. The rest is history: the bytes given to `write` and those
-- that `read` gave, the segments that were queued and those that were taken, and what the network
-- holds of either kind, each with its position.
pub record Wire : Type 0 where
  pub near : StreamInner
  pub far : StreamInner
  pub written : List ℕ
  pub pushed : List SequentialSegment
  pub packets : List (ℕ × SequentialSegment)
  pub acks : List (ℕ × ℕ)
  pub output : List SequentialSegment
  pub bytes_read : List ℕ

abbrev pub receiver_of : Wire → Receiver
receiver_of w = record { storage = w.far.recv_storage; output = w.output }

abbrev more_written : SendNote → List ℕ → List ℕ
more_written (wrote bytes) xs = xs ++ bytes
more_written _ xs = xs

abbrev more_pushed : SendNote → List SequentialSegment → List SequentialSegment
more_pushed (queued v) vs = vs ++ v ∷ []
more_pushed _ vs = vs

abbrev more_packets : SendNote → List (ℕ × SequentialSegment) → List (ℕ × SequentialSegment)
more_packets (sent i n v) ps = (i, v) ∷ ps
more_packets _ ps = ps

abbrev more_taken : RecvNote → List SequentialSegment → List SequentialSegment
more_taken (took v) vs = vs ++ v ∷ []
more_taken _ vs = vs

abbrev more_read : RecvNote → List ℕ → List ℕ
more_read (gave bytes) xs = xs ++ bytes
more_read _ xs = xs

abbrev more_acks : RecvNote → List (ℕ × ℕ) → List (ℕ × ℕ)
more_acks (answered i n) ns = (i, n) ∷ ns
more_acks _ ns = ns

abbrev pub note_send : SendNote → Wire → Wire
note_send note w = record w {
  written = more_written note w.written;
  pushed = more_pushed note w.pushed;
  packets = more_packets note w.packets;
}

abbrev pub note_recv : RecvNote → Wire → Wire
note_recv note w = record w {
  output = more_taken note w.output;
  bytes_read = more_read note w.bytes_read;
  acks = more_acks note w.acks;
}

module _ (start : ℕ) where
  -- A position has the number that was sent, and is one of the ten before the next; an acknowledgement that comes in was sent, and is
  -- not so late that its number has come round.
  abbrev pub MaySend : SendNote → Wire → StreamInner → Type 0
  MaySend (sent i n v) w s =
      (n ≡ i % 256)
      × (i < next_position start s.send_storage w.pushed)
      × (next_position start s.send_storage w.pushed ≤ i + 10)
  MaySend (heard i n) w s =
      In (i, n) w.acks × (next_position start w.near.send_storage w.pushed < i + 256)
  MaySend _ w s = Unit

  -- A segment that comes in has the number of its position, was sent, and is not so late that its number has come round; an
  -- acknowledgement is sent for the position before the window.
  abbrev pub MayReceive : RecvNote → Wire → Type 0
  MayReceive (got i n v) w =
      (n ≡ i % 256)
      × In (i, v) w.packets
      × (lower_position start (receiver_of w) ≤ i)
      × (i < lower_position start (receiver_of w) + 256)
  MayReceive (answered i n) w = suc i ≡ window_position start (receiver_of w)
  MayReceive _ w = Unit

  -- One atom of one thread. Of the other direction anything may come in. A stream with an error does
  -- nothing more: a call that has passed its check when the error comes is left out.
  pub data Act (w : Wire) : Wire → Type 0 where
    near_sends :
        {s : StreamInner} {note : SendNote}
        → w.near.conn_state ≡ ok tt
        → SendAtom w.near s note
        → MaySend note w s
        → Act w (note_send note (record w { near = s }))
    near_receives :
        {s : StreamInner} {note : RecvNote}
        → w.near.conn_state ≡ ok tt
        → RecvAtom w.near s note
        → Act w (record w { near = s })
    near_fails : (e : IoError) (told : Bool) → Act w (record w { near = (error w.near e told).0 })
    far_receives :
        {s : StreamInner} {note : RecvNote}
        → w.far.conn_state ≡ ok tt
        → RecvAtom w.far s note
        → MayReceive note w
        → Act w (note_recv note (record w { far = s }))
    far_sends :
        {s : StreamInner} {note : SendNote}
        → w.far.conn_state ≡ ok tt
        → SendAtom w.far s note
        → Act w (record w { far = s })
    far_fails : (e : IoError) (told : Bool) → Act w (record w { far = (error w.far e told).0 })

  pub data Acts (w : Wire) : Wire → Type 0 where
    here : Acts w w
    next : {u t : Wire} → Acts w u → Act u t → Acts w t

-- Two streams at the beginning.
abbrev pub joined_streams : StreamInner → StreamInner → Wire
joined_streams near far = record {
  near = near;
  far = far;
  written = [];
  pushed = [];
  packets = [];
  acks = [];
  output = [];
  bytes_read = [];
}
