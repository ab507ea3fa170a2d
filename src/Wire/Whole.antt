-- ===== src/Wire/Whole.antt =====
-- stream/inner.rs: two streams from the beginning, in either direction.
use mdswp.Prelude.{
  ℕ, ◌+◌, ◌≤◌, ◌<◌, ◌≡◌, refl, ◌∙◌, sym, ap, Bool, true, false, ◌&&◌, some, List, [], ◌∷◌, ◌++◌,
  arith, append-nil, append_assoc, length, length-append,
}
use mdswp.Util.{ok, done}
use mdswp.Segment.{SequentialSegment, accept}
use mdswp.Send.{SendStorage, null, is_empty}
use mdswp.Send
use mdswp.Send.Track.{length-queue_sent}
use mdswp.Recv
use mdswp.Recv.Order.{received}
use mdswp.Stream.{StreamInner, SocketAddr, new_by_peer, new_by_local}
use mdswp.Stream.Reading.{bytes_before_finish}
use mdswp.Link.{with_queued, Sides, here, fresh_sides, answering_sides}
use mdswp.Link.Joined.{Joined}
use mdswp.Link.Whole.{delivers_from}
use mdswp.Link.Reliable.{fresh-Joined, answering-Joined}
use mdswp.Link.Settle.Low.{Low}
use mdswp.Link.Settle.Begin.{fresh-Low, answering-Low}
use mdswp.Wire.{Wire, Acts, joined_streams}
use mdswp.Wire.Carried.{halves}
use mdswp.Wire.Refused.{and_second}
use mdswp.Link.Whole.{Begins, halves_agree}
use mdswp.Wire.Bytes.{after-finish}
use mdswp.Wire.Delivered.{Kept, Acts-Kept, before-first}

null_nil {ℓ} : {A : Type ℓ} (xs : List A) → null xs ≡ true → xs ≡ []
null_nil [] e = refl
null_nil (x ∷ xs) e = cc

empty_both :
    (s : SendStorage) → is_empty s ≡ true → (length s.queue_sent ≡ 0) × (length s.queue_unsent ≡ 0)
unfolding is_empty
empty_both s e = (
  ap length (null_nil s.queue_sent (and_first _ _ e)),
  ap length (null_nil s.queue_unsent (and_second _ _ e)),
)
  where
    and_first : (a b : Bool) → a && b ≡ true → a ≡ true
    and_first true b e = refl
    and_first false b e = e

-- All that was sent is acknowledged, so it has come.
all_received :
    {f : ℕ → SequentialSegment} (start : ℕ) (b : Sides)
    → Joined f start b
    → is_empty b.sender ≡ true
    → length b.pushed ≤ length (received b.receiver)
all_received {f} start b v empty =
    let (sent, unsent) = empty_both b.sender empty in
    let size = length-queue_sent f v.lo v.hi b.sender v.outstanding in
    omega (arith, sent, unsent, size, v.outstanding.ordered, v.counted, v.behind)

no_more :
    (vs us rest : List SequentialSegment) → vs ≡ us ++ rest → length vs ≤ length us → rest ≡ []
no_more vs us [] e h = refl
no_more vs us (r ∷ rest) e h = absurd (omega (arith, ap length e, length-append us (r ∷ rest)))

module _ (start : ℕ) (begun : Sides) (begins : Begins start begun) (w : Wire)
    (k : Kept start begun w) where
  taken_first : (more : List SequentialSegment) × (w.pushed ≡ w.output ++ more)
  taken_first =
      let b = halves w k.carried.sender k.carried.st in
      let (rest, e) = delivers_from start begun b begins k.carried.runs in
      (_, e ∙ append_assoc w.output b.receiver.storage.pop_queue rest)

  read_first : (rest : List ℕ) × (w.written ≡ w.bytes_read ++ rest)
  read_first =
      let (more, e) = taken_first in
      let (later, f) = before-first w.output more in
      (
        _,
        k.written.first
            ∙ ap (λ q. q ++ k.written.rest)
                (ap bytes_before_finish e ∙ f ∙ ap (λ q. q ++ later) (sym k.read_out.first))
            ∙ ap (λ q. q ++ k.written.rest) (append_assoc w.bytes_read w.far.recv_buffer later)
            ∙ append_assoc w.bytes_read (w.far.recv_buffer ++ later) k.written.rest,
      )

  read_whole :
      w.far.recv_finished ≡ true
      → w.far.recv_buffer ≡ []
      → w.bytes_read ≡ bytes_before_finish w.pushed
  read_whole over empty =
      let (more, e) = taken_first in
      sym (append-nil w.bytes_read)
      ∙ ap (λ q. w.bytes_read ++ q) (sym empty)
      ∙ k.read_out.first
      ∙ sym (ap bytes_before_finish e ∙ after-finish w.output more (k.read_out.over ∙ over))

  got_whole :
      w.near.conn_state ≡ ok tt
      → w.far.conn_state ≡ ok tt
      → is_empty w.near.send_storage ≡ true
      → w.pushed ≡ w.output ++ w.far.recv_storage.pop_queue
  got_whole live alive empty =
      let b = halves w k.carried.sender k.carried.st in
      let v = halves_agree start begun b begins k.carried.runs in
      let (rest, e) = delivers_from start begun b begins k.carried.runs in
      let drained : is_empty b.sender ≡ true = ap is_empty (sym (k.carried.sending live)) ∙ empty in
      let none_left =
        no_more b.pushed (received b.receiver) rest e (all_received start b v drained) in
      e
      ∙ ap (λ q. received b.receiver ++ q) none_left
      ∙ append-nil (received b.receiver)
      ∙ ap (λ q. w.output ++ q.pop_queue) (sym (k.carried.receiving alive))

-- The side that was opened, when its worker has popped the ACCEPT of number `m`: `us` was pushed
-- behind it before. The other side has just got it.
abbrev pub answered : StreamInner → SocketAddr → ℕ → ℕ → List SequentialSegment → Wire
answered near a n m us = record (joined_streams near (new_by_local a n m)) {
  written = bytes_before_finish us ++ near.send_buffer;
  pushed = us;
  packets = (m, accept) ∷ [];
}

-- The two directions. The side that has opened the connection writes to the other as soon as it is
-- there; the side that was opened writes to it once its ACCEPT has come.
pub data Begun : ℕ → Wire → Type 0 where
  forth :
      (a c : SocketAddr) (n m : ℕ)
      → Begun (n + 1) (joined_streams (new_by_local a n m) (new_by_peer c n m))
  back :
      (near : StreamInner) (a : SocketAddr) (n m now : ℕ) (us : List SequentialSegment)
      → m < 256
      → Send.pop (with_queued (Send.new_by_peer m) us) now
        ≡ done (some (m, accept), near.send_storage)
      → Begun (m + 1) (answered near a n m us)

forth-Kept :
    (a c : SocketAddr) (n m : ℕ)
    → Kept (n + 1) (fresh_sides n) (joined_streams (new_by_local a n m) (new_by_peer c n m))
unfolding new_by_local new_by_peer
forth-Kept a c n m = record {
  carried = record {
    sender = Send.new_by_local n;
    st = Recv.new_by_peer n;
    runs = here;
    sending = λ h. refl;
    receiving = λ h. refl;
  };
  written = record { rest = []; first = refl; buffered = λ h e. refl };
  read_out = record { first = refl; over = refl };
}

back-Kept :
    (near : StreamInner) (a : SocketAddr) (n m : ℕ) (us : List SequentialSegment)
    → Kept (m + 1) (answering_sides m us near.send_storage) (answered near a n m us)
unfolding new_by_local
back-Kept near a n m us = record {
  carried = record {
    sender = near.send_storage;
    st = Recv.new_by_local m;
    runs = here;
    sending = λ h. refl;
    receiving = λ h. refl;
  };
  written = record { rest = near.send_buffer; first = refl; buffered = λ h e. refl };
  read_out = record { first = refl; over = refl };
}

pub Begun-Kept :
    {start : ℕ} {w : Wire}
    → Begun start w
    → (begun : Sides) × Begins start begun × Kept start begun w × Low start begun
Begun-Kept (forth a c n m) =
    (fresh_sides n, (λ f first says. fresh-Joined f n), forth-Kept a c n m, fresh-Low n)
Begun-Kept (back near a n m now us small ran) = (
  answering_sides m us near.send_storage,
  (λ f first says.
      answering-Joined f m now us near.send_storage small (first m (omega arith)) says ran),
  back-Kept near a n m us,
  answering-Low m now us near.send_storage small ran,
)

pub Begun-positive : {start : ℕ} {w : Wire} → Begun start w → 1 ≤ start
Begun-positive (forth a c n m) = omega arith
Begun-positive (back near a n m now us small ran) = omega arith

-- Two streams that are connected, in either direction, with every thread of both interleaved, and a
-- network that loses, repeats and reorders, but brings nothing so late that its number has come
-- round: the bytes that `read` has given on one side are the first of those that were given to
-- `write` on the other, in order, without loss or repetition.
pub reads_written :
    {start : ℕ} {w t : Wire}
    → Begun start w
    → Acts start w t
    → (rest : List ℕ) × (t.written ≡ t.bytes_read ++ rest)
reads_written {start} {w} {t} b acts =
    let (begun, begins, k, low) = Begun-Kept b in
    read_first start begun begins t (Acts-Kept start begun begins k acts)

-- Two streams as above: once one side has read a FINISH and its buffer is empty, it has read all the
-- bytes that the other has queued before its FINISH.
pub reads_to_end :
    {start : ℕ} {w t : Wire}
    → Begun start w
    → Acts start w t
    → t.far.recv_finished ≡ true
    → t.far.recv_buffer ≡ []
    → t.bytes_read ≡ bytes_before_finish t.pushed
reads_to_end {start} {w} {t} b acts =
    let (begun, begins, k, low) = Begun-Kept b in
    read_whole start begun begins t (Acts-Kept start begun begins k acts)

-- Two streams as above, neither with an error: when the sending storage is empty, which is what
-- `finish_write` waits for, all that was pushed has come to the other side, and was taken there by
-- `read` or is queued for it.
pub settled_received :
    {start : ℕ} {w t : Wire}
    → Begun start w
    → Acts start w t
    → t.near.conn_state ≡ ok tt
    → t.far.conn_state ≡ ok tt
    → is_empty t.near.send_storage ≡ true
    → t.pushed ≡ t.output ++ t.far.recv_storage.pop_queue
settled_received {start} {w} {t} b acts =
    let (begun, begins, k, low) = Begun-Kept b in
    got_whole start begun begins t (Acts-Kept start begun begins k acts)
