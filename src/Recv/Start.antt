-- ===== src/Recv/Start.antt =====
-- stream/recv.rs: the two constructors, and in-order delivery from them on.
use mdswp.Prelude.{
  ==_true, ==_false, ℕ, ◌+◌, ◌%◌, ◌<◌, ◌≡◌, refl, sym, [], arith, length, positions,
  positions_prefix,
}
use mdswp.Segment.{SequentialSegment, accept}
use mdswp.Recv.{RecvStorage, new_by_peer, new_by_local}
use mdswp.Recv.Track.{Tracks}
use mdswp.Recv.Order.{Receiver, received, Sent, InOrder, Reach}
use mdswp.Recv.History.{Reach-InOrder}

-- The two constructors give an empty receiver that is on track.
abbrev pub started : RecvStorage → Receiver
started s = record { storage = s; output = [] }

pub new_by_peer-Tracks :
    (P : ℕ → SequentialSegment → Type 0) (n : ℕ) → Tracks P (n + 1) (n + 1) (new_by_peer n)
unfolding new_by_peer
new_by_peer-Tracks P n = record {
  window_at = refl;
  lower_at = refl;
  ordered = omega arith;
  within = omega arith;
  present = λ i a b. absurd (omega arith);
  ahead = λ i v a b e. cc;
  vacant = refl;
}

pub new_by_local-Tracks :
    (P : ℕ → SequentialSegment → Type 0) (n : ℕ)
    → n < 256
    → P n accept
    → Tracks P n (n + 1) (new_by_local n)
unfolding new_by_local
new_by_local-Tracks P n h p = record {
  window_at = refl;
  lower_at = omega arith;
  ordered = omega arith;
  within = omega arith;
  present = λ i a b.
      let same : i ≡ n = omega arith in (accept, rw (==_true (i % 256) n (omega arith)), rw same p);
  ahead = λ i v a b e. cc (rw (==_false (i % 256) n (omega arith)) at e);
  vacant = rw (==_false ((n + 1) % 256) n (omega arith));
}

-- What has been popped, and what is queued, is what was sent.
abbrev pub IsPrefix : (ℕ → SequentialSegment) → ℕ → Receiver → Type 0
IsPrefix f start b =
    (b.output ≡ positions f start (length b.output))
    × (received b ≡ positions f start (length (received b)))

InOrder-IsPrefix :
    (f : ℕ → SequentialSegment) (start : ℕ) (b : Receiver)
    → InOrder (Sent f) f start b
    → IsPrefix f start b
InOrder-IsPrefix f start b v =
    (positions_prefix f start (length (received b)) b.output b.storage.pop_queue v.order, v.order)

pub queue_by_peer : (n : ℕ) → (new_by_peer n).pop_queue ≡ []
unfolding new_by_peer
queue_by_peer n = refl

pub queue_by_local : (n : ℕ) → (new_by_local n).pop_queue ≡ []
unfolding new_by_local
queue_by_local n = refl

-- An empty queue is in order.
pub empty-InOrder :
    (P : ℕ → SequentialSegment → Type 0) (f : ℕ → SequentialSegment) (lo start : ℕ)
    (s : RecvStorage)
    → s.pop_queue ≡ []
    → Tracks P lo start s
    → InOrder P f start (started s)
empty-InOrder P f lo start s e t =
    let none_yet : start + length s.pop_queue ≡ start = rw e (omega arith) in
    record { lo = lo; tracks = rw none_yet t; each = rw (e) tt; order = rw e }

-- Whatever arrives after the peer's ESTABLISH of number `n`, in any order and repeatedly, but
-- from no position before the lower bound: what is popped is what was sent from number `n + 1` on,
-- in order, without loss or repetition, and so is what is popped together with what is queued.
pub in_order_by_peer :
    (f : ℕ → SequentialSegment) (n : ℕ) {b : Receiver}
    → Reach f (n + 1) (started (new_by_peer n)) b
    → IsPrefix f (n + 1) b
in_order_by_peer f n {b} r =
    let first =
      empty-InOrder (Sent f) f (n + 1) (n + 1) _ (queue_by_peer n) (new_by_peer-Tracks _ n) in
    InOrder-IsPrefix f (n + 1) b (Reach-InOrder f (n + 1) first r)

-- Whatever arrives after the peer's ACCEPT of number `n`, which stands at position `n` itself, in
-- any order and repeatedly, but from no position before the lower bound: what is popped is what was
-- sent from number `n + 1` on, in order, without loss or repetition, and so is what is popped
-- together with what is queued.
pub in_order_by_local :
    (f : ℕ → SequentialSegment) (n : ℕ) {b : Receiver}
    → n < 256
    → f n ≡ accept
    → Reach f (n + 1) (started (new_by_local n)) b
    → IsPrefix f (n + 1) b
in_order_by_local f n {b} h e r =
    let tracks = new_by_local-Tracks (Sent f) n h (sym e) in
    let first = empty-InOrder (Sent f) f n (n + 1) _ (queue_by_local n) tracks in
    InOrder-IsPrefix f (n + 1) b (Reach-InOrder f (n + 1) first r)
