-- ===== src/Link/Delivery.antt =====
-- stream/send.rs and stream/recv.rs together: each call on the receiving half keeps what they agree on.
use mdswp.Prelude.{
  ℕ, suc, ◌+◌, ◌%◌, ◌≤◌, ◌<◌, ◌≡◌, refl, ap, Option, some, List, [], ◌∷◌, ◌++◌, length, All, arith,
}
use mdswp.Util.{IoResult, done, wrapping_sub}
use mdswp.Segment.{SequentialSegment}
use mdswp.Recv.{RecvStorage, recv, pop_acknowledge}
use mdswp.Recv
use mdswp.Recv.Order.{
  pop_lem, pop_acknowledge_same, Receiver, received, window_position, lower_position,
}
use mdswp.Recv.History.{arrives-InOrder, pops-InOrder, acknowledges-InOrder}
use mdswp.Link.{In, Sides, with_storage}
use mdswp.Link.Joined.{Before, IsPacket, IsAck, Joined, acks-later, All-In}
use mdswp.Link.Kept.{receives-Joined}
use mdswp.Prelude.{append_assoc}

acknowledged_number :
    (s st : RecvStorage) (now n : ℕ)
    → pop_acknowledge s now ≡ (some n, st)
    → n ≡ wrapping_sub s.window 1
unfolding pop_acknowledge
acknowledged_number s st now n h = ground arith

module _ (f : ℕ → SequentialSegment) (start : ℕ) {a : Sides} (v : Joined f start a) where
  means : (i : ℕ) (u : SequentialSegment) → Before f v.hi i u → u ≡ f i
  means i u p = p.0

  pub arrives-Joined :
      (i : ℕ) (u : SequentialSegment) (r : IoResult (Unit {0})) (st : RecvStorage)
      → In (i, u) a.packets
      → lower_position start a.receiver ≤ i
      → i < lower_position start a.receiver + 256
      → recv a.receiver.storage (i % 256) u ≡ done (r, st)
      → Joined f start (record a { receiver = with_storage a.receiver st })
  arrives-Joined i u r st place low high ran =
      let b = with_storage a.receiver st in
      let fits = All-In (IsPacket f v.hi) a.packets (i, u) v.packets_sent place in
      let (order, grown) =
        arrives-InOrder (Before f v.hi) f start {a = a.receiver} {b = b} v.in_order i r u means fits
          low high ran refl in
      receives-Joined f start v b a.acks order (omega arith)
        (acks-later _ (window_position start b) a.acks (omega arith) v.acks_given)

  pub delivers-Joined :
      (u : SequentialSegment) (st : RecvStorage)
      → Recv.pop a.receiver.storage ≡ (some u, st)
      → Joined f start
          (record a { receiver = record { storage = st; output = a.receiver.output ++ u ∷ [] } })
  delivers-Joined u st ran =
      let b : Receiver = record { storage = st; output = a.receiver.output ++ u ∷ [] } in
      let (taken, segs, win, low) = pop_lem a.receiver.storage u ran in
      let same : received b ≡ received a.receiver =
        rw taken (append_assoc a.receiver.output (u ∷ []) st.pop_queue) in
      let size : length (received b) ≡ length (received a.receiver) = ap length same in
      receives-Joined f start v b a.acks
        (pops-InOrder (Before f v.hi) f start {a = a.receiver} {b = b} v.in_order u ran refl)
        (omega arith) (acks-later _ (window_position start b) a.acks (omega arith) v.acks_given)

  pub asked-Joined :
      (now : ℕ) (answer : Option ℕ) (st : RecvStorage) (ns : List (ℕ × ℕ))
      → pop_acknowledge a.receiver.storage now ≡ (answer, st)
      → All (IsAck (window_position start a.receiver)) ns
      → Joined f start (record a { receiver = with_storage a.receiver st; acks = ns })
  asked-Joined now answer st ns ran given =
      let b = with_storage a.receiver st in
      let (queue, segs, win, low) = pop_acknowledge_same a.receiver.storage now answer ran in
      let size : length (received b) ≡ length (received a.receiver) =
        ap (λ q. length (a.receiver.output ++ q)) queue in
      receives-Joined f start v b ns
        (acknowledges-InOrder (Before f v.hi) f start {a = a.receiver} {b = b} v.in_order now answer
          ran refl)
        (omega arith) (acks-later _ (window_position start b) ns (omega arith) given)

  pub answers-Joined :
      (now i n : ℕ) (st : RecvStorage)
      → pop_acknowledge a.receiver.storage now ≡ (some n, st)
      → suc i ≡ window_position start a.receiver
      → Joined f start (record a { receiver = with_storage a.receiver st; acks = (i, n) ∷ a.acks })
  answers-Joined now i n st ran at =
      let number = acknowledged_number a.receiver.storage st now n ran in
      let stands = v.in_order.tracks.window_at in
      asked-Joined now (some n) st ((i, n) ∷ a.acks) ran
        ((omega arith, omega (arith, number, stands)), v.acks_given)
