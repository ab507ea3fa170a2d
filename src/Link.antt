-- ===== src/Link.antt =====
-- stream/send.rs and stream/recv.rs together: the sending half of one side and the receiving half of
-- the other, joined by a network that may lose, repeat and reorder what is sent.
pub mod Joined
pub mod Drawn
pub mod Kept
pub mod Delivery
pub mod Whole
pub mod Reliable
pub mod Settle
mod Tests
use mdswp.Prelude.{
  ℕ, suc, ◌+◌, ◌-◌, ◌%◌, ◌≤◌, ◌<◌, ◌≡◌, ◌≢◌, ◌⊎◌, Option, none, some, List, [], ◌∷◌, ◌++◌, length,
}
use mdswp.Util.{IoResult, ok, Run, done}
use mdswp.Segment.{SequentialSegment, accept}
use mdswp.Send.{SendStorage, push, acknowledge}
use mdswp.Send
use mdswp.Recv.{RecvStorage, recv, pop_acknowledge}
use mdswp.Recv
use mdswp.Recv.Order.{Receiver, received, window_position, lower_position}

-- A place at which `x` stands in a list.
abbrev pub In : {A : Type 0} → A → List A → Type 0
In x [] = ⊥
In x (y ∷ ys) = (y ≡ x) ⊎ In x ys

-- `pushed` is all that was pushed after the start. The network holds each segment that was ever sent
-- and each acknowledgement, with its position in the unbounded sequence; only its number, which is
-- the position modulo 256, is seen by the code.
pub record Sides : Type 0 where
  pub sender : SendStorage
  pub pushed : List SequentialSegment
  pub packets : List (ℕ × SequentialSegment)
  pub receiver : Receiver
  pub acks : List (ℕ × ℕ)

-- The position that is next to be sent, where the first has the position `start`.
abbrev pub next_position : ℕ → SendStorage → List SequentialSegment → ℕ
next_position start s pushed = start + length pushed - length s.queue_unsent

abbrev pub with_storage : Receiver → RecvStorage → Receiver
with_storage b st = record b { storage = st }

module _ (start : ℕ) where
  -- One call on either side. What arrives is something that was sent, any number of times and in any
  -- order; `arrives` and `acknowledges` ask that it is not so old that its number has come round.
  pub data Move (a : Sides) : Sides → Type 0 where
    pushes :
        (u : SequentialSegment) (s' : SendStorage)
        → u ≢ accept
        → push a.sender u ≡ done (ok tt, s')
        → Move a (record a { sender = s'; pushed = a.pushed ++ u ∷ [] })
    sends :
        (now i n : ℕ) (v : SequentialSegment) (s' : SendStorage)
        → Send.pop a.sender now ≡ done (some (n, v), s')
        → n ≡ i % 256
        → i < next_position start s' a.pushed
        → next_position start s' a.pushed ≤ i + 10
        → Move a (record a { sender = s'; packets = (i, v) ∷ a.packets })
    idles :
        (now : ℕ) (s' : SendStorage)
        → Send.pop a.sender now ≡ done (none, s')
        → Move a (record a { sender = s' })
    arrives :
        (i : ℕ) (v : SequentialSegment) (r : IoResult (Unit {0})) (st : RecvStorage)
        → In (i, v) a.packets
        → lower_position start a.receiver ≤ i
        → i < lower_position start a.receiver + 256
        → recv a.receiver.storage (i % 256) v ≡ done (r, st)
        → Move a (record a { receiver = with_storage a.receiver st })
    delivers :
        (v : SequentialSegment) (st : RecvStorage)
        → Recv.pop a.receiver.storage ≡ (some v, st)
        → Move a
            (record a { receiver = record { storage = st; output = a.receiver.output ++ v ∷ [] } })
    answers :
        (now i n : ℕ) (st : RecvStorage)
        → pop_acknowledge a.receiver.storage now ≡ (some n, st)
        → suc i ≡ window_position start a.receiver
        → Move a (record a { receiver = with_storage a.receiver st; acks = (i, n) ∷ a.acks })
    is_quiet :
        (now : ℕ) (st : RecvStorage)
        → pop_acknowledge a.receiver.storage now ≡ (none, st)
        → Move a (record a { receiver = with_storage a.receiver st })
    acknowledges :
        (i n : ℕ) (r : IoResult (Unit {0})) (s' : SendStorage)
        → In (i, n) a.acks
        → next_position start a.sender a.pushed < i + 256
        → acknowledge a.sender n ≡ done (r, s')
        → Move a (record a { sender = s' })

  pub data Runs (a : Sides) : Sides → Type 0 where
    here : Runs a a
    next : {b c : Sides} → Runs a b → Move b c → Runs a c

-- The side that has opened the connection sends, the side that was opened receives; `n` is the number
-- of the ESTABLISH.
abbrev pub fresh_sides : ℕ → Sides
fresh_sides n = record {
  sender = Send.new_by_local n;
  pushed = [];
  packets = [];
  receiver = record { storage = Recv.new_by_peer n; output = [] };
  acks = [];
}

-- What was pushed to a new sending half before its first `pop`.
abbrev pub with_queued : SendStorage → List SequentialSegment → SendStorage
with_queued s us = record s { queue_unsent = s.queue_unsent ++ us }

-- The other direction, once the ACCEPT of number `m` has been sent, and has come: `s` is what the
-- sending half is then, to which `us` was pushed before.
abbrev pub answering_sides : ℕ → List SequentialSegment → SendStorage → Sides
answering_sides m us s = record {
  sender = s;
  pushed = us;
  packets = (m, accept) ∷ [];
  receiver = record { storage = Recv.new_by_local m; output = [] };
  acks = [];
}
