-- ===== src/Link/Settle.antt =====
-- stream/send.rs and stream/recv.rs together: how both sides come to rest. The workers and the network
-- go on, while nothing is pushed or taken.
pub mod Resend
pub mod Arrive
pub mod Answer
pub mod Rest
pub mod Low
pub mod Begin
pub mod Reached
use mdswp.Prelude.{ℕ, ◌+◌, ◌≤◌, ◌<◌, ◌≡◌, refl, ◌∙◌, none, List, [], length, arith, ◌%◌}
use mdswp.Segment.{SequentialSegment}
use mdswp.Send.Track.{Outstanding}
use mdswp.Recv.Order.{window_position, lower_position, InOrder, lower_of_Tracks}
use mdswp.Link.{
  Sides, Move, pushes, sends, idles, arrives, delivers, answers, is_quiet, acknowledges, Runs, here,
  next,
}
use mdswp.Link.Joined.{Before}

module _ (start : ℕ) where
  -- Whether a call is one of a worker, or of a segment that comes in.
  abbrev pub IsExchange : {a b : Sides} → Move start a b → Type 0
  IsExchange (pushes u s' ne ran) = ⊥
  IsExchange (delivers u st ran) = ⊥
  IsExchange _ = Unit

  pub data Exchange (a : Sides) : Sides → Type 0 where
    stop : Exchange a a
    step : {b c : Sides} → Exchange a b → (m : Move start b c) → IsExchange m → Exchange a c

  pub Exchange-trans : {a b c : Sides} → Exchange a b → Exchange b c → Exchange a c
  Exchange-trans x stop = x
  Exchange-trans x (step y m h) = step (Exchange-trans x y) m h

  pub Exchange-Runs : {a b : Sides} → Exchange a b → Runs start a b
  Exchange-Runs stop = here
  Exchange-Runs (step x m h) = next (Exchange-Runs x) m

-- The positions from `lo` up to `hi` are outstanding. None of them is from before the lower bound, and
-- the window is at most ten ahead of that.
pub record Ready (f : ℕ → SequentialSegment) (start lo hi : ℕ) (a : Sides) : Type 0 where
  pub outstanding : Outstanding f lo hi a.sender
  pub counted : hi + length a.sender.queue_unsent ≡ start + length a.pushed
  pub in_order : InOrder (Before f hi) f start a.receiver
  pub behind : lo ≤ window_position start a.receiver
  pub within : window_position start a.receiver ≤ hi
  pub low : lower_position start a.receiver ≤ lo
  pub lag : window_position start a.receiver ≤ lower_position start a.receiver + 10

-- One of the nine numbers behind the window is not stored.
abbrev pub Gap : ℕ → Sides → Type 0
Gap start a =
    (j : ℕ) × (window_position start a.receiver < j)
    × (j < window_position start a.receiver + 10)
    × (a.receiver.storage.segments (j % 256) ≡ none)

-- Where an exchange has come to.
pub record Came (f : ℕ → SequentialSegment) (start lo hi : ℕ) (a : Sides) : Type 0 where
  pub later : Sides
  pub moves : Exchange start a later
  pub ready : Ready f start lo hi later
  pub pushed_is : later.pushed ≡ a.pushed
  pub output_is : later.receiver.output ≡ a.receiver.output
  pub waiting_is : later.sender.queue_unsent ≡ a.sender.queue_unsent

abbrev pub goes_on :
    (f : ℕ → SequentialSegment) (start : ℕ) {lo hi lo' hi' : ℕ} {a : Sides}
    → (x : Came f start lo hi a) → Came f start lo' hi' x.later
    → Came f start lo' hi' a
goes_on f start x y = record {
  later = y.later;
  moves = Exchange-trans start x.moves y.moves;
  ready = y.ready;
  pushed_is = y.pushed_is ∙ x.pushed_is;
  output_is = y.output_is ∙ x.output_is;
  waiting_is = y.waiting_is ∙ x.waiting_is;
}

-- The lower bound, as the storage is tracked.
pub lower_is :
    (f : ℕ → SequentialSegment) (start lo hi : ℕ) {a : Sides} (v : Ready f start lo hi a)
    → lower_position start a.receiver ≡ v.in_order.lo
lower_is f start lo hi {a} v =
    lower_of_Tracks (Before f hi) v.in_order.lo _ a.receiver.storage v.in_order.tracks
