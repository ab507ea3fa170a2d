-- ===== src/Link/Settle/Reached.antt =====
-- stream/send.rs and stream/recv.rs together: both sides can come to rest from where any run has led.
use mdswp.Prelude.{ℕ, ◌+◌, ◌%◌, ◌≤◌, ◌≡◌, refl, ◌∙◌, ap, sym, true, none, [], arith}
use mdswp.Util.{wrapping_sub}
use mdswp.Segment.{SequentialSegment}
use mdswp.Send.{is_empty}
use mdswp.Recv.{RecvStorage}
use mdswp.Recv.Order.{received, window_position, lower_of_Tracks}
use mdswp.Link.{Sides, Runs, here, next}
use mdswp.Link.Joined.{Before, Joined, IsFrom-below}
use mdswp.Link.Whole.{
  Begins, Says, Says-before, Runs-Says, Runs-Joined, pushed_at, positions-pushed_at, pushed_before,
}
use mdswp.Link.Settle.{Exchange, Ready, Gap}
use mdswp.Link.Settle.Low.{Low, Low-iff, Move-Low}
use mdswp.Link.Settle.Rest.{rests}

-- The window is at most ten ahead of the lower bound, and one of the nine numbers behind it is not
-- stored. This is what slides of less than ten from a full window keep.
abbrev pub KeepsUp : RecvStorage → Type 0
KeepsUp s =
    (wrapping_sub s.window s.lower_bound ≤ 10)
    × ((k : ℕ) × (1 ≤ k) × (k ≤ 9) × (s.segments ((s.window + k) % 256) ≡ none))

-- The network loses all that is on its way.
abbrev pub lost : Sides → Sides
lost a = record a { packets = []; acks = [] }

Runs-Low :
    (f : ℕ → SequentialSegment) (start : ℕ) {a b : Sides}
    → Joined f start a
    → Low start a
    → Runs start a b
    → Says f start b
    → Low start b
Runs-Low f start v low here e = low
Runs-Low f start v low (next r m) e =
    let before = Says-before f start m e in
    Move-Low f start (Runs-Joined f start v r before) m (Runs-Low f start v low r before)

module _ (f : ℕ → SequentialSegment) (start : ℕ) {a : Sides} where
  Joined-Ready :
      (v : Joined f start a)
      → Low start a
      → wrapping_sub a.receiver.storage.window a.receiver.storage.lower_bound ≤ 10
      → Ready f start v.lo v.hi (lost a)
  Joined-Ready v low lag =
      let lower =
        lower_of_Tracks (Before f v.hi) v.in_order.lo _ a.receiver.storage v.in_order.tracks in
      record {
        outstanding = v.outstanding;
        counted = v.counted;
        in_order = v.in_order;
        behind = v.behind;
        within = IsFrom-below f v.hi start (received a.receiver) v.begun v.in_order.each;
        low = omega (arith, (Low-iff f start v).0 low);
        lag = omega arith;
      }

-- What is reached when both sides come to rest.
pub record AtRest (start : ℕ) (a : Sides) : Type 0 where
  pub later : Sides
  pub moves : Exchange start a later
  pub pushed_is : later.pushed ≡ a.pushed
  pub output_is : later.receiver.output ≡ a.receiver.output
  pub at_rest : is_empty later.sender ≡ true
  pub all_in : received later.receiver ≡ a.pushed

pub rests_from :
    (start : ℕ) (begun b : Sides)
    → Begins start begun
    → Low start begun
    → Runs start begun b
    → KeepsUp b.receiver.storage
    → AtRest start (lost b)
rests_from start begun b begins low r (lag, (k, least, most, free)) =
    let f = pushed_at start b.pushed in
    let says = positions-pushed_at start b.pushed in
    let first = begins f (λ i h. pushed_before start b.pushed i h) (Runs-Says f start r says) in
    let v = Runs-Joined f start first r says in
    let low' = Runs-Low f start first low r says in
    let stands = v.in_order.tracks.window_at in
    let w = window_position start b.receiver in
    let number : (w + k) % 256 ≡ (b.receiver.storage.window + k) % 256 = omega arith in
    let gap : Gap start (lost b) =
      (w + k, omega arith, omega arith, ap b.receiver.storage.segments number ∙ free) in
    let x =
      rests f start b.sender.queue_unsent v.lo v.hi (Joined-Ready f start v low' lag) gap refl in
    record {
      later = x.later;
      moves = x.moves;
      pushed_is = x.pushed_is;
      output_is = x.output_is;
      at_rest = x.at_rest;
      all_in = x.all_in ∙ sym says;
    }
