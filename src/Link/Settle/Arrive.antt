-- ===== src/Link/Settle/Arrive.antt =====
-- stream/recv.rs: the segment at the window comes in, and the window moves on, until all has come.
use mdswp.Prelude.{
  ℕ, zero, suc, ◌+◌, ◌-◌, ◌%◌, ◌≤◌, ◌<◌, ◌≡◌, refl, ◌∙◌, ap, inl, inr, true, ◌&&◌, none, arith,
  length, ltb, leb, Bool-cases, Option-cases, lt→ltb,
}
use mdswp.Util.{IoResult, wrapping_sub}
use mdswp.Segment.{SequentialSegment}
use mdswp.Recv.{RecvStorage}
use mdswp.Recv.Track.{bound_below, Tracks, next_lower}
use mdswp.Recv.Receive.{in_range, kept, slid}
use mdswp.Recv.Outcome.{Taken, refused, repeated, differing, fresh, recv_lem}
use mdswp.Recv.Order.{received, window_position, lower_position, lower_of_Tracks}
use mdswp.Recv.History.{arrives-InOrder, grown_by}
use mdswp.Link.{In, Sides, arrives, with_storage}
use mdswp.Link.Joined.{Before, IsFrom-below}
use mdswp.Link.Settle.{stop, step, Ready, Gap, Came, goes_on, lower_is}

window_in_range : (lo w : ℕ) → lo ≤ w → w ≤ lo + 10 → in_range lo w w ≡ true
window_in_range lo w a b = lt→ltb _ _ (omega arith)

-- A slide by nine at most leaves the window at most ten ahead of the lower bound.
raised : (lo w : ℕ) → lo ≤ w → w ≤ lo + 19 → w ≤ next_lower lo w + 10
raised lo w a b = elim (Bool-cases (leb 10 (w - lo) && ltb (w - lo) 20)) [
  | inl up ↦ rw up (omega arith)
  | inr stays ↦ rw stays (ground arith)
]

-- A slide stops before what is not stored.
slides_to :
    (P : ℕ → SequentialSegment → Type 0) (lo w : ℕ) (s s' : RecvStorage) (v : SequentialSegment)
    (r : IoResult (Unit {0})) (lo' w' j : ℕ)
    → Tracks P lo w s
    → w ≤ lo + 10
    → w < j
    → s.segments (j % 256) ≡ none
    → Taken lo w w s v r lo' w' s'
    → (w < w') × (w' ≤ j) × (lo' ≡ next_lower lo w')
slides_to P lo w s s' v r lo' w' j t lag above free (refused out a b c d) =
    let known = window_in_range lo w t.ordered lag in cc
slides_to P lo w s s' v r lo' w' j t lag above free (repeated good here a b c d) =
    let known = t.vacant in cc
slides_to P lo w s s' v r lo' w' j t lag above free (differing u good here ne a b c d) =
    let known = t.vacant in cc
slides_to P lo w s s' v r lo' w' j t lag above free (fresh good here a ran (kept ne b c)) =
    absurd (ne refl)
slides_to P lo w s s' v r lo' w' j t lag above free
      (fresh good here a ran (slid at more most all next low)) =
    (more, by_gap, low)
  where
    by_gap : w' ≤ j
    by_gap = elim (Bool-cases (ltb j w')) [
      | inl beyond ↦ let (u, e) = all j above (ground arith) in cc
      | inr fine ↦ ground arith
    ]

module _ (f : ℕ → SequentialSegment) (start lo hi : ℕ) where
  -- Nothing is stored that was not sent.
  pub Ready-Gap :
      {a : Sides} → Ready f start lo hi a → hi ≤ window_position start a.receiver + 9 → Gap start a
  Ready-Gap {a} v few =
      let w = window_position start a.receiver in
      let t = v.in_order.tracks in
      let low = lower_is f start lo hi v in
      (
        w + 9,
        omega arith,
        omega arith,
        elim (Option-cases (a.receiver.storage.segments ((w + 9) % 256))) [
          | inl free ↦ free
          | inr (u, e) ↦
              let (x, y, p) = t.ahead (w + 9) u (omega arith) (omega (arith, v.lag)) e in
              absurd (omega (arith, p.1))
        ],
      )

  -- The segment at the window comes in.
  arrives_at_window :
      {a : Sides}
      → Ready f start lo hi a
      → Gap start a
      → window_position start a.receiver < hi
      → In (window_position start a.receiver, f (window_position start a.receiver)) a.packets
      → (came : Came f start lo hi a) × (came.later.sender ≡ a.sender)
        × (came.later.packets ≡ a.packets)
        × (window_position start a.receiver < window_position start came.later.receiver)
  arrives_at_window {a} v (j, above, near, free) more place =
      let w = window_position start a.receiver in
      let l = v.in_order.lo in
      let t = v.in_order.tracks in
      let low = lower_is f start lo hi v in
      let sent : Before f hi w (f w) = (refl, more) in
      let (r, lo', w', st, ran, moved, taken) =
        recv_lem (Before f hi) l w w a.receiver.storage (f w) t sent t.ordered
          (omega (arith, v.lag)) in
      let (further, most, next) =
        slides_to (Before f hi) l w a.receiver.storage st (f w) r lo' w' j t (omega (arith, v.lag))
          above free taken in
      let b = with_storage a.receiver st in
      let (order, grown) =
        arrives-InOrder (Before f hi) f start {a = a.receiver} {b = b} v.in_order w r (f w)
          (λ i u p. p.0) sent (omega (arith, t.ordered)) (omega (arith, v.lag)) ran refl in
      let longer : length (received b) ≡ length (received a.receiver) + length moved.passed =
        grown_by (Before f hi) f start {a = a.receiver} {b = b} v.in_order lo' w' moved refl in
      let stands : window_position start b ≡ w' = omega (arith, moved.count) in
      let below = IsFrom-below f hi start (received b) (omega arith) order.each in
      let lowered : lower_position start b ≡ lo' =
        ap (λ k. k - wrapping_sub st.window st.lower_bound) stands
        ∙ lower_of_Tracks (Before f hi) lo' w' st moved.tracks in
      let x = raised l w' (omega (arith, t.ordered)) (omega (arith, v.lag)) in
      let y =
        bound_below l w' lo (omega (arith, v.low)) (omega (arith, v.behind, v.outstanding.few)) in
      (
        record {
          later = record a { receiver = b };
          moves =
              step stop
                (arrives w (f w) r st place (omega (arith, t.ordered)) (omega (arith, v.lag)) ran)
                tt;
          ready = record {
            outstanding = v.outstanding;
            counted = v.counted;
            in_order = order;
            behind = omega (arith, v.behind);
            within = omega (arith, below);
            low = omega (arith, lowered, next, y);
            lag = omega (arith, stands, lowered, next, x);
          };
          pushed_is = refl;
          output_is = refl;
          waiting_is = refl;
        },
        refl,
        refl,
        omega (arith, stands, further),
      )

  abbrev AllCame : Sides → Type 0
  AllCame a =
      (came : Came f start lo hi a) × (came.later.sender ≡ a.sender)
      × (window_position start came.later.receiver ≡ hi)

  none_left :
      {a : Sides} → Ready f start lo hi a → hi ≤ window_position start a.receiver → AllCame a
  none_left {a} v all = (
    record {
      later = a;
      moves = stop;
      ready = v;
      pushed_is = refl;
      output_is = refl;
      waiting_is = refl;
    },
    refl,
    omega (arith, v.within),
  )

  -- What is outstanding comes in, from the window on; `n` is at least how much that is.
  pub all_arrive :
      (n : ℕ) {a : Sides}
      → Ready f start lo hi a
      → Gap start a
      → hi ≤ window_position start a.receiver + n
      → ((j : ℕ) → lo ≤ j → j < hi → In (j, f j) a.packets)
      → AllCame a
  all_arrive zero {a} v gap most on_way = none_left v (omega arith)
  all_arrive (suc n) {a} v gap most on_way =
      elim (Bool-cases (ltb (window_position start a.receiver) hi)) [
        | inr all ↦ none_left v (ground arith)
        | inl some_left ↦
            let w = window_position start a.receiver in
            let more : w < hi = ground arith in
            let (x, same, packets, further) =
              arrives_at_window v gap more (on_way w v.behind more) in
            let gap' = Ready-Gap x.ready (omega (arith, v.behind, v.outstanding.few)) in
            let (y, same', end) =
              all_arrive n {a = x.later} x.ready gap' (omega arith)
                (λ j least below. rw packets (on_way j least below)) in
            (goes_on f start x y, same' ∙ same, end)
      ]
