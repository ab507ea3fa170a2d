-- ===== src/Link/Settle/Rest.antt =====
-- stream/send.rs and stream/recv.rs together: all that was pushed comes in and is acknowledged, when
-- the network has lost all that was on its way.
use mdswp.Prelude.{
  ℕ, suc, ◌+◌, ◌≤◌, ◌≡◌, refl, ◌∙◌, ap, sym, subst, inl, inr, true, false, List, [], ◌∷◌, arith,
  length, nil_of, ltb, Bool-cases, positions,
}
use mdswp.Segment.{SequentialSegment}
use mdswp.Send.{is_empty}
use mdswp.Send.Track.{length-queue_sent, sent_none}
use mdswp.Send.Window.{sent_new, unsent_next, pop_next}
use mdswp.Recv.Order.{received}
use mdswp.Link.{Sides, sends}
use mdswp.Link.Joined.{InOrder-later}
use mdswp.Link.Settle.{Exchange, stop, step, Exchange-trans, Ready, Gap, Came, goes_on}
use mdswp.Link.Settle.Resend.{resends}
use mdswp.Link.Settle.Arrive.{Ready-Gap, all_arrive}
use mdswp.Link.Settle.Answer.{acknowledges_all}

by_test : (a b : ℕ) → ltb a b ≡ false → a ≤ b → a ≡ b
by_test a b e h = ground arith

module _ (f : ℕ → SequentialSegment) (start : ℕ) where
  -- What is outstanding is sent again, comes in and is acknowledged.
  clears : (lo hi : ℕ) {a : Sides} → Ready f start lo hi a → Gap start a → Came f start hi hi a
  clears lo hi {a} v gap = elim (Bool-cases (ltb lo hi)) [
    | inr nothing ↦
        let same : lo ≡ hi = by_test lo hi nothing v.outstanding.ordered in
        record {
          later = a;
          moves = stop;
          ready = subst (λ k. Ready f start k hi a) same v;
          pushed_is = refl;
          output_is = refl;
          waiting_is = refl;
        }
    | inl some_out ↦
        let (x, same, on_way) = resends f start lo hi v in
        let gap' : Gap start x.later =
          subst (λ r. Gap start (record a { receiver = r })) (sym same) gap in
        let (y, same', all) =
          all_arrive f start lo hi 10 x.ready gap'
            (omega (arith, x.ready.behind, x.ready.outstanding.few)) on_way in
        goes_on f start (goes_on f start x y)
          (acknowledges_all f start lo hi y.ready (ground arith) all)
  ]

  -- With nothing outstanding the next segment is sent.
  sends_next :
      (hi : ℕ) {a : Sides} (u : SequentialSegment) (us : List SequentialSegment)
      → Ready f start hi hi a
      → a.sender.queue_unsent ≡ u ∷ us
      → (later : Sides) × Exchange start a later
        × Ready f start hi (suc hi) later
        × (later.pushed ≡ a.pushed)
        × (later.receiver ≡ a.receiver)
        × (later.sender.queue_unsent ≡ us)
  sends_next hi {a} u us v q =
      let none_out : a.sender.queue_sent ≡ [] =
        nil_of a.sender.queue_sent
          (omega (arith, length-queue_sent f hi hi a.sender v.outstanding)) in
      let (out, what) = sent_new f hi hi a.sender 0 u us v.outstanding (omega arith) q in
      let ran =
        pop_next a.sender a.sender 0 (sent_none a.sender 0 none_out)
        ∙ unsent_next a.sender 0 u us (omega (arith, ap length none_out)) q in
      let counted : suc hi + length us ≡ start + length a.pushed =
        omega (arith, v.counted, ap length q) in
      let order = InOrder-later f start hi (suc hi) a.receiver (omega arith) v.in_order in
      (
        record a { sender = _; packets = (hi, u) ∷ a.packets },
        step stop
            (sends 0 hi a.sender.next_unsent u _ ran v.outstanding.next_at (omega arith)
              (omega arith))
            tt,
        record {
          outstanding = out;
          counted = counted;
          in_order = order;
          behind = v.behind;
          within = omega (arith, v.within);
          low = v.low;
          lag = v.lag;
        },
        refl,
        refl,
        refl,
      )

  -- Both sides are at rest: nothing is outstanding, nothing waits.
  pub record Rested (a : Sides) : Type 0 where
    pub later : Sides
    pub moves : Exchange start a later
    pub pushed_is : later.pushed ≡ a.pushed
    pub output_is : later.receiver.output ≡ a.receiver.output
    pub at_rest : is_empty later.sender ≡ true
    pub all_in : received later.receiver ≡ positions f start (length a.pushed)

  empty_rests :
      (hi : ℕ) {a : Sides} (x : Came f start hi hi a) → a.sender.queue_unsent ≡ [] → Rested a
  unfolding is_empty
  empty_rests hi {a} x q =
      let s = x.later.sender in
      let waiting : s.queue_unsent ≡ [] = x.waiting_is ∙ q in
      let none_out : s.queue_sent ≡ [] =
        nil_of s.queue_sent (omega (arith, length-queue_sent f hi hi s x.ready.outstanding)) in
      let size : length (received x.later.receiver) ≡ length a.pushed = omega (
        arith,
        x.ready.counted,
        x.ready.behind,
        x.ready.within,
        ap length waiting,
        ap length x.pushed_is,
      ) in
      record {
        later = x.later;
        moves = x.moves;
        pushed_is = x.pushed_is;
        output_is = x.output_is;
        at_rest = rw (none_out, waiting) refl;
        all_in = x.ready.in_order.order ∙ ap (positions f start) size;
      }

  pub rests :
      (us : List SequentialSegment) (lo hi : ℕ) {a : Sides}
      → Ready f start lo hi a
      → Gap start a
      → a.sender.queue_unsent ≡ us
      → Rested a
  rests [] lo hi {a} v gap q = empty_rests hi (clears lo hi v gap) q
  rests (u ∷ us) lo hi {a} v gap q =
      let x = clears lo hi v gap in
      let (later, moves, ready, pushed, receiver, waits) =
        sends_next hi u us x.ready (x.waiting_is ∙ q) in
      let gap' = Ready-Gap f start hi (suc hi) ready (omega (arith, ready.behind)) in
      let y = rests us hi (suc hi) {a = later} ready gap' waits in
      record {
        later = y.later;
        moves = Exchange-trans start (Exchange-trans start x.moves moves) y.moves;
        pushed_is = y.pushed_is ∙ pushed ∙ x.pushed_is;
        output_is = y.output_is ∙ ap (λ r. r.output) receiver ∙ x.output_is;
        at_rest = y.at_rest;
        all_in = y.all_in ∙ ap (λ vs. positions f start (length vs)) (pushed ∙ x.pushed_is);
      }
