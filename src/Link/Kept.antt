-- ===== src/Link/Kept.antt =====
-- stream/send.rs and stream/recv.rs together: each call on either side keeps what they agree on.
use mdswp.Prelude.{
  ℕ, ◌+◌, ◌%◌, ◌≤◌, ◌<◌, ◌≡◌, ◌≢◌, ◌∙◌, ap, sym, subst, inl, inr, Option, none, some, List, [], ◌∷◌,
  ◌++◌, length, length-append, All, arith, Bool-cases,
}
use mdswp.Util.{IoResult, ok, done}
use mdswp.Segment.{SequentialSegment, accept}
use mdswp.Send.{SendStorage, push, acknowledge}
use mdswp.Send
use mdswp.Send.Track.{Outstanding, Sends, length-queue_sent}
use mdswp.Send.Window.{pop_lem}
use mdswp.Link.Drawn.{Drawn, pop_draws}
use mdswp.Send.Push.{finish_pushed, push_lem, push-Outstanding}
use mdswp.Send.Stale.{acknowledge-any}
use mdswp.Recv.Order.{Receiver, received, window_position, InOrder}
use mdswp.Link.{In, Sides, next_position}
use mdswp.Link.Joined.{
  Before, IsPacket, IsAck, Joined, InOrder-later, packets-later, All-In, IsFrom-below,
}

module _ (f : ℕ → SequentialSegment) (start : ℕ) {a : Sides} (v : Joined f start a) where
  pub push-ok :
      (u : SequentialSegment) (s' : SendStorage)
      → u ≢ accept
      → push a.sender u ≡ done (ok tt, s')
      → s' ≡ record (a.sender) { queue_unsent = a.sender.queue_unsent ++ u ∷ [] }
  push-ok u s' ne ran =
      let known = push_lem f v.lo v.hi a.sender v.outstanding u ne in
      elim (Bool-cases (finish_pushed f v.lo v.hi a.sender)) [
        | inl over ↦ cc (ran, rw over at known)
        | inr more ↦ cc (ran, rw more at known)
      ]

  pub pushes-Joined :
      (u : SequentialSegment) (s' : SendStorage)
      → u ≢ accept
      → push a.sender u ≡ done (ok tt, s')
      → u ≡ f (start + length a.pushed)
      → Joined f start (record a { sender = s'; pushed = a.pushed ++ u ∷ [] })
  pushes-Joined u s' ne ran what =
      let grown = push-ok u s' ne ran in
      let at : u ≡ f (v.hi + length a.sender.queue_unsent) = what ∙ ap f (sym v.counted) in
      record {
        lo = v.lo;
        hi = v.hi;
        outstanding =
            subst (Outstanding f v.lo v.hi) (sym grown)
              (push-Outstanding f v.lo v.hi a.sender v.outstanding u at);
        begun = v.begun;
        counted =
            let longer : length s'.queue_unsent ≡ length (a.sender.queue_unsent ++ u ∷ []) =
              ap (λ s. length s.queue_unsent) grown in
            omega (
              arith,
              longer,
              length-append a.sender.queue_unsent (u ∷ []),
              length-append a.pushed (u ∷ []),
              v.counted,
            );
        in_order = v.in_order;
        behind = v.behind;
        packets_sent = v.packets_sent;
        acks_given = v.acks_given;
      }

  -- The receiver has changed, and its window has not gone back.
  pub receives-Joined :
      (b : Receiver) (ns : List (ℕ × ℕ))
      → InOrder (Before f v.hi) f start b
      → window_position start a.receiver ≤ window_position start b
      → All (IsAck (window_position start b)) ns
      → Joined f start (record a { receiver = b; acks = ns })
  receives-Joined b ns order further acked = record {
    lo = v.lo;
    hi = v.hi;
    outstanding = v.outstanding;
    begun = v.begun;
    counted = v.counted;
    in_order = order;
    behind = omega (arith, v.behind);
    packets_sent = v.packets_sent;
    acks_given = acked;
  }

  pub acknowledges-Joined :
      (i n : ℕ) (r : IoResult (Unit {0})) (s' : SendStorage)
      → In (i, n) a.acks
      → next_position start a.sender a.pushed < i + 256
      → acknowledge a.sender n ≡ done (r, s')
      → Joined f start (record a { sender = s' })
  acknowledges-Joined i n r s' place recent ran =
      let (before, number) =
        All-In (IsAck (window_position start a.receiver)) a.acks (i, n) v.acks_given place in
      let received_all : window_position start a.receiver ≤ v.hi =
        IsFrom-below f v.hi start (received a.receiver) v.begun v.in_order.each in
      let (r', t, lo', ran', left, queue, which) =
        acknowledge-any f v.lo v.hi i a.sender v.outstanding (omega arith)
          (omega (arith, v.counted)) in
      let same : t ≡ s' = cc (ran, ran', number) in
      record {
        lo = lo';
        hi = v.hi;
        outstanding = subst (Outstanding f lo' v.hi) same left;
        begun = v.begun;
        counted =
            let unsent : s'.queue_unsent ≡ a.sender.queue_unsent =
              subst (λ q. q.queue_unsent ≡ a.sender.queue_unsent) same queue in
            rw unsent v.counted;
        in_order = v.in_order;
        behind = elim which [ inl e ↦ omega (arith, v.behind) | inr e ↦ omega arith ];
        packets_sent = v.packets_sent;
        acks_given = v.acks_given;
      }

module _ (f : ℕ → SequentialSegment) (start : ℕ) {a : Sides} (v : Joined f start a) where
  -- What `pop` of the sender makes of the joined sides, with the packets that are then on the way.
  pub draws-Joined :
      (now : ℕ) (r : Option (ℕ × SequentialSegment)) (s' : SendStorage)
      → Send.pop a.sender now ≡ done (r, s')
      → (hi : ℕ) × (v.hi ≤ hi)
        × (hi ≡ next_position start s' a.pushed)
        × Sends f v.lo hi r
        × (hi ≤ v.lo + 10)
        × (v.lo + length s'.queue_sent ≡ hi)
        × ((ps : List (ℕ × SequentialSegment))
            → All (IsPacket f hi) ps
            → Joined f start (record a { sender = s'; packets = ps }))
  draws-Joined now r s' ran =
      let (r', t, hi, ran', more, one, out, given) =
        pop_lem f v.lo v.hi a.sender now v.outstanding in
      let same : t ≡ s' = cc (ran, ran') in
      let same_result : r' ≡ r = cc (ran, ran') in
      let out' = subst (Outstanding f v.lo hi) same out in
      let counted : hi + length s'.queue_unsent ≡ start + length a.pushed =
        counts hi s' more one out' (pop_draws a.sender s' now r ran) in
      (
        hi,
        more,
        omega arith,
        subst (Sends f v.lo hi) same_result given,
        out'.few,
        omega (arith, out'.ordered, length-queue_sent f v.lo hi s' out'),
        λ ps sent. record {
          lo = v.lo;
          hi = hi;
          outstanding = out';
          begun = omega (arith, v.begun);
          counted = counted;
          in_order = InOrder-later f start v.hi hi a.receiver more v.in_order;
          behind = v.behind;
          packets_sent = sent;
          acks_given = v.acks_given;
        },
      )
    where
      counts :
          (hi : ℕ) (s' : SendStorage)
          → v.hi ≤ hi
          → hi ≤ v.hi + 1
          → Outstanding f v.lo hi s'
          → Drawn a.sender s'
          → hi + length s'.queue_unsent ≡ start + length a.pushed
      counts hi s' more one out (inl (number, queue)) =
          let at : hi ≡ v.hi = omega (arith, out.next_at, v.outstanding.next_at) in
          rw (queue, at) v.counted
      counts hi s' more one out (inr (number, fewer)) =
          let at : hi ≡ v.hi + 1 = omega (arith, out.next_at, v.outstanding.next_at) in
          omega (arith, v.counted)

  pub sends-Joined :
      (now i n : ℕ) (u : SequentialSegment) (s' : SendStorage)
      → Send.pop a.sender now ≡ done (some (n, u), s')
      → n ≡ i % 256
      → i < next_position start s' a.pushed
      → next_position start s' a.pushed ≤ i + 10
      → Joined f start (record a { sender = s'; packets = (i, u) ∷ a.packets })
  sends-Joined now i n u s' ran number below above =
      let (hi, more, at, (j, least, most, number', what), few, size, joined) =
        draws-Joined now (some (n, u)) s' ran in
      let same : j ≡ i = omega arith in
      joined ((i, u) ∷ a.packets)
        ((what ∙ ap f same, omega arith), packets-later f v.hi hi a.packets more v.packets_sent)

  pub idles-Joined :
      (now : ℕ) (s' : SendStorage)
      → Send.pop a.sender now ≡ done (none, s')
      → Joined f start (record a { sender = s' })
  idles-Joined now s' ran =
      let (hi, more, at, given, few, size, joined) = draws-Joined now none s' ran in
      joined a.packets (packets-later f v.hi hi a.packets more v.packets_sent)
