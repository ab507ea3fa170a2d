-- ===== src/Link/Settle/Answer.antt =====
-- stream/recv.rs and stream/send.rs: what has come in is acknowledged, and nothing stays outstanding.
use mdswp.Prelude.{
  ℕ, suc, ◌+◌, ◌-◌, ◌/◌, ◌%◌, ◌≤◌, ◌<◌, ◌≡◌, refl, ◌∙◌, ap, sym, subst, inl, inr, true, false,
  Option, none, some, List, ◌∷◌, ◌++◌, arith, length, ltb, Bool-cases, Option-cases, lt→ltb, ◌==◌,
  if◌then◌else◌,
}
use mdswp.Util.{conn_timeout, elapsed, wrapping_sub, ok}
use mdswp.Segment.{SequentialSegment}
use mdswp.Send.Acknowledge.{acknowledge-Outstanding}
use mdswp.Send.Stale.{acknowledge-any}
use mdswp.Send.Track.{Outstanding}
use mdswp.Recv.{RecvStorage, pop_acknowledge}
use mdswp.Recv.Order.{window_position, pop_acknowledge_same}
use mdswp.Recv.History.{acknowledges-InOrder}
use mdswp.Link.{In, Sides, answers, is_quiet, acknowledges, with_storage}
use mdswp.Link.Joined.{Before}
use mdswp.Link.Settle.{stop, step, Ready, Came, goes_on}

-- With an old acknowledgement one is given at any later time; without one, the first call notes it.
asks_again :
    (s : RecvStorage) (now n t : ℕ)
    → s.last_ack ≡ some (n, t)
    → t + conn_timeout ≤ now
    → pop_acknowledge s now ≡ (
      some (wrapping_sub s.window 1),
      record s { urgent_ack = false; last_ack = some (wrapping_sub s.window 1, now) },
    )
unfolding pop_acknowledge
asks_again s now n t e late =
    let due : ltb (conn_timeout / 2) (elapsed now t) ≡ true = lt→ltb _ _ (omega arith) in
    elim (Bool-cases s.urgent_ack) [
      | inl urgent ↦ rw (e, urgent) refl
      | inr calm ↦ rw (e, calm, due) refl
    ]

asks_first :
    (s : RecvStorage)
    → s.last_ack ≡ none
    → pop_acknowledge s 0 ≡ (
      if s.window == s.lower_bound then none else some (wrapping_sub s.window 1),
      record s { last_ack = some (wrapping_sub s.window 1, 0) },
    )
unfolding pop_acknowledge
asks_first s e = rw e refl

module _ (f : ℕ → SequentialSegment) (start lo hi : ℕ) where
  -- A call that asks for an acknowledgement leaves the bounds.
  asked-Ready :
      {a : Sides} (now : ℕ) (r : Option ℕ) (st : RecvStorage) (ns : List (ℕ × ℕ))
      → Ready f start lo hi a
      → pop_acknowledge a.receiver.storage now ≡ (r, st)
      → Ready f start lo hi (record a { receiver = with_storage a.receiver st; acks = ns })
  asked-Ready {a} now r st ns v ran =
      let b = with_storage a.receiver st in
      let (queue, segs, win, low) = pop_acknowledge_same a.receiver.storage now r ran in
      let size : window_position start b ≡ window_position start a.receiver =
        ap (λ q. start + length (a.receiver.output ++ q)) queue in
      let offset : wrapping_sub st.window st.lower_bound
          ≡ wrapping_sub a.receiver.storage.window a.receiver.storage.lower_bound =
        rw (win, low) refl in
      record {
        outstanding = v.outstanding;
        counted = v.counted;
        in_order =
            acknowledges-InOrder (Before f hi) f start {a = a.receiver} {b = b} v.in_order now r ran
              refl;
        behind = omega (arith, v.behind);
        within = omega (arith, v.within);
        low = omega (arith, v.low);
        lag = omega (arith, v.lag);
      }

  -- The position `i` is acknowledged.
  abbrev Answered : Sides → ℕ → Type 0
  Answered a i =
      (came : Came f start lo hi a) × (came.later.sender ≡ a.sender)
      × In (i, i % 256) came.later.acks
      × (window_position start came.later.receiver ≡ window_position start a.receiver)

  answers_again :
      {a : Sides} (i n t : ℕ)
      → Ready f start lo hi a
      → suc i ≡ window_position start a.receiver
      → a.receiver.storage.last_ack ≡ some (n, t)
      → Answered a i
  answers_again {a} i n t v at last =
      let now = t + conn_timeout in
      let ran = asks_again a.receiver.storage now n t last (omega arith) in
      let number : wrapping_sub a.receiver.storage.window 1 ≡ i % 256 =
        omega (arith, v.in_order.tracks.window_at) in
      let ns = (i, wrapping_sub a.receiver.storage.window 1) ∷ a.acks in
      (
        record {
          later = record a { receiver = with_storage a.receiver _; acks = ns };
          moves = step stop (answers now i (wrapping_sub a.receiver.storage.window 1) _ ran at) tt;
          ready = asked-Ready now _ _ ns v ran;
          pushed_is = refl;
          output_is = refl;
          waiting_is = refl;
        },
        refl,
        inl (ap (λ k. (i, k)) number),
        refl,
      )

  -- The first call, after which the storage has an acknowledgement.
  answers_first :
      {a : Sides} (i : ℕ)
      → Ready f start lo hi a
      → suc i ≡ window_position start a.receiver
      → a.receiver.storage.last_ack ≡ none
      → (came : Came f start lo hi a) × (came.later.sender ≡ a.sender)
        × (came.later.receiver.storage.last_ack
            ≡ some (wrapping_sub a.receiver.storage.window 1, 0))
        × (window_position start came.later.receiver ≡ window_position start a.receiver)
  answers_first {a} i v at e =
      let s = a.receiver.storage in
      let st : RecvStorage = record s { last_ack = some (wrapping_sub s.window 1, 0) } in
      elim (Bool-cases (s.window == s.lower_bound)) [
        | inl nothing ↦
            let ran : pop_acknowledge s 0 ≡ (none, st) = asks_first s e ∙ rw nothing refl in
            (
              record {
                later = record a { receiver = with_storage a.receiver st };
                moves = step stop (is_quiet 0 st ran) tt;
                ready = asked-Ready 0 none st a.acks v ran;
                pushed_is = refl;
                output_is = refl;
                waiting_is = refl;
              },
              refl,
              refl,
              refl,
            )
        | inr more ↦
            let n = wrapping_sub s.window 1 in
            let ran : pop_acknowledge s 0 ≡ (some n, st) = asks_first s e ∙ rw more refl in
            let ns = (i, n) ∷ a.acks in
            (
              record {
                later = record a { receiver = with_storage a.receiver st; acks = ns };
                moves = step stop (answers 0 i n st ran at) tt;
                ready = asked-Ready 0 (some n) st ns v ran;
                pushed_is = refl;
                output_is = refl;
                waiting_is = refl;
              },
              refl,
              refl,
              refl,
            )
      ]

  -- The last position that has come in is acknowledged, at the second call at the latest.
  answers_window :
      {a : Sides} (i : ℕ)
      → Ready f start lo hi a
      → suc i ≡ window_position start a.receiver
      → Answered a i
  answers_window {a} i v at = elim (Option-cases a.receiver.storage.last_ack) [
    | inr (p, e) ↦ answers_again i p.0 p.1 v at e
    | inl e ↦
        let (x, same, last, stands) = answers_first i v at e in
        let (y, same', place, stands') = answers_again i _ _ x.ready (at ∙ sym stands) last in
        (goes_on f start x y, same' ∙ same, place, stands' ∙ stands)
  ]

  -- All has come in, its acknowledgement comes in, and nothing stays outstanding.
  pub acknowledges_all :
      {a : Sides}
      → Ready f start lo hi a
      → lo < hi
      → window_position start a.receiver ≡ hi
      → Came f start hi hi a
  acknowledges_all {a} v some_out all =
      let i = hi - 1 in
      let (x, same, place, stands) = answers_window i v (omega arith) in
      let o : Outstanding f lo hi x.later.sender = x.ready.outstanding in
      let (s', ran, left) =
        acknowledge-Outstanding f lo hi i x.later.sender o (omega arith) (omega arith)
          (omega arith) in
      let (r', t, lo', ran', left', queue, which) =
        acknowledge-any f lo hi i x.later.sender o (omega arith) (omega arith) in
      let same_end : t ≡ s' = cc (ran, ran') in
      let unsent : s'.queue_unsent ≡ x.later.sender.queue_unsent =
        subst (λ q. q.queue_unsent ≡ x.later.sender.queue_unsent) same_end queue in
      let last : suc i ≡ hi = omega arith in
      let y : Came f start hi hi x.later = record {
        later = record (x.later) { sender = s' };
        moves =
            step stop
              (acknowledges i (i % 256) (ok tt) s' place (omega (arith, x.ready.counted)) ran) tt;
        ready = record {
          outstanding = subst (λ k. Outstanding f k hi s') last left;
          counted = rw unsent x.ready.counted;
          in_order = x.ready.in_order;
          behind = omega (arith, stands);
          within = x.ready.within;
          low = omega (arith, x.ready.low);
          lag = x.ready.lag;
        };
        pushed_is = refl;
        output_is = refl;
        waiting_is = unsent;
      } in
      goes_on f start x y
