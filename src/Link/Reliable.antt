-- ===== src/Link/Reliable.antt =====
-- stream/send.rs and stream/recv.rs together: delivery in both directions of a connection.
use mdswp.Prelude.{
  ℕ, ◌+◌, ◌%◌, ◌<◌, ◌≡◌, refl, sym, subst, inl, inr, some, List, [], ◌++◌, length, arith,
}
use mdswp.Util.{done}
use mdswp.Segment.{SequentialSegment, accept}
use mdswp.Send.{SendStorage}
use mdswp.Send
use mdswp.Send.Track.{Outstanding, Sends}
use mdswp.Send.Window.{pop_lem}
use mdswp.Send.Unsent.{new_by_peer-Outstanding, new_by_local-Outstanding}
use mdswp.Recv
use mdswp.Recv.Start.{
  new_by_peer-Tracks, new_by_local-Tracks, empty-InOrder, queue_by_peer, queue_by_local,
}
use mdswp.Prelude.{suc, ap, ap₂, ◌∷◌, ◌∙◌, positions}
use mdswp.Link.{with_queued, Sides, Runs, fresh_sides, answering_sides}
use mdswp.Link.Joined.{Before, Joined}
use mdswp.Link.Drawn.{Drawn, pop_draws}
use mdswp.Link.Whole.{delivers_from}

nothing_waits : (n : ℕ) → (Send.new_by_local n).queue_unsent ≡ []
unfolding Send.new_by_local
nothing_waits n = refl

pub fresh-Joined : (f : ℕ → SequentialSegment) (n : ℕ) → Joined f (n + 1) (fresh_sides n)
fresh-Joined f n =
    let order =
      empty-InOrder (Before f (n + 1)) f (n + 1) (n + 1) (Recv.new_by_peer n) (queue_by_peer n)
        (new_by_peer-Tracks (Before f (n + 1)) n) in
    record {
      lo = n + 1;
      hi = n + 1;
      outstanding = new_by_local-Outstanding f n;
      begun = omega arith;
      counted = rw (nothing_waits n) refl;
      in_order = order;
      behind = omega arith;
      packets_sent = tt;
      acks_given = tt;
    }

-- After an ESTABLISH of any number, over any run of calls on both sides and a network that loses,
-- repeats and reorders, but brings nothing so late that its number has come round: what has been
-- popped from the receiving half, and what is queued there behind it, is an initial part of what
-- was pushed to the sending half, in order, without loss or repetition.
pub delivers_pushed :
    (n : ℕ) (b : Sides)
    → Runs (n + 1) (fresh_sides n) b
    → (rest : List SequentialSegment) × (b.pushed
        ≡ (b.receiver.output ++ b.receiver.storage.pop_queue) ++ rest)
delivers_pushed n b r = delivers_from (n + 1) (fresh_sides n) b (λ f first says. fresh-Joined f n) r

no_unsent :
    (m : ℕ)
    → (length (Send.new_by_peer m).queue_unsent ≡ 1) × ((Send.new_by_peer m).next_unsent ≡ m)
unfolding Send.new_by_peer
no_unsent m = (refl, refl)

-- The ACCEPT waits first, and what was pushed behind it.
queued-Outstanding :
    (f : ℕ → SequentialSegment) (m : ℕ) (us : List SequentialSegment)
    → m < 256
    → f m ≡ accept
    → us ≡ positions f (m + 1) (length us)
    → Outstanding f m m (with_queued (Send.new_by_peer m) us)
unfolding Send.new_by_peer
queued-Outstanding f m us small first says =
    let v = new_by_peer-Outstanding f m small first in
    let next : m + 1 ≡ suc m = omega arith in
    record {
      at = v.at;
      ordered = v.ordered;
      few = v.few;
      next_at = v.next_at;
      each_once = v.each_once;
      between = v.between;
      matches = v.matches;
      waiting = ap₂ (λ u q. u ∷ q) (sym first) (says ∙ ap (λ k. positions f k (length us)) next);
    }

queued_size :
    (m : ℕ) (us : List SequentialSegment)
    → length (with_queued (Send.new_by_peer m) us).queue_unsent ≡ suc (length us)
unfolding Send.new_by_peer
queued_size m us = refl

pub answering-Joined :
    (f : ℕ → SequentialSegment) (m now : ℕ) (us : List SequentialSegment) (s : SendStorage)
    → m < 256
    → f m ≡ accept
    → us ≡ positions f (m + 1) (length us)
    → Send.pop (with_queued (Send.new_by_peer m) us) now ≡ done (some (m, accept), s)
    → Joined f (m + 1) (answering_sides m us s)
answering-Joined f m now us s small first says ran =
    let begun = with_queued (Send.new_by_peer m) us in
    let (r, t, hi, ran', more, one, out, given) =
      pop_lem f m m begun now (queued-Outstanding f m us small first says) in
    let same : t ≡ s = cc (ran, ran') in
    let same_result : r ≡ some (m, accept) = cc (ran, ran') in
    let (j, least, most, number, what) = subst (Sends f m hi) same_result given in
    let at : hi ≡ m + 1 = omega arith in
    let out' : Outstanding f m (m + 1) s =
      subst (λ q. Outstanding f m q s) at (subst (Outstanding f m hi) same out) in
    let order =
      empty-InOrder (Before f (m + 1)) f m (m + 1) (Recv.new_by_local m) (queue_by_local m)
        (new_by_local-Tracks (Before f (m + 1)) m small (sym first, omega arith)) in
    record {
      lo = m;
      hi = m + 1;
      outstanding = out';
      begun = omega arith;
      counted = drained out'.next_at (pop_draws begun s now (some (m, accept)) ran);
      in_order = order;
      behind = omega arith;
      packets_sent = ((sym first, omega arith), tt);
      acks_given = tt;
    }
  where
    drained :
        s.next_unsent ≡ (m + 1) % 256
        → Drawn (with_queued (Send.new_by_peer m) us) s
        → m + 1 + length s.queue_unsent ≡ m + 1 + length us
    drained at (inl (number, queue)) = absurd (omega (arith, no_unsent m))
    drained at (inr (number, fewer)) = omega (arith, queued_size m us)

-- From the side that was opened to the side that has opened the connection, after the ACCEPT of
-- number `m` was popped from a new sending half, to which `us` may have been pushed before, and has
-- come, over any run of calls on both sides and a network that loses, repeats and reorders, but brings
-- nothing so late that its number has come round: what has been popped from the receiving half, and
-- what is queued there behind it, is an initial part of what was pushed to the sending half behind the
-- ACCEPT, in order, without loss or repetition.
pub delivers_back :
    (m now : ℕ) (us : List SequentialSegment) (s : SendStorage) (b : Sides)
    → m < 256
    → Send.pop (with_queued (Send.new_by_peer m) us) now ≡ done (some (m, accept), s)
    → Runs (m + 1) (answering_sides m us s) b
    → (rest : List SequentialSegment) × (b.pushed
        ≡ (b.receiver.output ++ b.receiver.storage.pop_queue) ++ rest)
delivers_back m now us s b small ran r =
    delivers_from (m + 1) (answering_sides m us s) b
      (λ f first says. answering-Joined f m now us s small (first m (omega arith)) says ran) r
