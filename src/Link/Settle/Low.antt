-- ===== src/Link/Settle/Low.antt =====
-- stream/send.rs and stream/recv.rs together: nothing that is outstanding is from before the lower
-- bound of the receiving half.
use mdswp.Prelude.{
  ℕ, ◌+◌, ◌-◌, ◌%◌, ◌≤◌, ◌<◌, ◌≡◌, refl, ◌∙◌, ap, sym, subst, ◌≢◌, inl, inr, Option, some, none,
  List, [], ◌∷◌, ◌++◌, arith, length, length-append, append_assoc, leb, Bool-cases,
}
use mdswp.Util.{IoResult, ok, done, wrapping_sub, window_size}
use mdswp.Segment.{SequentialSegment, accept}
use mdswp.Send.{SentSegment, SendStorage, acknowledged, push, acknowledge}
use mdswp.Send
use mdswp.Send.Loop.{length-unacknowledged, unacknowledged, acknowledge_lem}
use mdswp.Send.Track.{length-queue_sent}
use mdswp.Recv.{RecvStorage, recv, pop_acknowledge}
use mdswp.Recv
use mdswp.Recv.Track.{bound_below}
use mdswp.Recv.Slide.{Moved}
use mdswp.Recv.Receive.{kept, slid}
use mdswp.Recv.Outcome.{Taken, refused, repeated, differing, fresh, recv_lem}
use mdswp.Recv.Order.{
  received, window_position, lower_position, lower_of_Tracks, pop_lem, pop_acknowledge_same,
}
use mdswp.Recv.History.{arrives-InOrder, grown_by}
use mdswp.Link.{
  In, Sides, next_position, with_storage, Move, pushes, sends, idles, arrives, delivers, answers,
  is_quiet, acknowledges,
}
use mdswp.Link.Joined.{Before, IsPacket, Joined, All-In, IsFrom-below}
use mdswp.Link.Kept.{push-ok, draws-Joined}

abbrev pub Low : ℕ → Sides → Type 0
Low start a =
    lower_position start a.receiver + length a.sender.queue_sent
    ≤ next_position start a.sender a.pushed

acknowledge-fewer :
    (s s' : SendStorage) (n : ℕ) (r : IoResult (Unit {0}))
    → acknowledge s n ≡ done (r, s')
    → (length s'.queue_sent ≤ length s.queue_sent) × (s'.queue_unsent ≡ s.queue_unsent)
acknowledge-fewer s s' n r ran =
    let fewer = length-unacknowledged n s.queue_sent in
    elim (Bool-cases (leb window_size (wrapping_sub s.next_unsent n))) [
      | inl far ↦
          let known = rw far at (acknowledge_lem s n) in
          let same : s ≡ s' = cc (known, ran) in
          (omega (arith, ap (λ q. length q.queue_sent) same), ap (λ q. q.queue_unsent) (sym same))
      | inr near ↦
          let known = rw near at (acknowledge_lem s n) in
          let same : record s { queue_sent = unacknowledged n s.queue_sent } ≡ s' =
            cc (known, ran) in
          (omega (arith, ap (λ q. length q.queue_sent) same), ap (λ q. q.queue_unsent) (sym same))
    ]

lower_after :
    {lo w i : ℕ} {s : RecvStorage} {v : SequentialSegment} {r : IoResult (Unit {0})} {lo' w' : ℕ}
    {s' : RecvStorage} (k : ℕ)
    → Taken lo w i s v r lo' w' s'
    → lo ≤ k
    → w' ≤ k + 10
    → lo' ≤ k
lower_after k (refused out a b c d) h g = omega arith
lower_after k (repeated good here a b c d) h g = omega arith
lower_after k (differing u good here ne a b c d) h g = omega arith
lower_after k (fresh good here a ran (kept ne b c)) h g = omega arith
lower_after {lo} {w' = w'} k (fresh good here a ran (slid at more most all next low)) h g =
    let le = bound_below lo w' k h g in omega (arith, low)

module _ (f : ℕ → SequentialSegment) (start : ℕ) {a : Sides} (v : Joined f start a) where
  -- In terms of the positions.
  pub Low-iff : (Low start a → v.in_order.lo ≤ v.lo) × (v.in_order.lo ≤ v.lo → Low start a)
  Low-iff =
      let low =
        lower_of_Tracks (Before f v.hi) v.in_order.lo _ a.receiver.storage v.in_order.tracks in
      let size = length-queue_sent f v.lo v.hi a.sender v.outstanding in
      let o = v.outstanding.ordered in
      (λ h. omega (arith, v.counted), λ h. omega (arith, v.counted))

  arrives-Low :
      (i : ℕ) (u : SequentialSegment) (r : IoResult (Unit {0})) (st : RecvStorage)
      → In (i, u) a.packets
      → lower_position start a.receiver ≤ i
      → i < lower_position start a.receiver + 256
      → recv a.receiver.storage (i % 256) u ≡ done (r, st)
      → Low start a
      → Low start (record a { receiver = with_storage a.receiver st })
  arrives-Low i u r st place above below ran h =
      let P = Before f v.hi in
      let l = v.in_order.lo in
      let b = with_storage a.receiver st in
      let low = lower_of_Tracks P l _ a.receiver.storage v.in_order.tracks in
      let fits = All-In (IsPacket f v.hi) a.packets (i, u) v.packets_sent place in
      let (r', lo', w', s', ran', moved, taken) =
        recv_lem P l _ i a.receiver.storage u v.in_order.tracks fits (omega arith) (omega arith) in
      let same : s' ≡ st = cc (ran, ran') in
      let m = subst (Moved P _ a.receiver.storage.pop_queue lo' w') same moved in
      let longer = grown_by P f start {a = a.receiver} {b = b} v.in_order lo' w' m refl in
      let stands : window_position start b ≡ w' = omega (arith, longer, m.count) in
      let (order, grown) =
        arrives-InOrder P f start {a = a.receiver} {b = b} v.in_order i r u (λ j t p. p.0) fits
          above below ran refl in
      let within = IsFrom-below f v.hi start (received b) v.begun order.each in
      let lowered : lower_position start b ≡ lo' =
        ap (λ k. k - wrapping_sub st.window st.lower_bound) stands
        ∙ lower_of_Tracks P lo' w' st m.tracks in
      let le =
        lower_after v.lo taken (Low-iff.0 h) (omega (arith, stands, within, v.outstanding.few)) in
      let size = length-queue_sent f v.lo v.hi a.sender v.outstanding in
      let o = v.outstanding.ordered in omega (arith, v.counted, lowered, le)

  asked-Low :
      (now : ℕ) (answer : Option ℕ) (st : RecvStorage) (ns : List (ℕ × ℕ))
      → pop_acknowledge a.receiver.storage now ≡ (answer, st)
      → Low start a
      → Low start (record a { receiver = with_storage a.receiver st; acks = ns })
  asked-Low now answer st ns ran h =
      let (queue, segs, win, low) = pop_acknowledge_same a.receiver.storage now answer ran in
      let size = ap (λ q. length (a.receiver.output ++ q)) queue in
      let offset : wrapping_sub st.window st.lower_bound
          ≡ wrapping_sub a.receiver.storage.window a.receiver.storage.lower_bound =
        rw (win, low) refl in
      omega (arith, h)

  delivers-Low :
      (u : SequentialSegment) (st : RecvStorage)
      → Recv.pop a.receiver.storage ≡ (some u, st)
      → Low start a
      → Low start
          (record a { receiver = record { storage = st; output = a.receiver.output ++ u ∷ [] } })
  delivers-Low u st ran h =
      let (taken, segs, win, low) = pop_lem a.receiver.storage u ran in
      let same : (a.receiver.output ++ u ∷ []) ++ st.pop_queue ≡ received a.receiver =
        rw taken (append_assoc a.receiver.output (u ∷ []) st.pop_queue) in
      let size = ap length same in
      let offset : wrapping_sub st.window st.lower_bound
          ≡ wrapping_sub a.receiver.storage.window a.receiver.storage.lower_bound =
        rw (win, low) refl in
      omega (arith, h)

  draws-Low :
      (now : ℕ) (r : Option (ℕ × SequentialSegment)) (s' : SendStorage)
      (ps : List (ℕ × SequentialSegment))
      → Send.pop a.sender now ≡ done (r, s')
      → Low start a
      → Low start (record a { sender = s'; packets = ps })
  draws-Low now r s' ps ran h =
      let (hi, more, at, given, few, size, joined) = draws-Joined f start v now r s' ran in
      let least = Low-iff.0 h in
      let low =
        lower_of_Tracks (Before f v.hi) v.in_order.lo _ a.receiver.storage v.in_order.tracks in
      omega (arith, at, size, least, low)

  pushes-Low :
      (u : SequentialSegment) (s' : SendStorage)
      → u ≢ accept
      → push a.sender u ≡ done (ok tt, s')
      → Low start a
      → Low start (record a { sender = s'; pushed = a.pushed ++ u ∷ [] })
  pushes-Low u s' ne ran h =
      let grown = push-ok f start v u s' ne ran in
      let sent = ap (λ s. length s.queue_sent) grown in
      let longer = ap (λ s. length s.queue_unsent) grown in
      let one = length-append a.sender.queue_unsent (u ∷ []) in
      let all = length-append a.pushed (u ∷ []) in omega (arith, h)

-- Each call keeps it.
pub Move-Low :
    (f : ℕ → SequentialSegment) (start : ℕ) {a b : Sides}
    → Joined f start a
    → Move start a b
    → Low start a
    → Low start b
Move-Low f start v (pushes u s' ne ran) h = pushes-Low f start v u s' ne ran h
Move-Low f start {a} v (sends now i n u s' ran at x y) h =
    draws-Low f start v now (some (n, u)) s' ((i, u) ∷ a.packets) ran h
Move-Low f start {a} v (idles now s' ran) h = draws-Low f start v now none s' a.packets ran h
Move-Low f start v (arrives i u r st place x y ran) h =
    arrives-Low f start v i u r st place x y ran h
Move-Low f start v (delivers u st ran) h = delivers-Low f start v u st ran h
Move-Low f start {a} v (answers now i n st ran at) h =
    asked-Low f start v now (some n) st ((i, n) ∷ a.acks) ran h
Move-Low f start {a} v (is_quiet now st ran) h = asked-Low f start v now none st a.acks ran h
Move-Low f start {a} v (acknowledges i n r s' place x ran) h =
    let (fewer, same) = acknowledge-fewer a.sender s' n r ran in
    let size = ap length same in omega (arith, h)
