-- ===== src/Recv/History.antt =====
-- stream/recv.rs: each call keeps the receiver in order, and so does a whole history.
use mdswp.Prelude.{
  ℕ, ◌+◌, ◌%◌, ◌≤◌, ◌<◌, ◌≡◌, refl, ◌∙◌, ap, ap₂, sym, subst, some, Option, [], ◌∷◌, ◌++◌,
  append_assoc, arith, length, length-append, positions, positions-append,
}
use mdswp.Util.{done, IoResult}
use mdswp.Segment.{SequentialSegment}
use mdswp.Recv.{recv, pop, pop_acknowledge}
use mdswp.Recv.Loops.{IsFrom}
use mdswp.Recv.Slide.{Moved}
use mdswp.Recv.Outcome.{recv_lem}
use mdswp.Recv.Order.{
  Receiver, received, lower_position, Step, arrives, pops, acknowledges, Reach, here, next, Sent,
  Means, positions-IsFrom, InOrder, IsFrom-append, lower_of_Tracks, Tracks-same, pop_lem,
  pop_acknowledge_same,
}

module _ (P : ℕ → SequentialSegment → Type 0) (f : ℕ → SequentialSegment) (start : ℕ)
    {a b : Receiver} (v : InOrder P f start a) where
  -- A slide has queued the segments that it passed.
  extend-InOrder :
      (lo' w' : ℕ)
      → Means P f
      → Moved P (start + length (received a)) a.storage.pop_queue lo' w' b.storage
      → b.output ≡ a.output
      → InOrder P f start b
  extend-InOrder lo' w' means m e =
      let grown : received b ≡ received a ++ m.passed =
        rw (e, m.queued) (sym (append_assoc a.output a.storage.pop_queue m.passed)) in
      let size : length (received b) ≡ length (received a) + length m.passed =
        ap length grown ∙ length-append (received a) m.passed in
      let at : start + length (received b) ≡ w' = omega (arith, size, m.count) in
      record {
        lo = lo';
        tracks = rw at m.tracks;
        each =
            subst (IsFrom P start) (sym grown)
              (IsFrom-append P start (received a) m.passed v.each m.fits);
        order =
            grown
            ∙ ap₂ ◌++◌ v.order (positions-IsFrom P f _ m.passed means m.fits)
            ∙ positions-append f start (length (received a)) (length m.passed)
            ∙ ap (positions f start) (sym size);
      }

  -- Nothing is queued or taken out of order, and the bounds stay.
  same-InOrder :
      received b ≡ received a
      → b.storage.segments ≡ a.storage.segments
      → b.storage.window ≡ a.storage.window
      → b.storage.lower_bound ≡ a.storage.lower_bound
      → InOrder P f start b
  same-InOrder e segs win low = record {
    lo = v.lo;
    tracks = rw e (Tracks-same P v.lo _ segs win low v.tracks);
    each = subst (IsFrom P start) (sym e) v.each;
    order = e ∙ v.order ∙ ap (λ q. positions f start (length q)) (sym e);
  }

  pub grown_by :
      (lo' w' : ℕ) (m : Moved P (start + length (received a)) a.storage.pop_queue lo' w' b.storage)
      → b.output ≡ a.output
      → length (received b) ≡ length (received a) + length m.passed
  grown_by lo' w' m e =
      let grown : received b ≡ received a ++ m.passed =
        rw (e, m.queued) (sym (append_assoc a.output a.storage.pop_queue m.passed)) in
      ap length grown ∙ length-append (received a) m.passed

  pub arrives-InOrder :
      (i : ℕ) (r : IoResult (Unit {0})) (u : SequentialSegment)
      → Means P f
      → P i u
      → lower_position start a ≤ i
      → i < lower_position start a + 256
      → recv a.storage (i % 256) u ≡ done (r, b.storage)
      → b.output ≡ a.output
      → InOrder P f start b × (length (received a) ≤ length (received b))
  arrives-InOrder i r u means fits lo hi ran out =
      let at = lower_of_Tracks P v.lo _ a.storage v.tracks in
      let (r', lo', w', s', ran', moved, taken) =
        recv_lem P v.lo _ i a.storage u v.tracks fits (omega arith) (omega arith) in
      let same : s' ≡ b.storage = cc in
      let m = subst (Moved P _ a.storage.pop_queue lo' w') same moved in
      (extend-InOrder lo' w' means m out, omega (arith, grown_by lo' w' m out))

  pub pops-InOrder :
      (u : SequentialSegment)
      → pop a.storage ≡ (some u, b.storage)
      → b.output ≡ a.output ++ u ∷ []
      → InOrder P f start b
  pops-InOrder u popped out =
      let (taken, segs, win, low) = pop_lem a.storage u popped in
      same-InOrder (rw (out, taken) (append_assoc a.output (u ∷ []) b.storage.pop_queue)) segs win
        low

  pub acknowledges-InOrder :
      (now : ℕ) (n : Option ℕ)
      → pop_acknowledge a.storage now ≡ (n, b.storage)
      → b.output ≡ a.output
      → InOrder P f start b
  acknowledges-InOrder now n acked out =
      let (queue, segs, win, low) = pop_acknowledge_same a.storage now n acked in
      same-InOrder (ap₂ ◌++◌ out queue) segs win low

pub Step-InOrder :
    (f : ℕ → SequentialSegment) (start : ℕ) {a b : Receiver}
    → InOrder (Sent f) f start a
    → Step f start a b
    → InOrder (Sent f) f start b
Step-InOrder f start v (arrives i r lo hi ran out) =
    (arrives-InOrder (Sent f) f start v i r (f i) (λ i u e. e) refl lo hi ran out).0
Step-InOrder f start v (pops u popped out) = pops-InOrder (Sent f) f start v u popped out
Step-InOrder f start v (acknowledges now n acked out) =
    acknowledges-InOrder (Sent f) f start v now n acked out

pub Reach-InOrder :
    (f : ℕ → SequentialSegment) (start : ℕ) {a b : Receiver}
    → InOrder (Sent f) f start a
    → Reach f start a b
    → InOrder (Sent f) f start b
Reach-InOrder f start v here = v
Reach-InOrder f start v (next r st) = Step-InOrder f start (Reach-InOrder f start v r) st
