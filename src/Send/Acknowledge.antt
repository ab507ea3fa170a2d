-- ===== src/Send/Acknowledge.antt =====
-- stream/send.rs: `acknowledge` of a position that the peer can have received.
use mathlib.Core.List.{Perm, filter}
use mathlib.Core.List.Perm
use native.Mathlib.Decide.{dec_lt}
use mdswp.Prelude.{ℕ, suc, ◌+◌, ◌-◌, ◌%◌, ◌≤◌, ◌<◌, ◌≡◌, ◌∙◌, ap, subst, true, false, arith, leb}
use mdswp.Util.{wrapping_sub, window_size, done, ok, err, invalid_ack, conn_unexp_seg}
use mdswp.Segment.{SequentialSegment}
use mdswp.Send.{SendStorage, acknowledge}
use mdswp.Send.Loop.{unacknowledged, acknowledge_lem}
use mdswp.Send.Positions.{span, filter-span, Matches-unacknowledged}
use mdswp.Send.Track.{Outstanding}

pub ack_offset : (hi a : ℕ) → a ≤ hi → hi < a + 256 → wrapping_sub (hi % 256) (a % 256) ≡ hi - a
ack_offset hi a x y = omega arith

module _ (f : ℕ → SequentialSegment) (lo hi a : ℕ) (s : SendStorage)
    (v : Outstanding f lo hi s) where
  pub after_ack :
      lo ≤ suc a
      → a < hi
      → Outstanding f (suc a) hi (record s { queue_sent = unacknowledged (a % 256) s.queue_sent })
  after_ack x y =
      let (m, b) =
        Matches-unacknowledged f lo hi a v.few x y v.at s.queue_sent v.between v.matches in
      let count : lo + (hi - lo) - suc a ≡ hi - suc a = omega arith in
      record {
        at = filter (dec_lt a) v.at;
        ordered = y;
        few = omega (arith, v.few);
        next_at = v.next_at;
        each_once =
            subst (Perm (filter (dec_lt a) v.at))
              (filter-span a lo (hi - lo) x (omega arith) ∙ ap (span (suc a)) count)
              (Perm.filter (dec_lt a) v.each_once);
        between = b;
        matches = m;
        waiting = v.waiting;
      }

  -- When the peer acknowledges position `a`, the last one that it has received in order, and that
  -- is one of the nine before the next to be sent, `acknowledge` succeeds and exactly the positions above `a` stay outstanding.
  pub acknowledge-Outstanding :
      lo ≤ suc a
      → a < hi
      → hi < a + 10
      → (s' : SendStorage) × (acknowledge s (a % 256) ≡ done (ok tt, s'))
        × Outstanding f (suc a) hi s'
  acknowledge-Outstanding x y near =
      let offset : leb window_size (wrapping_sub (hi % 256) (a % 256)) ≡ false =
        rw (ack_offset hi a (omega arith) (omega arith)) (ground arith) in
      (_, acknowledge_lem s (a % 256) ∙ rw (v.next_at, offset), after_ack x y)

  -- A defect: with a full window of ten outstanding, the peer that has got the first of them, or
  -- none, acknowledges position `lo` or the one before it, and that is refused as an error.
  pub acknowledge_full_refused :
      hi ≡ lo + 10
      → lo ≤ suc a
      → a ≤ lo
      → acknowledge s (a % 256) ≡ done (err (conn_unexp_seg (invalid_ack (a % 256))), s)
  acknowledge_full_refused full x y =
      let offset : leb window_size (wrapping_sub (hi % 256) (a % 256)) ≡ true =
        rw (ack_offset hi a (omega arith) (omega arith)) (ground arith) in
      acknowledge_lem s (a % 256) ∙ rw (v.next_at, offset)
