-- ===== src/Recv/Slide.antt =====
-- stream/recv.rs: `__try_slide_window` moves the window over all that is stored from it on.
use mdswp.Prelude.{
  ℕ, ◌+◌, ◌%◌, ◌≤◌, ◌<◌, ◌≡◌, refl, inl, inr, none, some, List, ◌++◌, arith, length, ltb,
  Bool-cases, Option-cases,
}
use mdswp.Util.{done}
use mdswp.Segment.{SequentialSegment}
use mdswp.Recv.{RecvStorage, find_window, queue_passed, raise_lower_bound, try_slide_window}
use mdswp.Recv.Loops.{IsStored, IsFrom, Holds, find_window_lem, queue_passed_lem}
use mdswp.Recv.Track.{Tracks, next_lower, raise_lower_bound_lem}

-- A storage before the window slides: `Tracks`, but something may be stored at the window.
pub record Loaded (P : ℕ → SequentialSegment → Type 0) (lo w : ℕ) (s : RecvStorage) : Type 0 where
  pub window_at : s.window ≡ w % 256
  pub lower_at : s.lower_bound ≡ lo % 256
  pub ordered : lo ≤ w
  pub room : w ≤ lo + 245
  pub present : (i : ℕ) → lo ≤ i → i < w → Holds P s.segments i
  pub ahead :
      (i : ℕ) (v : SequentialSegment)
      → w ≤ i
      → i < lo + 256
      → s.segments (i % 256) ≡ some v
      → (i < w + 10) × P i v

-- Where a call leaves the storage: on track at new bounds, with the passed segments queued.
pub record Moved (P : ℕ → SequentialSegment → Type 0) (w : ℕ) (queue : List SequentialSegment)
    (lo' w' : ℕ) (s' : RecvStorage) : Type 0 where
  pub passed : List SequentialSegment
  pub tracks : Tracks P lo' w' s'
  pub forward : w ≤ w'
  pub queued : s'.pop_queue ≡ queue ++ passed
  pub fits : IsFrom P w passed
  pub count : w + length passed ≡ w'

slide_runs :
    (s s' : RecvStorage) (k n : ℕ) (queue : List SequentialSegment)
    → s.window ≡ k
    → find_window 256 s.segments k ≡ done n
    → queue_passed 256 s.segments k n s.pop_queue ≡ done queue
    → raise_lower_bound (record s { pop_queue = queue; window = n }) ≡ done s'
    → try_slide_window s ≡ done s'
unfolding try_slide_window
slide_runs s s' k n queue at found ran raised = rw (at, found, ran) raised

module _ (P : ℕ → SequentialSegment → Type 0) where
  gap_ahead : (lo w : ℕ) (s : RecvStorage) → Loaded P lo w s → s.segments ((w + 10) % 256) ≡ none
  gap_ahead lo w s t = elim (Option-cases (s.segments ((w + 10) % 256))) [
    | inl e ↦ e
    | inr (v, e) ↦
        let (h, p) = t.ahead (w + 10) v (omega arith) (omega (arith, t.room)) e in
        absurd (omega arith)
  ]

  passed_hold :
      (lo w w' : ℕ) (s : RecvStorage)
      → Loaded P lo w s
      → w' ≤ w + 10
      → ((i : ℕ) → w ≤ i → i < w' → IsStored s.segments i)
      → (i : ℕ) → w ≤ i
      → i < w'
      → Holds P s.segments i
  passed_hold lo w w' s t h all i a b =
      let (v, e) = all i a b in let (x, p) = t.ahead i v a (omega (arith, t.room)) e in (v, e, p)

  -- The storage between the two halves of a slide.
  passed-Tracks :
      (lo w w' : ℕ) (s : RecvStorage) (queue : List SequentialSegment)
      → Loaded P lo w s
      → w ≤ w'
      → w' ≤ w + 10
      → ((i : ℕ) → w ≤ i → i < w' → IsStored s.segments i)
      → s.segments (w' % 256) ≡ none
      → Tracks P lo w' (record s { pop_queue = queue; window = w' % 256 })
  passed-Tracks lo w w' s queue t a b all free = record {
    window_at = refl;
    lower_at = t.lower_at;
    ordered = omega (arith, t.ordered);
    within = omega (arith, t.room);
    present = λ i c d. elim (Bool-cases (ltb i w)) [
      | inl q ↦ t.present i c (ground arith)
      | inr q ↦ passed_hold lo w w' s t b all i (ground arith) d
    ];
    ahead = λ i v c d e.
        let (x, p) = t.ahead i v (omega arith) d e in (omega arith, omega (arith, t.room), p);
    vacant = free;
  }

  pub try_slide_window_lem :
      (lo w : ℕ) (s : RecvStorage)
      → Loaded P lo w s
      → (w' : ℕ) × (s' : RecvStorage) × (try_slide_window s ≡ done s')
        × Moved P w s.pop_queue (next_lower lo w') w' s'
        × (w' ≤ w + 10)
        × ((i : ℕ) → w ≤ i → i < w' → IsStored s.segments i)
        × (s.segments (w' % 256) ≡ none)
  try_slide_window_lem lo w s t =
      let (w', a, b, found, free, all) =
        find_window_lem 256 s.segments w (w + 10) (omega arith) (omega arith)
          (gap_ahead lo w s t) in
      let (passed, ran, run, count) =
        queue_passed_lem P 256 s.segments w w' s.pop_queue a (omega arith) (omega arith)
          (passed_hold lo w w' s t b all) in
      let (s', raised, t', same) =
        raise_lower_bound_lem P lo w' _
          (passed-Tracks lo w w' s (s.pop_queue ++ passed) t a b all free) in
      (
        w',
        s',
        slide_runs s s' (w % 256) (w' % 256) (s.pop_queue ++ passed) t.window_at found ran raised,
        record {
          passed = passed;
          tracks = t';
          forward = a;
          queued = same;
          fits = run;
          count = count;
        },
        b,
        all,
        free,
      )
