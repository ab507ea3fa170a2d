-- ===== src/Recv/Cleared.antt =====
-- stream/recv.rs: a storage that was cleared under a segment that is about to be received.
use mdswp.Prelude.{
  ℕ, suc, ◌+◌, ◌%◌, ◌≡◌, ◌≢◌, refl, ◌∙◌, ap, sym, true, Option, none, some, List, ◌++◌, arith,
  ==_true, ==_false,
}
use mdswp.Util.{done, panic, ok, wrapping_sub}
use mdswp.Segment.{SequentialSegment}
use mdswp.Recv.{
  Segments, no_segments, insert, RecvStorage, clear, recv, store, raise_highest,
  check_valid_seq_num, find_window, queue_passed, remove_old, raise_lower_bound, try_slide_window,
}
use mdswp.Recv.Loops.{find_window_lem, queue_passed_lem}
use mdswp.Recv.Track.{Tracks}
use mdswp.Recv.Outcome.{recv_absent}
use mdswp.Recv.Bound.{Any}
use mdswp.Recv.Receive.{check_valid_lem, in_range}

-- The only segment that is there stands at the position `w`.
module _ (w : ℕ) (v : SequentialSegment) where
  abbrev only : Segments
  only = insert no_segments (w % 256) v

  only_here : only (w % 256) ≡ some v
  only_here = rw (==_true (w % 256) (w % 256) refl)

  nothing_at : (n : ℕ) → n ≢ w % 256 → only n ≡ none
  nothing_at n h = rw (==_false n (w % 256) h)

  finds_next : find_window 256 only (w % 256) ≡ done ((w + 1) % 256)
  finds_next =
      let (k, low, high, found, free, all) =
        find_window_lem 256 only w (w + 1) (omega arith) (omega arith)
          (nothing_at ((w + 1) % 256) (λ e. omega arith)) in
      let moved : w ≢ k = λ e. cc (only_here, free, ap (λ j. only (j % 256)) e) in
      let at : k ≡ w + 1 = omega arith in found ∙ ap (λ j. done (j % 256)) at

  passes_one :
      (queue : List SequentialSegment)
      → (passed : List SequentialSegment) × (queue_passed 256 only (w % 256) ((w + 1) % 256) queue
          ≡ done (queue ++ passed))
  passes_one queue =
      let (passed, ran, run, count) =
        queue_passed_lem Any 256 only w (w + 1) queue (omega arith) (omega arith) (omega arith)
          (λ i a b. let same : i ≡ w = omega arith in (v, rw same only_here, tt)) in
      (passed, ran)

  misses : (f lo : ℕ) → w ≡ lo + 10 → remove_old (suc f) only (lo % 256) ((lo + 1) % 256) ≡ panic
  unfolding remove_old
  misses f lo e = rw (
    ==_false (lo % 256) ((lo + 1) % 256) (λ q. omega arith),
    remove_old,
    nothing_at (lo % 256) (λ q. omega arith),
  )

module _ (lo : ℕ) (s : RecvStorage) (v : SequentialSegment) (t : Tracks Any lo (lo + 10) s) where
  abbrev w : ℕ
  w = lo + 10

  -- After the segment is stored and the window has moved to the next.
  raise_panics :
      (queue : List SequentialSegment) (h : Option ℕ)
      → raise_lower_bound
          (record s { segments = only w v; highest = h; pop_queue = queue; window = (w + 1) % 256 })
        ≡ panic
  unfolding raise_lower_bound
  raise_panics queue h =
      let low : wrapping_sub ((w + 1) % 256) 10 ≡ (lo + 1) % 256 = omega arith in
      let near : wrapping_sub ((lo + 1) % 256) (lo % 256) ≡ 1 = omega arith in
      rw (t.lower_at, low, near, misses w v 255 lo refl)

  slide_panics :
      (h : Option ℕ) → try_slide_window (record s { segments = only w v; highest = h }) ≡ panic
  unfolding try_slide_window
  slide_panics h =
      let (passed, ran) = passes_one w v s.pop_queue in
      rw (t.window_at, finds_next w v, ran) (raise_panics (s.pop_queue ++ passed) h)

  store_panics : store (clear s) (w % 256) v ≡ panic
  unfolding store clear
  store_panics =
      rw (==_true (w % 256) s.window (sym t.window_at))
        (slide_panics (raise_highest s.highest (w % 256)))

  valid : check_valid_seq_num (clear s) (w % 256) ≡ ok tt
  unfolding clear check_valid_seq_num
  valid =
      let good : in_range lo w w ≡ true = ground arith in
      check_valid_lem Any lo w w s t (omega arith) (omega arith) ∙ rw good

  nothing_left : (clear s).segments (w % 256) ≡ none
  unfolding clear
  nothing_left = refl

  -- A defect: a storage with the ten segments behind its window is cleared by an error, and then the
  -- segment at the window is received, as when the error comes from another thread: the loop over
  -- the lower bound misses a segment that was cleared, and `unwrap` panics.
  pub cleared_recv_panics : recv (clear s) (w % 256) v ≡ panic
  cleared_recv_panics = recv_absent (clear s) (w % 256) v valid nothing_left ∙ rw (store_panics)
