-- ===== src/Recv/Receive.antt =====
-- stream/recv.rs: the check of a number, and the part of `recv` that stores a segment.
use mdswp.Prelude.{
  mod_ne, ==_false, ==_true, ℕ, ◌+◌, ◌-◌, ◌%◌, ◌≤◌, ◌<◌, ◌≡◌, refl, ◌∙◌, ap, sym, ◌≢◌, inl, inr,
  Bool, true, none, some, [], append-nil, arith, ◌==◌, ltb, if◌then◌else◌, ==_iff, Bool-cases,
}
use mdswp.Util.{done, ok, err, wrapping_add, wrapping_sub, conn_invalid_seq_num}
use mdswp.Segment.{SequentialSegment}
use mdswp.Recv.{RecvStorage, insert, raise_highest, check_valid_seq_num, store}
use mdswp.Recv.Loops.{IsStored, Holds}
use mdswp.Recv.Track.{Tracks, next_lower}
use mdswp.Recv.Slide.{Loaded, Moved, try_slide_window_lem}

-- Whether position `i` is in the range that the code accepts.
abbrev pub in_range : ℕ → ℕ → ℕ → Bool
in_range lo w i = ltb (i - lo) ((w + 10 - lo) % 256)

-- Where the bounds stand after the segment of position `i` is stored: they stay, or the window
-- stood there, and moves to the first position behind it at which nothing is stored.
pub data Advance (lo w i : ℕ) (s : RecvStorage) (lo' w' : ℕ) : Type 0 where
  kept : i ≢ w → lo' ≡ lo → w' ≡ w → Advance lo w i s lo' w'
  slid :
      i ≡ w
      → w < w'
      → w' ≤ w + 10
      → ((j : ℕ) → w < j → j < w' → IsStored s.segments j)
      → s.segments (w' % 256) ≡ none
      → lo' ≡ next_lower lo w'
      → Advance lo w i s lo' w'

pub check_valid_lem :
    (P : ℕ → SequentialSegment → Type 0) (lo w i : ℕ) (s : RecvStorage)
    → Tracks P lo w s
    → lo ≤ i
    → i < lo + 256
    → check_valid_seq_num s (i % 256) ≡ (
        if in_range lo w i
        then ok tt
        else err (conn_invalid_seq_num (i % 256) (lo % 256) ((w + 10) % 256)))
unfolding check_valid_seq_num
check_valid_lem P lo w i s t a b =
    let offset : wrapping_sub (i % 256) (lo % 256) ≡ i - lo = omega arith in
    let upper : wrapping_add (w % 256) 10 ≡ (w + 10) % 256 = omega arith in
    let most : wrapping_sub ((w + 10) % 256) (lo % 256) ≡ (w + 10 - lo) % 256 =
      omega (arith, t.ordered) in
    rw (t.window_at, t.lower_at, offset, upper, most)

-- What is in range and not stored lies in the window, and the window has room to slide.
pub fresh_bounds :
    (P : ℕ → SequentialSegment → Type 0) (lo w i : ℕ) (s : RecvStorage)
    → Tracks P lo w s
    → lo ≤ i
    → in_range lo w i ≡ true
    → s.segments (i % 256) ≡ none
    → (w ≤ i) × (i < w + 10) × (w ≤ lo + 245)
fresh_bounds P lo w i s t a v e =
    let h : i - lo < (w + 10 - lo) % 256 = ground arith in
    let ahead : w ≤ i = elim (Bool-cases (ltb i w)) [
      | inl q ↦ let (u, f, p) = t.present i a (ground arith) in cc
      | inr q ↦ ground arith
    ] in
    (ahead, omega (arith, t.within, t.ordered), omega (arith, t.within, t.ordered))

module _ (P : ℕ → SequentialSegment → Type 0) (lo w i : ℕ) (s : RecvStorage)
    (v : SequentialSegment) where
  abbrev pub stored : RecvStorage
  stored = record s {
    segments = insert s.segments (i % 256) v;
    highest = raise_highest s.highest (i % 256);
  }

  insert_other : (j : ℕ) → j % 256 ≢ i % 256 → stored.segments (j % 256) ≡ s.segments (j % 256)
  insert_other j ne = rw (==_false (j % 256) (i % 256) ne)

  insert_self : stored.segments (i % 256) ≡ some v
  insert_self = rw (==_true (i % 256) (i % 256) refl)

  module _ (t : Tracks P lo w s) (fits : P i v) (above : w ≤ i) (below : i < w + 10)
      (room : w ≤ lo + 245) where
    stored_ahead :
        (j : ℕ) (u : SequentialSegment)
        → w ≤ j
        → j < lo + 256
        → stored.segments (j % 256) ≡ some u
        → (j < w + 10) × (j < lo + 255) × P j u
    stored_ahead j u a b e = elim (Bool-cases (j == i)) [
      | inl q ↦
          let same = (==_iff j i).0 q in
          let value : u ≡ v = cc (insert_self, ap (λ k. stored.segments (k % 256)) same) in
          (omega arith, omega arith, rw (same, value) fits)
      | inr q ↦
          let ne : j ≢ i = ground arith in
          t.ahead j u a b (sym (insert_other j (omega (arith, t.ordered))) ∙ e)
    ]

    stored_present : (j : ℕ) → lo ≤ j → j < w → Holds P stored.segments j
    stored_present j a b =
        let (u, e, p) = t.present j a b in (u, insert_other j (omega (arith, t.ordered)) ∙ e, p)

    stored-Loaded : Loaded P lo w stored
    stored-Loaded = record {
      window_at = t.window_at;
      lower_at = t.lower_at;
      ordered = t.ordered;
      room = room;
      present = stored_present;
      ahead = λ j u a b e. let (x, y, p) = stored_ahead j u a b e in (x, p);
    }

    stored-Tracks : i ≢ w → Tracks P lo w stored
    stored-Tracks ne = record {
      window_at = t.window_at;
      lower_at = t.lower_at;
      ordered = t.ordered;
      within = t.within;
      present = stored_present;
      ahead = stored_ahead;
      vacant = insert_other w (omega (arith, t.ordered)) ∙ t.vacant;
    }

    pub store_lem :
        (lo' w' : ℕ) × (s' : RecvStorage) × (store s (i % 256) v ≡ done s')
        × Moved P w s.pop_queue lo' w' s'
        × Advance lo w i s lo' w'
    unfolding store
    store_lem = elim (Bool-cases (i == w)) [
      | inl q ↦
          let same = (==_iff i w).0 q in
          let (w', s', ran, moved, most, all, free) =
            try_slide_window_lem P lo w stored stored-Loaded in
          let moves : w ≢ w' =
            λ e. cc (insert_self, ap (λ k. stored.segments (k % 256)) (same ∙ e)) in
          (
            next_lower lo w',
            w',
            s',
            rw (==_true (i % 256) s.window (ap (λ k. k % 256) same ∙ sym t.window_at)) ran,
            moved,
            slid same (omega (arith, moved.forward)) most
                (λ j a b.
                  let (u, e) = all j (omega arith) b in
                  (
                    u,
                    sym (
                          insert_other j (λ q.
                            mod_ne w j a (omega arith) (ap (λ k. k % 256) (sym same) ∙ sym q)))
                        ∙ e,
                  ))
                (sym (
                    insert_other w' (λ q.
                      mod_ne w w' (omega (arith, moved.forward)) (omega arith)
                        (ap (λ k. k % 256) (sym same) ∙ sym q)))
                  ∙ free)
                refl,
          )
      | inr q ↦
          let ne : i ≢ w = ground arith in
          (
            lo,
            w,
            stored,
            rw (
                ==_false (i % 256) s.window
                  (λ e. mod_ne w i (omega arith) (omega arith) (sym t.window_at ∙ sym e))),
            record {
              passed = [];
              tracks = stored-Tracks ne;
              forward = omega arith;
              queued = sym (append-nil s.pop_queue);
              fits = tt;
              count = omega arith;
            },
            kept ne refl refl,
          )
    ]
