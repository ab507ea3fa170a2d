-- ===== src/Recv/Track.antt =====
-- stream/recv.rs: the receiving storage against unbounded positions of the peer's sequence.
use mdswp.Prelude.{
  ℕ, ◌+◌, ◌-◌, ◌%◌, ◌≤◌, ◌<◌, ◌≡◌, refl, ◌∙◌, ap, sym, inl, inr, Bool, ◌&&◌, none, some, arith, ltb,
  leb, if◌then◌else◌, Bool-cases,
}
use mdswp.Util.{done, wrapping_sub}
use mdswp.Segment.{SequentialSegment}
use mdswp.Recv.{Segments, RecvStorage, remove_old, raise_lower_bound}
use mdswp.Recv.Loops.{Holds, remove_old_lem}

-- The storage has everything from position `lo` up to its window at `w`, may have more before
-- `w + 10`, and has nothing at `w`. What it has fits `P`. Never is all of the 256 numbers in use.
pub record Tracks (P : ℕ → SequentialSegment → Type 0) (lo w : ℕ) (s : RecvStorage) : Type 0 where
  pub window_at : s.window ≡ w % 256
  pub lower_at : s.lower_bound ≡ lo % 256
  pub ordered : lo ≤ w
  pub within : w ≤ lo + 255
  pub present : (i : ℕ) → lo ≤ i → i < w → Holds P s.segments i
  pub ahead :
      (i : ℕ) (v : SequentialSegment)
      → w ≤ i
      → i < lo + 256
      → s.segments (i % 256) ≡ some v
      → (i < w + 10) × (i < lo + 255) × P i v
  pub vacant : s.segments (w % 256) ≡ none

-- Where the lower bound stands once the window has come to `w`.
abbrev pub next_lower : ℕ → ℕ → ℕ
next_lower lo w = if leb 10 (w - lo) && ltb (w - lo) 20 then w - 10 else lo

-- The lower bound is raised no further than ten below the window.
pub bound_below : (lo w k : ℕ) → lo ≤ k → w ≤ k + 10 → next_lower lo w ≤ k
bound_below lo w k a b = elim (Bool-cases (leb 10 (w - lo) && ltb (w - lo) 20)) [
  | inl up ↦ rw up (omega arith)
  | inr stays ↦ rw stays a
]

pub bound_distance :
    (lo w : ℕ) → lo ≤ w → wrapping_sub (wrapping_sub (w % 256) 10) (lo % 256) ≡ (w + 246 - lo) % 256
bound_distance lo w h = omega arith

-- Whether `raise_lower_bound` raises the bound.
abbrev raises : ℕ → ℕ → Bool
raises lo w = leb 10 (w - lo) && ltb (w - lo) 20

pub raise_test :
    (lo w : ℕ)
    → lo ≤ w
    → w ≤ lo + 255
    → ltb (wrapping_sub (wrapping_sub (w % 256) 10) (lo % 256)) 10 ≡ raises lo w
raise_test lo w h k = rw (bound_distance lo w h) (ground arith)

low_bound_at : (w : ℕ) → 10 ≤ w → wrapping_sub (w % 256) 10 ≡ (w - 10) % 256
low_bound_at w h = omega arith

module _ (P : ℕ → SequentialSegment → Type 0) where
  -- Lowering the bound by the passed segments keeps the storage on track.
  raise_on :
      (lo w : ℕ) (s : RecvStorage)
      → Tracks P lo w s
      → 10 ≤ w - lo
      → w - lo < 20
      → (m : Segments) × (remove_old 256 s.segments (lo % 256) ((w - 10) % 256) ≡ done m)
        × Tracks P (w - 10) w (record s { segments = m; lower_bound = (w - 10) % 256 })
  raise_on lo w s t a b =
      let (m, ran, kept, dropped) =
        remove_old_lem 256 s.segments lo (w - 10) (omega arith) (omega arith) (omega arith)
          (λ i c d. let (v, e, p) = t.present i c (omega arith) in (v, e)) in
      (
        m,
        ran,
        record {
          window_at = t.window_at;
          lower_at = refl;
          ordered = omega arith;
          within = omega arith;
          present = λ i c d.
              let (v, e, p) = t.present i (omega (arith, t.within)) d in
              (v, kept i c (omega (arith, t.within)) ∙ e, p);
          ahead = λ i v c d e. elim (Bool-cases (ltb i (lo + 256))) [
            | inl q ↦
                let (x, y, p) =
                  t.ahead i v c (ground arith) (sym (kept i (omega arith) (ground arith)) ∙ e) in
                (x, omega (arith, t.ordered), p)
            | inr q ↦
                let j : lo + 256 ≤ i = ground arith in
                let wrap : (i - 256) % 256 ≡ i % 256 = omega arith in
                cc (dropped (i - 256) (omega arith) (omega arith), ap m wrap)
          ];
          vacant = kept w (omega arith) (omega (arith, t.within)) ∙ t.vacant;
        },
      )

  pub raise_lower_bound_lem :
      (lo w : ℕ) (s : RecvStorage)
      → Tracks P lo w s
      → (s' : RecvStorage) × (raise_lower_bound s ≡ done s')
        × Tracks P (next_lower lo w) w s'
        × (s'.pop_queue ≡ s.pop_queue)
  unfolding raise_lower_bound
  raise_lower_bound_lem lo w s t = elim (Bool-cases (raises lo w)) [
    | inl up ↦
        let (m, ran, t') = raise_on lo w s t (ground arith) (ground arith) in
        (
          record s { segments = m; lower_bound = (w - 10) % 256 },
          rw (
            t.window_at,
            t.lower_at,
            raise_test lo w t.ordered t.within,
            up,
            low_bound_at w (ground arith),
            ran,
          ),
          rw up t',
          refl,
        )
    | inr stay ↦
        (s, rw (t.window_at, t.lower_at, raise_test lo w t.ordered t.within, stay), rw stay t, refl)
  ]
