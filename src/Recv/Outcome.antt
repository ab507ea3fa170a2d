-- ===== src/Recv/Outcome.antt =====
-- stream/recv.rs: `recv` on every branch, for the segment of position `i`.
use mdswp.Prelude.{
  ℕ, ◌+◌, ◌%◌, ◌≤◌, ◌<◌, ◌≡◌, refl, ◌∙◌, sym, ◌≢◌, inl, inr, true, false, none, some, [],
  append-nil, arith, if◌then◌else◌, Bool-cases, Option-cases,
}
use mdswp.Util.{done, ◌>>=◌, IoError, IoResult, ok, err, conn_invalid_seq_num, conn_unreliable}
use mdswp.Segment.{SequentialSegment, seg_eq}
use mdswp.Segment.Text.{sequential_text}
use mdswp.Segment.RoundTrip.{seg_eq_iff}
use mdswp.Recv.{RecvStorage, check_valid_seq_num, check_presence_of, store, recv}
use mdswp.Recv.Track.{Tracks}
use mdswp.Recv.Slide.{Moved}
use mdswp.Recv.Receive.{in_range, check_valid_lem, fresh_bounds, Advance, store_lem}

recv_present :
    (s : RecvStorage) (n : ℕ) (v u : SequentialSegment)
    → check_valid_seq_num s n ≡ ok tt
    → s.segments n ≡ some u
    → recv s n v ≡ (
        if seg_eq v u
        then done (ok tt, record s { urgent_ack = true })
        else done (err (conn_unreliable (sequential_text v) (sequential_text u)), s))
unfolding recv check_presence_of
recv_present s n v u valid here = elim (Bool-cases (seg_eq v u)) [
  | inl e ↦ rw (valid, recv, here, check_presence_of, e)
  | inr e ↦ rw (valid, recv, here, check_presence_of, e)
]

pub recv_absent :
    (s : RecvStorage) (n : ℕ) (v : SequentialSegment)
    → check_valid_seq_num s n ≡ ok tt
    → s.segments n ≡ none
    → recv s n v ≡ (store s n v >>= λ s'. done (ok tt, s'))
unfolding recv check_presence_of
recv_absent s n v valid free = rw (valid, recv, free, check_presence_of)

pub recv_invalid :
    (s : RecvStorage) (n : ℕ) (v : SequentialSegment) (e : IoError)
    → check_valid_seq_num s n ≡ err e
    → recv s n v ≡ done (err e, s)
unfolding recv
recv_invalid s n v e invalid = rw (invalid, recv)

-- The four ways in which `recv` takes the segment `v` of position `i`.
pub data Taken (lo w i : ℕ) (s : RecvStorage) (v : SequentialSegment) (r : IoResult (Unit {0}))
    (lo' w' : ℕ) (s' : RecvStorage) : Type 0 where
  refused :
      in_range lo w i ≡ false
      → r ≡ err (conn_invalid_seq_num (i % 256) (lo % 256) ((w + 10) % 256))
      → s' ≡ s
      → lo' ≡ lo
      → w' ≡ w
      → Taken lo w i s v r lo' w' s'
  repeated :
      in_range lo w i ≡ true
      → s.segments (i % 256) ≡ some v
      → r ≡ ok tt
      → s' ≡ record s { urgent_ack = true }
      → lo' ≡ lo
      → w' ≡ w
      → Taken lo w i s v r lo' w' s'
  differing :
      (u : SequentialSegment)
      → in_range lo w i ≡ true
      → s.segments (i % 256) ≡ some u
      → v ≢ u
      → r ≡ err (conn_unreliable (sequential_text v) (sequential_text u))
      → s' ≡ s
      → lo' ≡ lo
      → w' ≡ w
      → Taken lo w i s v r lo' w' s'
  fresh :
      in_range lo w i ≡ true
      → s.segments (i % 256) ≡ none
      → r ≡ ok tt
      → store s (i % 256) v ≡ done s'
      → Advance lo w i s lo' w'
      → Taken lo w i s v r lo' w' s'

module _ (P : ℕ → SequentialSegment → Type 0) (lo w i : ℕ) (s : RecvStorage)
    (v : SequentialSegment) where
  abbrev pub Reception : Type 0
  Reception =
      (r : IoResult (Unit {0})) × (lo' w' : ℕ) × (s' : RecvStorage) × (recv s (i % 256) v
        ≡ done (r, s'))
      × Moved P w s.pop_queue lo' w' s'
      × Taken lo w i s v r lo' w' s'

  unmoved :
      {s' : RecvStorage}
      → Tracks P lo w s'
      → s'.pop_queue ≡ s.pop_queue
      → Moved P w s.pop_queue lo w s'
  unmoved t e = record {
    passed = [];
    tracks = t;
    forward = omega arith;
    queued = e ∙ sym (append-nil s.pop_queue);
    fits = tt;
    count = omega arith;
  }

  urgent-Tracks : Tracks P lo w s → Tracks P lo w (record s { urgent_ack = true })
  urgent-Tracks t = record {
    window_at = t.window_at;
    lower_at = t.lower_at;
    ordered = t.ordered;
    within = t.within;
    present = t.present;
    ahead = t.ahead;
    vacant = t.vacant;
  }

  -- From a storage on track, for the segment of a position less than 256 above the lower bound,
  -- `recv` returns, panics nowhere and keeps the storage on track. It refuses what is out of range
  -- or contradicts what is stored, notes a repetition, stores what is ahead, and at the window
  -- slides over all that is present.
  pub recv_lem : Tracks P lo w s → P i v → lo ≤ i → i < lo + 256 → Reception
  recv_lem t fits a b = elim (Bool-cases (in_range lo w i)) [
    | inr out ↦ (
      _,
      lo,
      w,
      s,
      recv_invalid s (i % 256) v _ (check_valid_lem P lo w i s t a b ∙ rw out),
      unmoved t refl,
      refused out refl refl refl refl,
    )
    | inl good ↦
        let valid = check_valid_lem P lo w i s t a b ∙ rw good in
        elim (Option-cases (s.segments (i % 256))) [
          | inl free ↦
              let (x, y, z) = fresh_bounds P lo w i s t a good free in
              let (lo', w', s', ran, moved, adv) = store_lem P lo w i s v t fits x y z in
              (
                ok tt,
                lo',
                w',
                s',
                recv_absent s (i % 256) v valid free ∙ rw ran,
                moved,
                fresh good free refl ran adv,
              )
          | inr (u, here) ↦
              let ran = recv_present s (i % 256) v u valid here in
              elim (Bool-cases (seg_eq v u)) [
                | inl e ↦ (
                  ok tt,
                  lo,
                  w,
                  record s { urgent_ack = true },
                  ran ∙ rw e,
                  unmoved (urgent-Tracks t) refl,
                  repeated good (rw ((seg_eq_iff v u).0 e) here) refl refl refl refl,
                )
                | inr e ↦ (
                  err (conn_unreliable (sequential_text v) (sequential_text u)),
                  lo,
                  w,
                  s,
                  ran ∙ rw e,
                  unmoved t refl,
                  differing u good here (λ q. cc ((seg_eq_iff v u).1 q)) refl refl refl refl,
                )
              ]
        ]
  ]
