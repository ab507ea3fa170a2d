-- ===== src/Send/Stale.antt =====
-- stream/send.rs: `acknowledge` of any position that was sent, late ones as well.
use mdswp.Prelude.{
  ℕ, suc, ◌+◌, ◌%◌, ◌≤◌, ◌<◌, ◌≡◌, refl, ◌∙◌, ap, ◌⊎◌, inl, inr, true, false, List, [], ◌∷◌, All,
  arith, leb, le→ltb, Bool-cases,
}
use mdswp.Util.{IoResult, wrapping_sub, window_size, done, ok, err, invalid_ack, conn_unexp_seg}
use mdswp.Segment.{SequentialSegment}
use mdswp.Send.{SentSegment, SendStorage, acknowledged, acknowledge}
use mdswp.Send.Loop.{unacknowledged, acknowledge_lem}
use mdswp.Send.Positions.{Matches, Between}
use mdswp.Send.Track.{Outstanding}
use mdswp.Send.Acknowledge.{ack_offset, after_ack}

-- An acknowledgement from before the oldest outstanding segment drops none.
not_yet : (a i : ℕ) → a < i → i < a + 10 → acknowledged (a % 256) (i % 256) ≡ false
not_yet a i x y =
    let far : 10 ≤ wrapping_sub (a % 256) (i % 256) = omega arith in
    le→ltb (wrapping_sub (a % 256) (i % 256)) 10 far

unacknowledged_late :
    (f : ℕ → SequentialSegment) (lo hi a : ℕ)
    → suc a < lo
    → hi < a + 10
    → (at : List ℕ) (es : List SentSegment) → All (Between lo hi) at
    → Matches f at es
    → unacknowledged (a % 256) es ≡ es
unacknowledged_late f lo hi a x y [] [] b m = refl
unacknowledged_late f lo hi a x y [] (e ∷ es) b m = absurd m
unacknowledged_late f lo hi a x y (i ∷ at) [] b m = absurd m
unacknowledged_late f lo hi a x y (i ∷ at) (e ∷ es) b m =
    let test : acknowledged (a % 256) e.seq_num ≡ false =
      ap (acknowledged (a % 256)) m.0 ∙ not_yet a i (omega (arith, b.0.0)) (omega (arith, b.0.1)) in
    rw test (ap (λ q. e ∷ q) (unacknowledged_late f lo hi a x y at es b.1 m.2))

module _ (f : ℕ → SequentialSegment) (lo hi a : ℕ) (s : SendStorage) (v : Outstanding f lo hi s)
    (sent : a < hi) (recent : hi < a + 256) where
  -- What is left outstanding: as before, or from behind `a` on.
  abbrev pub Acknowledged : Type 0
  Acknowledged =
      (r : IoResult (Unit {0})) × (s' : SendStorage) × (lo' : ℕ) × (acknowledge s (a % 256)
        ≡ done (r, s'))
      × Outstanding f lo' hi s'
      × (s'.queue_unsent ≡ s.queue_unsent)
      × ((lo' ≡ lo) ⊎ (lo' ≡ suc a))

  refuses : a + 10 ≤ hi → Acknowledged
  refuses h =
      let offset : leb window_size (wrapping_sub (hi % 256) (a % 256)) ≡ true =
        rw (ack_offset hi a (omega arith) recent) (ground arith) in
      (
        err (conn_unexp_seg (invalid_ack (a % 256))),
        s,
        lo,
        acknowledge_lem s (a % 256) ∙ rw (v.next_at, offset),
        v,
        refl,
        inl refl,
      )

  accepts :
      hi < a + 10
      → acknowledge s (a % 256)
        ≡ done (ok tt, record s { queue_sent = unacknowledged (a % 256) s.queue_sent })
  accepts h =
      let offset : leb window_size (wrapping_sub (hi % 256) (a % 256)) ≡ false =
        rw (ack_offset hi a (omega arith) recent) (ground arith) in
      acknowledge_lem s (a % 256) ∙ rw (v.next_at, offset)

  pub acknowledge-any : Acknowledged
  acknowledge-any = elim (Bool-cases (leb (a + 10) hi)) [
    | inl far ↦ refuses (ground arith)
    | inr near ↦ elim (Bool-cases (leb lo (suc a))) [
      | inl known ↦ (
        ok tt,
        _,
        suc a,
        accepts (ground arith),
        after_ack f lo hi a s v (ground arith) sent,
        refl,
        inr refl,
      )
      | inr late ↦
          let kept : unacknowledged (a % 256) s.queue_sent ≡ s.queue_sent =
            unacknowledged_late f lo hi a (ground arith) (ground arith) v.at s.queue_sent v.between
              v.matches in
          (
            ok tt,
            s,
            lo,
            accepts (ground arith) ∙ ap (λ q. done (ok tt, record s { queue_sent = q })) kept,
            v,
            refl,
            inl refl,
          )
    ]
  ]
