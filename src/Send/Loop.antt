-- ===== src/Send/Loop.antt =====
-- stream/send.rs: the loop of `acknowledge`, which removes by index from the back, is a filter.
use mdswp.Prelude.{
  ℕ, zero, suc, ◌≤◌, ◌<◌, ◌≡◌, refl, ◌∙◌, ap, inl, inr, List, [], ◌∷◌, ◌++◌, some, append-nil,
  append_assoc, arith, length, take, drop, take-length, drop-length, if◌then◌else◌, Bool-cases, leb,
}
use mdswp.Util.{done, ok, err, wrapping_sub, window_size, conn_unexp_seg, invalid_ack}
use mdswp.Send.{
  SentSegment, SendStorage, sent_at, remove_at, acknowledged, remove_acknowledged, acknowledge,
}

-- The sent segments that `ack_num` leaves in the queue, in their order.
abbrev pub unacknowledged : ℕ → List SentSegment → List SentSegment
unacknowledged a [] = []
unacknowledged a (e ∷ es) =
    if acknowledged a e.seq_num then unacknowledged a es else e ∷ unacknowledged a es

unacknowledged-append :
    (a : ℕ) (xs ys : List SentSegment)
    → unacknowledged a (xs ++ ys) ≡ unacknowledged a xs ++ unacknowledged a ys
unacknowledged-append a [] ys = refl
unacknowledged-append a (x ∷ xs) ys = ground (arith, unacknowledged-append a xs ys)

pub length-unacknowledged :
    (n : ℕ) (es : List SentSegment) → length (unacknowledged n es) ≤ length es
length-unacknowledged n [] = omega arith
length-unacknowledged n (e ∷ es) = ground (arith, length-unacknowledged n es)

-- A list, cut at an index that is in range.
split_at :
    (es : List SentSegment) (n : ℕ)
    → n < length es
    → (e : SentSegment) × (sent_at es n ≡ some e)
      × (take (suc n) es ≡ take n es ++ e ∷ [])
      × (drop n es ≡ e ∷ drop (suc n) es)
      × (take n (remove_at es n) ≡ take n es)
      × (drop n (remove_at es n) ≡ drop (suc n) es)
split_at [] n h = absurd (omega arith)
split_at (e ∷ es) zero h = (e, refl, refl, refl, refl, refl)
split_at (e ∷ es) (suc n) h =
    let (x, a, b, c, d, k) = split_at es n (omega arith) in (x, a, ap (◌∷◌ e) b, c, ap (◌∷◌ e) d, k)

remove_at-length : (es : List SentSegment) (n : ℕ) → n < length es → n ≤ length (remove_at es n)
remove_at-length [] n h = absurd (omega arith)
remove_at-length (e ∷ es) zero h = omega arith
remove_at-length (e ∷ es) (suc n) h = omega (arith, remove_at-length es n (omega arith))

loop_filters :
    (a n : ℕ) (es : List SentSegment)
    → n ≤ length es
    → remove_acknowledged a n es ≡ done (unacknowledged a (take n es) ++ drop n es)
unfolding remove_acknowledged
loop_filters a zero es h = refl
loop_filters a (suc n) es h =
    let (e, at, front, back, front', back') = split_at es n h in
    let cut = unacknowledged-append a (take n es) (e ∷ []) in
    elim (Bool-cases (acknowledged a e.seq_num)) [
      | inl gone ↦ rw (
        at,
        remove_acknowledged,
        gone,
        loop_filters a n (remove_at es n) (remove_at-length es n h),
        front',
        back',
        front,
        cut,
        gone,
        append-nil,
      )
      | inr left ↦ rw (
        at,
        remove_acknowledged,
        left,
        loop_filters a n es (omega arith),
        back,
        front,
        cut,
        left,
        append_assoc,
      )
    ]

-- The loop of `acknowledge` ends, never indexes out of range, and leaves the segments that are not acknowledged, in
-- their order: whatever the numbers in the queue are.
pub remove_acknowledged_filters :
    (a : ℕ) (es : List SentSegment)
    → remove_acknowledged a (length es) es ≡ done (unacknowledged a es)
remove_acknowledged_filters a es =
    loop_filters a (length es) es (omega arith) ∙ rw (take-length es, drop-length es, append-nil)

-- `acknowledge` in one equation: refused, or the filter.
pub acknowledge_lem :
    (s : SendStorage) (a : ℕ)
    → acknowledge s a ≡ (
        if leb window_size (wrapping_sub s.next_unsent a)
        then done (err (conn_unexp_seg (invalid_ack a)), s)
        else done (ok tt, record s { queue_sent = unacknowledged a s.queue_sent }))
unfolding acknowledge
acknowledge_lem s a = rw (remove_acknowledged_filters a s.queue_sent)
