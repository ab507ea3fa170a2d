-- ===== src/Recv/Tests.antt =====
-- stream/recv.rs: a receiver that gets its segments out of order, and one whose window jams.
use mdswp.Prelude.{
  ℕ, ◌-◌, ◌%◌, ◌≤◌, ◌<◌, ◌≡◌, refl, some, none, [], ◌∷◌, arith, true, false, ◌&&◌, ◌||◌, ltb, leb,
  ◌==◌, if◌then◌else◌, Bool-cases, ◌⊎◌, inl, inr,
}
use mdswp.Util.{Run, done, IoResult, ok, err, conn_invalid_seq_num, conn_unreliable}
use mdswp.Segment.{SequentialSegment, accept, finish, payload, seg_eq}
use mdswp.Segment.Text.{codes, sequential_text, len, first_bytes}
use mdswp.Recv.{
  Segments, RecvStorage, recv, check_valid_seq_num, check_presence_of, store, try_slide_window,
  find_window, queue_passed, raise_lower_bound, remove_old, raise_highest, pop, new_by_peer,
  new_by_local,
}
use mdswp.Recv.Track.{Tracks}
use mdswp.Recv.Outcome.{recv_lem, Reception}
use mdswp.Recv.Order.{Receiver, Step, arrives, pops, Reach, here, next}
use mdswp.Recv.Start.{IsPrefix, started, new_by_peer-Tracks, in_order_by_peer, in_order_by_local}
use mdswp.Recv.{clear}
use mdswp.Recv.Cleared.{cleared_recv_panics}
use mdswp.Util.{panic}
use mdswp.Recv.Bound.{
  Any, IsValid, HoldsAhead, recv-IsValid, full_slide_stuck, far_window_refused, Serves,
}

jammed_test : (i : ℕ) → 20 ≤ i → i < 270 → (leb 14 (i % 256) && ltb (i % 256) 20) ≡ false
jammed_test i a b = elim (Bool-cases (ltb i 256)) [
  | inl q ↦ let e : i % 256 ≡ i = ground arith in rw e (ground arith)
  | inr q ↦ let e : i % 256 ≡ i - 256 = ground arith in rw e (ground arith)
]

abbrev byte : ℕ → SequentialSegment
byte n = payload (record { bytes = n ∷ [] })

-- What the peer sends: ACCEPT at 3, then a byte at each position.
abbrev sent : ℕ → SequentialSegment
sent i = if i == 3 then accept else byte i

abbrev storage_of : Run (IoResult (Unit {0}) × RecvStorage) → RecvStorage
storage_of (done (r, s)) = s
storage_of _ = new_by_peer 0

abbrev first : RecvStorage → RecvStorage
first s = storage_of (recv s 5 (sent 5))

abbrev second : RecvStorage → RecvStorage
second s = storage_of (recv (first s) 4 (sent 4))

-- Position 5 arrives before position 4, and one segment is popped.
abbrev out_of_order : RecvStorage → Receiver
out_of_order s = record { storage = (pop (second s)).1; output = sent 4 ∷ [] }

first-runs : recv (new_by_peer 3) 5 (sent 5) ≡ done (ok tt, first (new_by_peer 3))
unfolding recv check_valid_seq_num check_presence_of store new_by_peer raise_highest
first-runs = refl

second-runs : recv (first (new_by_peer 3)) 4 (sent 4) ≡ done (ok tt, second (new_by_peer 3))
unfolding recv check_valid_seq_num check_presence_of store try_slide_window find_window queue_passed
    raise_lower_bound remove_old new_by_peer raise_highest
second-runs = refl

third-runs : pop (second (new_by_peer 3)) ≡ (some (sent 4), (pop (second (new_by_peer 3))).1)
unfolding pop recv check_valid_seq_num check_presence_of store try_slide_window find_window
    queue_passed raise_lower_bound remove_old new_by_peer raise_highest
third-runs = refl

-- Both are queued in order once the second has come.
second-queue : (second (new_by_peer 3)).pop_queue ≡ sent 4 ∷ sent 5 ∷ []
unfolding recv check_valid_seq_num check_presence_of store try_slide_window find_window queue_passed
    raise_lower_bound remove_old new_by_peer raise_highest
second-queue = refl

-- The same segment again is only noted as urgent; another one under its number is an error.
repeated :
    recv (second (new_by_peer 3)) 5 (sent 5)
    ≡ done (ok tt, record (second (new_by_peer 3)) { urgent_ack = true })
unfolding recv check_valid_seq_num check_presence_of store try_slide_window find_window queue_passed
    raise_lower_bound remove_old new_by_peer raise_highest seg_eq
repeated = refl

differing :
    recv (second (new_by_peer 3)) 5 finish
    ≡ done (
      err (conn_unreliable (codes "FINISH") (codes "DATA (1 bytes total, first 1 bytes: [5])")),
      second (new_by_peer 3),
    )
unfolding recv check_valid_seq_num check_presence_of store try_slide_window find_window queue_passed
    raise_lower_bound remove_old new_by_peer raise_highest seg_eq sequential_text len first_bytes
differing = refl

out_of_order-Reach : Reach sent 4 (started (new_by_peer 3)) (out_of_order (new_by_peer 3))
unfolding recv check_valid_seq_num check_presence_of store try_slide_window find_window queue_passed
    raise_lower_bound remove_old new_by_peer raise_highest
out_of_order-Reach =
    let early : Step sent 4 (started (new_by_peer 3)) (started (first (new_by_peer 3))) =
      arrives 5 (ok tt) (omega arith) (omega arith) first-runs refl in
    let late : Step sent 4 (started (first (new_by_peer 3))) (started (second (new_by_peer 3))) =
      arrives 4 (ok tt) (omega arith) (omega arith) second-runs refl in
    next (next (next here early) late) (pops (sent 4) third-runs refl)

in_order_by_peer_example : IsPrefix sent 4 (out_of_order (new_by_peer 3))
in_order_by_peer_example = in_order_by_peer sent 3 out_of_order-Reach

abbrev answered : RecvStorage
answered = storage_of (recv (new_by_local 3) 4 (sent 4))

answered-Reach : Reach sent 4 (started (new_by_local 3)) (started answered)
unfolding recv check_valid_seq_num check_presence_of store try_slide_window find_window queue_passed
    raise_lower_bound remove_old raise_highest new_by_local
answered-Reach =
    let step : Step sent 4 (started (new_by_local 3)) (started answered) =
      arrives 4 (ok tt) (omega arith) (omega arith) refl refl in
    next here step

in_order_by_local_example : IsPrefix sent 4 (started answered)
in_order_by_local_example = in_order_by_local sent 3 (omega arith) refl answered-Reach

recv_lem_example : Reception Any 4 4 5 (new_by_peer 3) (byte 5)
recv_lem_example =
    recv_lem Any 4 4 5 (new_by_peer 3) (byte 5) (new_by_peer-Tracks Any 3) tt (omega arith)
      (omega arith)

recv-IsValid_example :
    (r : IoResult (Unit {0})) × (s' : RecvStorage) × (recv (new_by_peer 3) 200 (byte 5)
      ≡ done (r, s'))
    × IsValid s'
recv-IsValid_example =
    recv-IsValid 200 (byte 5) (record { lo = 4; w = 4; tracks = new_by_peer-Tracks Any 3 })
      (omega arith)

-- A storage with the numbers 20 to 29 behind its window and 31 to 39 ahead of it.
abbrev full_segments : Segments
full_segments k = if (leb 20 k && ltb k 30) || (ltb 30 k && ltb k 40) then some accept else none

abbrev full : RecvStorage
full = record {
  segments = full_segments;
  pop_queue = [];
  window = 30;
  lower_bound = 20;
  highest = some 39;
  last_ack = none;
  urgent_ack = false;
}

full_keys : (k : ℕ) (v : SequentialSegment) → full_segments k ≡ some v → (20 ≤ k) × (k < 40)
full_keys k v e = ground arith

full-Tracks : Tracks Any 20 30 full
full-Tracks = record {
  window_at = refl;
  lower_at = refl;
  ordered = omega arith;
  within = omega arith;
  present = λ i a b. let e : i % 256 ≡ i = omega arith in (accept, rw e (ground arith), tt);
  ahead = λ i v a b e. let (low, high) = full_keys (i % 256) v e in (omega arith, omega arith, tt);
  vacant = refl;
}

full-HoldsAhead : HoldsAhead full 30
full-HoldsAhead j a b = let e : j % 256 ≡ j = omega arith in (accept, rw e (ground arith))

full_slide_stuck_example :
    (s' : RecvStorage) × (recv full 30 (byte 30) ≡ done (ok tt, s'))
    × (s'.window ≡ 40)
    × (s'.lower_bound ≡ 20)
    × ((b : RecvStorage) → Serves s' b → b.lower_bound ≡ 20)
full_slide_stuck_example = full_slide_stuck 20 full (byte 30) full-Tracks full-HoldsAhead

-- All numbers but 14 to 19 are stored, and the window stands at 14.
abbrev jammed : RecvStorage
jammed = record {
  segments = λ k. if leb 14 k && ltb k 20 then none else some accept;
  pop_queue = [];
  window = 14;
  lower_bound = 20;
  highest = some 13;
  last_ack = none;
  urgent_ack = false;
}

jammed_keys : (k : ℕ) (v : SequentialSegment) → jammed.segments k ≡ some v → (k < 14) ⊎ (20 ≤ k)
jammed_keys k v e = ground arith

jammed-Tracks : Tracks Any 20 270 jammed
jammed-Tracks = record {
  window_at = refl;
  lower_at = refl;
  ordered = omega arith;
  within = omega arith;
  present = λ i a b.
      let out : (leb 14 (i % 256) && ltb (i % 256) 20) ≡ false = jammed_test i a b in
      (accept, rw out, tt);
  ahead = λ i v a b e. let free = jammed_keys (i % 256) v e in absurd (omega arith);
  vacant = refl;
}

far_window_refused_example :
    recv jammed 14 (byte 14) ≡ done (err (conn_invalid_seq_num 14 20 24), jammed)
far_window_refused_example = far_window_refused 20 270 jammed (byte 14) jammed-Tracks (omega arith)

cleared_recv_panics_example : recv (clear full) 30 (byte 30) ≡ panic
cleared_recv_panics_example = cleared_recv_panics 20 full (byte 30) full-Tracks
